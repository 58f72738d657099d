-- ===== src/Reviews/Tests.antt =====
-- A review from its signal to its approval (recon/policy/review_gate.py), and the theorems there.
use night_scout.Prelude.{String, ◌≡◌, refl, ◌⊎◌, none, some, [], ◌∷◌, keep, string_eq}
use night_scout.Prelude.Dict
use night_scout.Prelude.Dict.{IsDistinct-put, IsDistinct-empty}
use night_scout.Prelude.Dict.{Dict}
use night_scout.Prelude.Sets.{set_of}
use night_scout.Prelude.Sort.{sort}
use night_scout.Prelude.Text.{strip}
use night_scout.Prelude.Exec.{ok}
use night_scout.Queue.Task.{Task, pending}
use night_scout.Prelude.Int.{pos}
use night_scout.Lifecycle.Model.{GateOutcome}
use night_scout.Reviews.Model.{
  ReviewCategory, ReviewSeverity, ReviewCaseState, ReviewSignal, make_signal,
  normalize_optional_text, normalize_tags, join, stable_fingerprint, requires_review, category_beq,
  ReviewCase, validate_case_state,
}
use night_scout.Reviews.Store.{
  ReviewStore, fingerprints_of, first_places, add_case, open_case_at, open_or_get, open_cases,
  same_texts, approved_for_task, case_to_resolve, resolve,
}
use night_scout.Reviews.Gate.{ReviewGate, evaluate_signals, record_evaluation, evaluate}
use night_scout.Reviews.Cases.{open_or_get-open_or_get}
use night_scout.Reviews.Passing.{is_triggering, IsCleared, evaluate-IsCleared}
use night_scout.Reviews.Settled.{open_call, resolve_call, run, resolved_once}

abbrev task : Task
task = record {
  task_id = "tsk_1";
  worker = "dns";
  action = "resolve";
  input_event_id = "evt_1";
  input_identity_key = none;
  branch_id = none;
  route_rule_id = none;
  routing_reason = none;
  status = pending;
  priority = pos 0;
  attempts = 0;
  max_attempts = 3;
  created_at = 0;
  updated_at = 0;
  available_at = 0;
  started_at = none;
  finished_at = none;
  lease_expires_at = none;
  claim_token = none;
  last_error = none;
  search_tier = none;
  candidate_limit_hint = none;
}

abbrev signal : ReviewSignal
signal = record {
  category = ReviewCategory.possible_secret;
  severity = ReviewSeverity.high;
  confidence = 800;
  summary = "token in a script";
  source_event_id = none;
  evidence_fingerprint = some "f1";
  tags = [];
}

abbrev gate : ReviewGate
gate = record {
  policy = record {
    review_categories = ReviewCategory.possible_secret ∷ [];
    minimum_confidence = 500;
    category_minimum_confidence = Dict.empty;
    minimum_severity = ReviewSeverity.medium;
  };
  recorder = none;
}

-- a digest that is one to one, for the runs
abbrev digest : String → String
digest text = text

abbrev no_reviews : ReviewStore
no_reviews = record { cases = Dict.empty; open_keys = Dict.empty }

abbrev opened : ReviewStore
opened = run digest (open_call task (signal ∷ []) "rev_1" 5) no_reviews

abbrev cleared : ReviewStore
cleared = run digest (resolve_call "rev_1" ReviewCaseState.approved (some " fine ") 8) opened

program : Unit {0}
unfolding run open_or_get add_case open_case_at stable_fingerprint set_of sort join first_places
    validate_case_state Dict.get Dict.put Dict.remove Dict.values resolve case_to_resolve
    normalize_optional_text strip evaluate evaluate_signals record_evaluation requires_review
    category_beq approved_for_task same_texts
program = tt

abbrev the_case : ReviewCase
the_case = record {
  case_id = "rev_1";
  task_id = "tsk_1";
  worker = "dns";
  action = "resolve";
  input_event_id = "evt_1";
  signal_fingerprints = "f1" ∷ [];
  categories = ReviewCategory.possible_secret ∷ [];
  summaries = "token in a script" ∷ [];
  state = ReviewCaseState.still_open;
  opened_at = 5;
  resolved_at = none;
  resolution_reason = none;
}

abbrev approval : ReviewCase
approval = record the_case {
  state = ReviewCaseState.approved;
  resolved_at = some 8;
  resolution_reason = some "fine";
}

-- the signal as it is stored
normal : make_signal signal ≡ ok signal
unfolding program make_signal normalize_tags
normal = refl

opens : open_or_get digest task (signal ∷ []) "rev_1" 5 no_reviews ≡ (ok the_case, opened)
unfolding program
opens = refl

waits : open_cases opened ≡ the_case ∷ []
unfolding program open_cases
waits = refl

approves : Dict.get cleared.cases "rev_1" ≡ some approval
unfolding program
approves = refl

-- the gate's answer once the case is approved
passes : evaluate digest gate task (signal ∷ []) "rev_2" 9 cleared ≡ (
  ok (record {
    outcome = GateOutcome.allow;
    reason = some "signals approved by human review case=rev_1";
    review_case_id = none;
    retry_after = none;
  }),
  cleared,
)
unfolding program
passes = refl

cleared-IsDistinct : Dict.IsDistinct cleared.cases
unfolding program
cleared-IsDistinct =
    IsDistinct-put (Dict.put Dict.empty "rev_1" the_case) "rev_1" approval
      (IsDistinct-put Dict.empty "rev_1" the_case (IsDistinct-empty String ReviewCase))

open_or_get-open_or_get_example :
    open_or_get digest task (signal ∷ []) "rev_2" 9 opened ≡ (ok the_case, opened)
open_or_get-open_or_get_example =
    open_or_get-open_or_get digest task (signal ∷ []) "rev_1" "rev_2" 5 9 no_reviews opened the_case
      opens

evaluate-IsCleared_example :
    (keep (is_triggering gate.policy) (signal ∷ []) ≡ [])
    ⊎ IsCleared task
        (fingerprints_of digest (keep (is_triggering gate.policy) (signal ∷ [])))
        cleared
evaluate-IsCleared_example =
    evaluate-IsCleared digest task "rev_2" 9 cleared cleared-IsDistinct gate (signal ∷ [])
      (record {
        outcome = GateOutcome.allow;
        reason = some "signals approved by human review case=rev_1";
        review_case_id = none;
        retry_after = none;
      })
      cleared passes refl

resolved_once_example :
    Dict.get
      (run digest (resolve_call "rev_1" ReviewCaseState.blocked none 10) cleared).cases
      "rev_1"
    ≡ some approval
resolved_once_example =
    resolved_once digest (resolve_call "rev_1" ReviewCaseState.blocked none 10) cleared "rev_1"
      approval tt approves refl
