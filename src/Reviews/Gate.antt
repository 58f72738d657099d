-- ===== src/Reviews/Gate.antt =====
-- `ReviewGate` (recon/policy/review_gate.py) over the in-memory store. What the provider of signals
-- answers is an argument, and so is the recorder.
use Prim.Native.String
use night_scout.Prelude.{ℕ, String, not, Option, none, some, List, [], ◌∷◌, map, keep}
use night_scout.Prelude.Exec.{ok, Exec, after}
use night_scout.Queue.Task.{Task}
use night_scout.Lifecycle.Model.{GateOutcome, GateDecision}
use night_scout.Reviews.Model.{
  category_value, ReviewSignal, join, ReviewPolicy, requires_review, ReviewCase,
}
use night_scout.Reviews.Store.{ReviewStore, fingerprints_of, open_or_get, approved_for_task}

pub record ReviewEvaluation : Type 0 where
  pub outcome : GateOutcome
  pub task_id : String
  pub triggering_signals : List ReviewSignal
  pub ignored_signals : List ReviewSignal
  pub case_id : Option String
  pub reason : String

pub record ReviewGate : Type 0 where
  pub policy : ReviewPolicy
  pub recorder : Option (Task → ReviewEvaluation → Exec ReviewStore (Unit {0}))

-- the evaluation of signals that no approval covers, with the case that stands for them
abbrev pub pending_review :
    Task → List ReviewSignal → List ReviewSignal → ReviewCase → ReviewEvaluation
pending_review task triggering ignored c = record {
  outcome = GateOutcome.review;
  task_id = task.task_id;
  triggering_signals = triggering;
  ignored_signals = ignored;
  case_id = some c.case_id;
  reason = String.◌++◌ "human review required; case=" (
      String.◌++◌ c.case_id
        (String.◌++◌ "; categories=" (join ", " (map category_value c.categories))));
}

-- the evaluation before it is recorded
unfoldable pub evaluate_signals :
    (String → String)
    → Task
    → List ReviewSignal
    → List ReviewSignal
    → String
    → ℕ
    → Exec ReviewStore ReviewEvaluation
evaluate_signals sha256 task [] ignored id now s = (
  ok (record {
    outcome = GateOutcome.allow;
    task_id = task.task_id;
    triggering_signals = [];
    ignored_signals = ignored;
    case_id = none;
    reason = "no review signal met configured confidence/severity thresholds";
  }),
  s,
)
evaluate_signals sha256 task (signal ∷ signals) ignored id now s =
    elim (approved_for_task task.task_id (some (fingerprints_of sha256 (signal ∷ signals))) s) [
      | some approved ↦ (
        ok (record {
          outcome = GateOutcome.allow;
          task_id = task.task_id;
          triggering_signals = signal ∷ signals;
          ignored_signals = ignored;
          case_id = some approved.case_id;
          reason = String.◌++◌ "signals approved by human review case=" approved.case_id;
        }),
        s,
      )
      | none ↦
          after (open_or_get sha256 task (signal ∷ signals) id now s)
            λ c t. (ok (pending_review task (signal ∷ signals) ignored c), t)
    ]

-- `if self._recorder is not None: await self._recorder.record(…)`
unfoldable pub record_evaluation :
    Option (Task → ReviewEvaluation → Exec ReviewStore (Unit {0}))
    → Task
    → ReviewEvaluation
    → Exec ReviewStore (Unit {0})
record_evaluation none task evaluation s = (ok tt, s)
record_evaluation (some recorder) task evaluation s = recorder task evaluation s

abbrev pub decision_of : ReviewEvaluation → GateDecision
decision_of e = record {
  outcome = e.outcome;
  reason = some e.reason;
  review_case_id = elim (e.outcome) [ GateOutcome.review ↦ e.case_id | _ ↦ none ];
  retry_after = none;
}

-- `ReviewGate.evaluate`
unfoldable pub evaluate :
    (String → String)
    → ReviewGate
    → Task
    → List ReviewSignal
    → String
    → ℕ
    → Exec ReviewStore GateDecision
evaluate sha256 gate task signals id now s =
    after
      (evaluate_signals sha256 task (keep (requires_review gate.policy) signals)
        (keep (λ signal. not (requires_review gate.policy signal)) signals) id now s)
      λ evaluation t.
        after (record_evaluation gate.recorder task evaluation t)
          λ _ u. (ok (decision_of evaluation), u)
