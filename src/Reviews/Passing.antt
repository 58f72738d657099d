-- ===== src/Reviews/Passing.antt =====
-- When `ReviewGate` (recon/policy/review_gate.py) lets a task pass.
use night_scout.Prelude.{
  ℕ, String, ◌≡◌, refl, sym, subst, ap, ◌∙◌, ◌⊎◌, inl, inr, Bool, not, ◌&&◌, leb, Bool-cases, none,
  some, List, [], ◌∷◌, arith, keep, string_eq, Option-cases,
}
use night_scout.Prelude.Dict
use night_scout.Prelude.Dict.{Dict}
use night_scout.Prelude.Exec.{Result, ok, after, after-eq-ok}
use night_scout.Prelude.Sets.{member}
use night_scout.Queue.Task.{Task}
use night_scout.Lifecycle.Model.{GateOutcome, GateDecision}
use night_scout.Reviews.Model.{
  ReviewCaseState, ReviewSignal, ReviewCase, ReviewPolicy, severity_value, category_eq,
  requires_review,
}
use night_scout.Reviews.Store.{ReviewStore, fingerprints_of, open_or_get, approved_for_task}
use night_scout.Reviews.Gate.{
  ReviewEvaluation, ReviewGate, pending_review, evaluate_signals, record_evaluation, decision_of,
  evaluate,
}
use night_scout.Reviews.Cases.{approved_for_task-stored}

-- a stored case of the task that a person approved, over exactly the given fingerprints
abbrev pub IsCleared : Task → List String → ReviewStore → Type 0
IsCleared task fingerprints s =
    (id : String) × (c : ReviewCase) × (Dict.get s.cases id ≡ some c)
    × (c.task_id ≡ task.task_id)
    × (c.state ≡ ReviewCaseState.approved)
    × (c.signal_fingerprints ≡ fingerprints)

-- a signal of a category under review, severe and certain enough for the policy
abbrev pub is_triggering : ReviewPolicy → ReviewSignal → Bool
is_triggering policy signal =
    member signal.category policy.review_categories
    && leb (severity_value policy.minimum_severity) (severity_value signal.severity)
    && leb
        (elim (Dict.get policy.category_minimum_confidence signal.category) [
          | none ↦ policy.minimum_confidence
          | some threshold ↦ threshold
        ])
        signal.confidence

requires_review-is_triggering :
    (policy : ReviewPolicy) (signal : ReviewSignal)
    → requires_review policy signal ≡ is_triggering policy signal
unfolding requires_review
requires_review-is_triggering policy signal = ground arith

keep-requires_review :
    (policy : ReviewPolicy) (signals : List ReviewSignal)
    → keep (requires_review policy) signals ≡ keep (is_triggering policy) signals
keep-requires_review policy [] = refl
keep-requires_review policy (signal ∷ signals) =
    let same = requires_review-is_triggering policy signal in
    let rest = keep-requires_review policy signals in
    elim (Bool-cases (requires_review policy signal)) [
      | inl triggers ↦ rw (triggers, sym same ∙ triggers) (ap (λ l. signal ∷ l) rest)
      | inr passes ↦ rw (passes, sym same ∙ passes) rest
    ]

module _ (sha256 : String → String) (task : Task) (id : String) (now : ℕ) (s : ReviewStore)
    (u : Dict.IsDistinct s.cases) where
  signals-IsCleared :
      (triggering ignored : List ReviewSignal) (e : ReviewEvaluation) (t : ReviewStore)
      → evaluate_signals sha256 task triggering ignored id now s ≡ (ok e, t)
      → e.outcome ≡ GateOutcome.allow
      → (triggering ≡ []) ⊎ IsCleared task (fingerprints_of sha256 triggering) s
  unfolding evaluate_signals
  signals-IsCleared [] ignored e t h is = inl refl
  signals-IsCleared (signal ∷ signals) ignored e t h is =
      let fingerprints = fingerprints_of sha256 (signal ∷ signals) in
      elim (Option-cases (approved_for_task task.task_id (some fingerprints) s)) [
        | inr (c, found) ↦
            let (k, at, ours, approved, over) =
              approved_for_task-stored task.task_id fingerprints s c u found in
            inr (k, c, at, ours, approved, over)
        | inl missing ↦
            let opens = rw (missing, evaluate_signals) at h in
            let (c, d, _, same) =
              after-eq-ok (open_or_get sha256 task (signal ∷ signals) id now s)
                (λ c t. (ok (pending_review task (signal ∷ signals) ignored c), t)) e t opens in
            absurd
              (ground (arith, ap (λ (x : Result ReviewEvaluation × ReviewStore). x.0) same, is))
      ]

  -- The review gate lets a task pass only if no signal meets the thresholds of the policy (its category is
  -- under review, its severity is at least the minimum, its confidence at least the category's threshold,
  -- or the general one), or if the store has an APPROVED case of this task over exactly the fingerprints
  -- of the signals that do. No identifier may stand twice in the store.
  pub evaluate-IsCleared :
      (gate : ReviewGate) (signals : List ReviewSignal) (decision : GateDecision) (t : ReviewStore)
      → evaluate sha256 gate task signals id now s ≡ (ok decision, t)
      → decision.outcome ≡ GateOutcome.allow
      → (keep (is_triggering gate.policy) signals ≡ [])
        ⊎ IsCleared task (fingerprints_of sha256 (keep (is_triggering gate.policy) signals)) s
  unfolding evaluate
  evaluate-IsCleared gate signals decision t h is =
      let triggering = keep (requires_review gate.policy) signals in
      let ignored = keep (λ signal. not (requires_review gate.policy signal)) signals in
      let (e, d, evaluated, recorded) =
        after-eq-ok (evaluate_signals sha256 task triggering ignored id now s)
          (λ evaluation t.
            after (record_evaluation gate.recorder task evaluation t)
              λ _ u. (ok (decision_of evaluation), u))
          decision t h in
      let (_, _, _, same) =
        after-eq-ok (record_evaluation gate.recorder task e d) (λ _ u. (ok (decision_of e), u))
          decision t recorded in
      let decided : decision_of e ≡ decision =
        ground (arith, ap (λ (x : Result GateDecision × ReviewStore). x.0) same) in
      subst (λ l. (l ≡ []) ⊎ IsCleared task (fingerprints_of sha256 l) s)
        (keep-requires_review gate.policy signals)
        (signals-IsCleared triggering ignored e d evaluated
          (ap (λ (x : GateDecision). x.outcome) decided ∙ is))
