-- ===== src/Lifecycle/Passing.antt =====
-- What an admission with a ticket went through (recon/core/lifecycle.py).
use night_scout.Prelude.{
  ℕ, String, ◌≡◌, refl, subst, ◌≢◌, ◌∙◌, inl, inr, ◌⊎◌, true, Option, none, some, List, [], ◌∷◌,
  arith, Bool-cases, Option-cases,
}
use night_scout.Prelude.Exec.{Result, ok, err, Exec, after, after-eq-ok}
use night_scout.Queue.Task.{Task}
use night_scout.Queue.Ops.{defer}
use night_scout.Queue.Finish.{block, send_to_review}
use night_scout.Scheduler.Batch.{ScheduleDecision}
use night_scout.Lifecycle.Model.{
  GateOutcome, GateDecision, LifecycleResult, Core, on_queue, ExecutionGate,
  LifecycleReviewCoordinator, or_default, delay_of,
}
use night_scout.Lifecycle.Gates.{
  case_reason, send_case, ask_reviewers, obey, unless_stopped, apply_gates,
}

-- The gates that let a task pass one after the other, from one state to another: each answers ALLOW, or
-- asks for a review that was approved.
pub data Passed (reviews : Option LifecycleReviewCoordinator) (task : Task)
    (schedule : ScheduleDecision) : List ExecutionGate → Core → Core → Type 0 where
  no_more : {c : Core} → Passed reviews task schedule [] c c
  allows :
      {gates : List ExecutionGate} {c d e : Core}
      → (gate : ExecutionGate) (decision : GateDecision)
      → gate.evaluate task schedule c ≡ (ok decision, d)
      → decision.outcome ≡ GateOutcome.allow
      → Passed reviews task schedule gates d e
      → Passed reviews task schedule (gate ∷ gates) c e
  was_approved :
      {gates : List ExecutionGate} {c d e f : Core}
      → (gate : ExecutionGate) (decision : GateDecision) (coordinator : LifecycleReviewCoordinator)
      → gate.evaluate task schedule c ≡ (ok decision, d)
      → decision.outcome ≡ GateOutcome.review
      → reviews ≡ some coordinator
      → coordinator.approved_for task gate.name
          (or_default decision.reason "manual review required")
          d
        ≡ (ok true, e)
      → Passed reviews task schedule gates e f
      → Passed reviews task schedule (gate ∷ gates) c f

-- A method whose rest never gives an answer does not give it.
pub after-never :
    {A B : Type 0} (x : Result A × Core) (f : A → Exec Core B) (out : B) (d : Core)
    → ((a : A) (c : Core) → f a c ≢ (ok out, d))
    → after x f ≢ (ok out, d)
after-never (ok a, c) f out d never h = never a c h
after-never (err e, c) f out d never h = ground (arith, h)

-- an answer beside the state it leaves
abbrev pub answer : {A : Type 0} → A → Core → Result A × Core
answer a c = (ok a, c)

pub answer-injective :
    {A : Type 0} (a b : A) (c d : Core) → answer a c ≡ answer b d → (a ≡ b) × (c ≡ d)
answer-injective a b c d h = ground (arith, h)

-- A result that ends the admission is none to go on.
stopped : (r : LifecycleResult) (c d : Core) → answer (some r) c ≢ answer none d
stopped r c d h = ground (arith, h)

module _ (task : Task) (schedule : ScheduleDecision) (now : ℕ) where
  send_case-stops :
      (reason : String) (case_id : Option String) (c d : Core)
      → send_case task schedule reason case_id now c ≢ (ok none, d)
  unfolding send_case
  send_case-stops reason case_id c d =
      after-never (on_queue (send_to_review task.task_id (case_reason reason case_id) now) c) _ none
        d (λ t e. stopped _ e d)

  ask_reviewers-passes :
      (reviews : Option LifecycleReviewCoordinator) (name reason : String) (c d : Core)
      → ask_reviewers reviews name task schedule reason now c ≡ (ok none, d)
      → (coordinator : LifecycleReviewCoordinator) × (reviews ≡ some coordinator)
        × (coordinator.approved_for task name reason c ≡ (ok true, d))
  unfolding ask_reviewers
  ask_reviewers-passes none name reason c d h = absurd (send_case-stops reason none c d h)
  ask_reviewers-passes (some coordinator) name reason c d h =
      let (approved, e, asked, more) =
        after-eq-ok (coordinator.approved_for task name reason c) _ none d h in
      elim (Bool-cases approved) [
        | inl yea ↦
            let is : answer none e ≡ answer none d = rw yea at more in
            (coordinator, refl, asked ∙ (rw (yea, (answer-injective none none e d is).1) refl))
        | inr nay ↦
            let is = rw nay at more in
            absurd (
              after-never (coordinator.open_case task name reason e) _ none d
                (λ case_id g. send_case-stops reason (some case_id) g d) is)
      ]

  -- what a decision that lets the task go on was
  abbrev LetsPass : Option LifecycleReviewCoordinator → String → GateDecision → Core → Core → Type 0
  LetsPass reviews name decision c d =
      (decision.outcome ≡ GateOutcome.allow) × (c ≡ d)
      ⊎ (decision.outcome ≡ GateOutcome.review)
        × ((coordinator : LifecycleReviewCoordinator) × (reviews ≡ some coordinator)
            × (coordinator.approved_for task name
                  (or_default decision.reason "manual review required") c
                ≡ (ok true, d)))

  obey-LetsPass :
      (reviews : Option LifecycleReviewCoordinator) (name : String) (outcome : GateOutcome)
      (decision : GateDecision) (c d : Core)
      → decision.outcome ≡ outcome
      → obey reviews name task schedule now decision c ≡ (ok none, d)
      → LetsPass reviews name decision c d
  unfolding obey
  obey-LetsPass reviews name GateOutcome.allow decision c d is h =
      let same : answer none c ≡ answer none d = rw is at h in
      inl (is, (answer-injective none none c d same).1)
  obey-LetsPass reviews name GateOutcome.defer decision c d is h = absurd (
      after-never
        (on_queue
          (defer task.task_id (delay_of decision.retry_after)
            (some (or_default decision.reason "execution gate deferred task")) now)
          c)
        _ none d (λ t e. stopped _ e d) (rw is at h))
  obey-LetsPass reviews name GateOutcome.block decision c d is h = absurd (
      after-never
        (on_queue
          (block task.task_id (or_default decision.reason "execution gate blocked task") now) c)
        _ none d (λ t e. stopped _ e d) (rw is at h))
  obey-LetsPass reviews name GateOutcome.review decision c d is h =
      let reason = or_default decision.reason "manual review required" in
      elim (Option-cases (decision.review_case_id)) [
        | inl no_case ↦
            inr (is, ask_reviewers-passes reviews name reason c d (rw (is, no_case) at h))
        | inr (case_id, given) ↦
            absurd (send_case-stops reason (some case_id) c d (rw (is, given) at h))
      ]

  by_answer :
      (reviews : Option LifecycleReviewCoordinator) (gate : ExecutionGate)
      (gates : List ExecutionGate) (decision : GateDecision) (c d f e : Core)
      (o : Option LifecycleResult)
      → gate.evaluate task schedule c ≡ (ok decision, d)
      → obey reviews gate.name task schedule now decision d ≡ (ok o, f)
      → unless_stopped (apply_gates reviews gates task schedule now) o f ≡ (ok none, e)
      → (apply_gates reviews gates task schedule now f ≡ (ok none, e)
          → Passed reviews task schedule gates f e)
      → Passed reviews task schedule (gate ∷ gates) c e
  unfolding unless_stopped
  by_answer reviews gate gates decision c d f e (some r) evaluated obeyed h ih =
      absurd (stopped r f e h)
  by_answer reviews gate gates decision c d f e none evaluated obeyed h ih =
      elim (obey-LetsPass reviews gate.name decision.outcome decision d f refl obeyed) [
        | inl (is, same) ↦
            allows gate decision
              (subst (λ x. gate.evaluate task schedule c ≡ (ok decision, x)) same evaluated) is
              (ih h)
        | inr (is, (coordinator, given, approves)) ↦
            was_approved gate decision coordinator evaluated is given approves (ih h)
      ]

  -- Gates that let a task go on were passed one after the other.
  pub apply_gates-Passed :
      (reviews : Option LifecycleReviewCoordinator) (gates : List ExecutionGate) (c e : Core)
      → apply_gates reviews gates task schedule now c ≡ (ok none, e)
      → Passed reviews task schedule gates c e
  unfolding apply_gates
  apply_gates-Passed reviews [] c e h =
      subst (Passed reviews task schedule [] c) (answer-injective none none c e h).1 no_more
  apply_gates-Passed reviews (gate ∷ gates) c e h =
      let (decision, d, evaluated, h1) = after-eq-ok (gate.evaluate task schedule c) _ none e h in
      let (o, f, obeyed, h2) =
        after-eq-ok (obey reviews gate.name task schedule now decision d)
          (unless_stopped (apply_gates reviews gates task schedule now)) none e h1 in
      by_answer reviews gate gates decision c d f e o evaluated obeyed h2
        (λ more. apply_gates-Passed reviews gates f e more)
