-- ===== src/Lifecycle/Admitted.antt =====
-- An admission hands out a ticket only behind every gate and the budget (recon/core/lifecycle.py).
use night_scout.Prelude.{
  String, ◌≡◌, refl, subst, ◌≢◌, ap, ◌∙◌, sym, inl, inr, ◌⊎◌, true, Option, none, some, arith,
  Bool-cases, Option-cases,
}
use night_scout.Prelude.Exec.{
  after-eq-ok, Error, key_error, value_error, runtime_error, assertion_error, Result, ok, err, Exec,
  check,
}
use night_scout.Queue.Task.{Task, running, is_some, status_beq, status_beq_iff, is_runnable_status}
use night_scout.Queue.Store.{task_at}
use night_scout.Queue.Ops.{defer, claim_next}
use night_scout.Queue.Finish.{block}
use night_scout.Budgets.Model.{BudgetDecision, BudgetOutcome}
use night_scout.Budgets.Manager.{reserve}
use night_scout.Scheduler.Batch.{ScheduleDecision}
use night_scout.Lifecycle.Model.{
  LifecycleResult, DispatchTicket, require_claim, Core, on_queue, on_budgets, delay_of, or_default,
  except_transition, LifecycleAttemptObserver, Lifecycle, BudgetPlan,
}
use night_scout.Lifecycle.Gates.{apply_gates}
use night_scout.Lifecycle.Admit.{
  Readings, start_attempt, complete, give_back, ticket, ended, end_with, claim_failed,
  claim_reserved, reserved_id, obey_budget, reserve_passed, after_gates, admit_found, admit,
}
use night_scout.Lifecycle.Passing.{
  after-never, answer, answer-injective, Passed, apply_gates-Passed,
}

-- Inversion of a call with an `except (KeyError, ValueError)` behind it.
pub except-eq-ok :
    {A B : Type 0} (x : Result A × Core) (f : A → Exec Core B) (g : Exec Core B) (out : B)
    (d : Core)
    → except_transition x f g ≡ (ok out, d)
    → ((a : A) × (c : Core) × (x ≡ (ok a, c)) × (f a c ≡ (ok out, d)))
      ⊎ ((e : Error) × (c : Core) × (x ≡ (err e, c)) × (g c ≡ (ok out, d)))
except-eq-ok (ok a, c) f g out d h = inl (a, c, refl, h)
except-eq-ok (err key_error, c) f g out d h = inr (key_error, c, refl, h)
except-eq-ok (err value_error, c) f g out d h = inr (value_error, c, refl, h)
except-eq-ok (err runtime_error, c) f g out d h = absurd (ground (arith, h))
except-eq-ok (err assertion_error, c) f g out d h = absurd (ground (arith, h))

-- How a ticket came about: the task was stored and could run; every gate let it pass; the planner made a
-- plan, the budget allowed it, and its reservation is on the ticket; the attempt was started; and the
-- queue claimed the task, which now runs under a claim token.
pub record IsAdmitted (l : Lifecycle) (schedule : ScheduleDecision) (r : Readings) (c : Core)
    (t : DispatchTicket) (d : Core) : Type 0 where
  pub task : Task
  pub at : task_at c.queue schedule.task_id ≡ some task
  pub runnable : is_runnable_status task.status ≡ true
  pub behind_gates : Core
  pub passed : Passed l.review_coordinator task schedule l.gates c behind_gates
  pub plan : BudgetPlan
  pub behind_plan : Core
  pub planned : l.budget_planner task schedule behind_gates ≡ (ok plan, behind_plan)
  pub budget : BudgetDecision
  pub reserved : Core
  pub allowed :
      on_budgets
        (reserve l.budgets task plan.demand plan.context l.task_lease_for r.new_reservation_id
          r.reserve_now)
        behind_plan
      ≡ (ok budget, reserved)
  pub allows : budget.outcome ≡ BudgetOutcome.allow
  pub holds : t.reservation_id ≡ reserved_id budget.reservation
  pub started : Core
  pub starts : start_attempt l.attempt_observer task schedule reserved ≡ (ok t.attempt_id, started)
  pub claimed :
      on_queue (claim_next task.task_id l.task_lease_for r.claim_now r.new_claim_token) started
      ≡ (ok t.task, d)
  pub runs : t.task.status ≡ running
  pub fenced : is_some t.task.claim_token ≡ true
  pub scheduled : t.schedule ≡ schedule

-- A ticket is none of the results that end an admission.
no_ticket :
    (r : LifecycleResult) (t : DispatchTicket) (c d : Core)
    → answer (ended r) c ≢ answer (ticket t) d
no_ticket r t c d h = ground (arith, h)

end_with-stops :
    (observer : Option LifecycleAttemptObserver) (attempt_id : Option String) (r : LifecycleResult)
    (t : DispatchTicket) (c d : Core)
    → end_with observer attempt_id r c ≢ (ok (ticket t), d)
unfolding end_with
end_with-stops observer attempt_id r t c d =
    after-never (complete observer attempt_id r c) _ (ticket t) d (λ q e. no_ticket q t e d)

require_claim-eq-ok :
    (a b : DispatchTicket)
    → require_claim a ≡ ok b
    → (a ≡ b) × (a.task.status ≡ running) × (is_some a.task.claim_token ≡ true)
unfolding require_claim
require_claim-eq-ok a b h = elim (Bool-cases (status_beq a.task.status running)) [
  | inr idle ↦ absurd (ground (arith, h, idle))
  | inl runs ↦ elim (Bool-cases (is_some a.task.claim_token)) [
    | inr bare ↦ absurd (ground (arith, h, runs, bare))
    | inl fenced ↦
        (ground (arith, h, runs, fenced), (status_beq_iff a.task.status running).0 runs, fenced)
  ]
]

check-eq-ok :
    {A B : Type 0} (m : Result A) (f : A → Exec Core B) (out : B) (c d : Core)
    → check m f c ≡ (ok out, d)
    → (a : A) × (m ≡ ok a) × (f a c ≡ (ok out, d))
check-eq-ok (ok a) f out c d h = (a, refl, h)
check-eq-ok (err e) f out c d h = absurd (ground (arith, h))

module _ (l : Lifecycle) (task : Task) (schedule : ScheduleDecision) (r : Readings)
    (t : DispatchTicket) (d : Core) where
  -- the part of `IsAdmitted` behind the reservation
  record IsClaimed (reservation_id : Option String) (reserved : Core) : Type 0 where
    pub holds : t.reservation_id ≡ reservation_id
    pub started : Core
    pub starts :
        start_attempt l.attempt_observer task schedule reserved ≡ (ok t.attempt_id, started)
    pub claimed :
        on_queue (claim_next task.task_id l.task_lease_for r.claim_now r.new_claim_token) started
        ≡ (ok t.task, d)
    pub runs : t.task.status ≡ running
    pub fenced : is_some t.task.claim_token ≡ true
    pub scheduled : t.schedule ≡ schedule

  claim_failed-stops :
      (reservation_id attempt_id : Option String) (c : Core)
      → claim_failed l.attempt_observer task schedule reservation_id attempt_id c
        ≢ (ok (ticket t), d)
  unfolding claim_failed
  claim_failed-stops reservation_id attempt_id c =
      after-never (give_back reservation_id c) _ (ticket t) d
        (λ _ e. end_with-stops l.attempt_observer attempt_id _ t e d)

  claim_reserved-IsClaimed :
      (reservation_id : Option String) (c : Core)
      → claim_reserved l task schedule r reservation_id c ≡ (ok (ticket t), d)
      → IsClaimed reservation_id c
  unfolding claim_reserved
  claim_reserved-IsClaimed reservation_id c h =
      let (attempt_id, e, starts, h1) =
        after-eq-ok (start_attempt l.attempt_observer task schedule c) _ (ticket t) d h in
      elim (except-eq-ok
        (on_queue (claim_next task.task_id l.task_lease_for r.claim_now r.new_claim_token) e) _ _
        (ticket t) d h1) [
          | inr (x, f, raised, h2) ↦ absurd (claim_failed-stops reservation_id attempt_id f h2)
          | inl (claimed, f, claims, h2) ↦
              let made : DispatchTicket = record {
                task = claimed;
                schedule = schedule;
                reservation_id = reservation_id;
                attempt_id = attempt_id;
              } in
              let (b, ok_claim, h3) = check-eq-ok (require_claim made) _ (ticket t) f d h2 in
              let (same, runs, fenced) = require_claim-eq-ok made b ok_claim in
              let (is_b, is_d) = answer-injective (ticket b) (ticket t) f d h3 in
              let is : made ≡ t = same ∙ ground (arith, is_b) in
              record {
                holds = ap (λ (q : DispatchTicket). q.reservation_id) (sym is);
                started = e;
                starts = starts ∙ ap (λ (q : DispatchTicket). answer q.attempt_id e) is;
                claimed =
                    claims
                    ∙ ap (λ (q : DispatchTicket). answer q.task f) is
                    ∙ ap (answer t.task) is_d;
                runs = subst (λ (q : DispatchTicket). q.task.status ≡ running) is runs;
                fenced =
                    subst (λ (q : DispatchTicket). is_some q.task.claim_token ≡ true) is fenced;
                scheduled = ap (λ (q : DispatchTicket). q.schedule) (sym is);
              }
        ]

  obey_budget-IsClaimed :
      (budget : BudgetDecision) (outcome : BudgetOutcome) (c : Core)
      → budget.outcome ≡ outcome
      → obey_budget l task schedule r budget c ≡ (ok (ticket t), d)
      → (budget.outcome ≡ BudgetOutcome.allow) × IsClaimed (reserved_id budget.reservation) c
  unfolding obey_budget
  obey_budget-IsClaimed budget BudgetOutcome.allow c is h =
      (is, claim_reserved-IsClaimed (reserved_id budget.reservation) c (rw is at h))
  obey_budget-IsClaimed budget BudgetOutcome.defer c is h = absurd (
      after-never
        (on_queue
          (defer task.task_id (delay_of budget.retry_after_seconds)
            (some (or_default budget.reason "budget deferred")) r.defer_now)
          c)
        _ (ticket t) d (λ u e. no_ticket _ t e d) (rw is at h))
  obey_budget-IsClaimed budget BudgetOutcome.deny c is h = absurd (
      after-never (start_attempt l.attempt_observer task schedule c) _ (ticket t) d
        (λ attempt_id e.
          after-never
            (on_queue
              (block task.task_id (or_default budget.reason "hard budget denied execution")
                r.defer_now)
              e)
            _ (ticket t) d (λ u f. end_with-stops l.attempt_observer attempt_id _ t f d))
        (rw is at h))

  after_gates-passes :
      (o : Option LifecycleResult) (c : Core)
      → after_gates l task schedule r o c ≡ (ok (ticket t), d)
      → (o ≡ none) × (reserve_passed l task schedule r c ≡ (ok (ticket t), d))
  unfolding after_gates
  after_gates-passes none c h = (refl, h)
  after_gates-passes (some result) c h = absurd (
      after-never (start_attempt l.attempt_observer task schedule c) _ (ticket t) d
        (λ attempt_id e. end_with-stops l.attempt_observer attempt_id result t e d) h)

  Passed-IsAdmitted :
      (c e : Core)
      → task_at c.queue schedule.task_id ≡ some task
      → is_runnable_status task.status ≡ true
      → Passed l.review_coordinator task schedule l.gates c e
      → reserve_passed l task schedule r e ≡ (ok (ticket t), d)
      → IsAdmitted l schedule r c t d
  unfolding reserve_passed
  Passed-IsAdmitted c e at runnable passed h =
      let (plan, f, planned, h1) =
        after-eq-ok (l.budget_planner task schedule e) _ (ticket t) d h in
      let (budget, g, allowed, h2) =
        after-eq-ok
          (on_budgets
            (reserve l.budgets task plan.demand plan.context l.task_lease_for r.new_reservation_id
              r.reserve_now)
            f)
          (obey_budget l task schedule r) (ticket t) d h1 in
      let (allows, w) = obey_budget-IsClaimed budget budget.outcome g refl h2 in
      record {
        task = task;
        at = at;
        runnable = runnable;
        behind_gates = e;
        passed = passed;
        plan = plan;
        behind_plan = f;
        planned = planned;
        budget = budget;
        reserved = g;
        allowed = allowed;
        allows = allows;
        holds = w.holds;
        started = w.started;
        starts = w.starts;
        claimed = w.claimed;
        runs = w.runs;
        fenced = w.fenced;
        scheduled = w.scheduled;
      }

  admit_found-IsAdmitted :
      (c : Core)
      → task_at c.queue schedule.task_id ≡ some task
      → admit_found l schedule r (some task) c ≡ (ok (ticket t), d)
      → IsAdmitted l schedule r c t d
  unfolding admit_found
  admit_found-IsAdmitted c at h = elim (Bool-cases (is_runnable_status task.status)) [
    | inr idle ↦ let ends = rw idle at h in absurd (no_ticket _ t c d ends)
    | inl runnable ↦
        let goes = rw runnable at h in
        let (o, e, gated, h1) =
          after-eq-ok (apply_gates l.review_coordinator l.gates task schedule r.gate_now c)
            (after_gates l task schedule r) (ticket t) d goes in
        let (is, h2) = after_gates-passes o e h1 in
        let open_way = gated ∙ ap (λ x. answer x e) is in
        Passed-IsAdmitted c e at runnable
          (apply_gates-Passed task schedule r.gate_now l.review_coordinator l.gates c e open_way) h2
  ]

-- An admission hands out a ticket only if the task was stored and could run, every gate in turn answered
-- ALLOW or asked for a review that was approved, the planner's plan was then allowed by the budget,
-- whose reservation is on the ticket, the attempt was started, and the queue claimed the task last:
-- it is RUNNING under a claim token.
pub admit-IsAdmitted :
    (l : Lifecycle) (schedule : ScheduleDecision) (r : Readings) (c : Core) (t : DispatchTicket)
    (d : Core)
    → admit l schedule r c ≡ (ok (ticket t), d)
    → IsAdmitted l schedule r c t d
unfolding admit admit_found
admit-IsAdmitted l schedule r c t d h = elim (Option-cases (task_at c.queue schedule.task_id)) [
  | inl missing ↦ let ends = rw missing at h in absurd (no_ticket _ t c d ends)
  | inr (task, at) ↦ admit_found-IsAdmitted l task schedule r t d c at (rw at at h)
]
