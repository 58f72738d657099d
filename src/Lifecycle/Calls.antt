-- ===== src/Lifecycle/Calls.antt =====
-- The lifecycle touches the queue and the budgets only by the calls of TaskQueue and BudgetManager
-- (recon/core/lifecycle.py).
use night_scout.Prelude.{ℕ, String, ◌≡◌, refl, Bool, true, false, some, All, if◌then◌else◌}
use night_scout.Prelude.Exec.{
  key_error, value_error, runtime_error, assertion_error, Result, ok, err, Exec, after, check,
}
use night_scout.Queue.Task.{Task}
use night_scout.Queue.Runs as queue_runs
use night_scout.Budgets.Model.{BucketKey}
use night_scout.Budgets.Checks.{raw_checks}
use night_scout.Budgets.Spending.{IsBounded}
use night_scout.Budgets.Runs as budget_runs
use night_scout.Scheduler.Batch.{ScheduleDecision}
use night_scout.Lifecycle.Model.{
  BudgetPlan, Core, except_transition, ExecutionGate, LifecycleReviewCoordinator,
  LifecycleAttemptObserver, Lifecycle, LifecycleResult,
}

module _ (limit : BucketKey → ℕ) where
  -- The states that calls of the queue and of a budget manager lead to, in any order.
  pub data Calls (c : Core) : Core → Type 0 where
    no_call : Calls c c
    queue_call :
        {d : Core}
        → Calls c d
        → (k : queue_runs.Command) → queue_runs.IsAdmissible d.queue k
        → Calls c (record d { queue = queue_runs.run k d.queue })
    budget_call :
        {d : Core}
        → Calls c d
        → (k : budget_runs.Command) → budget_runs.IsAdmissible limit k
        → Calls c (record d { budgets = budget_runs.run k d.budgets })

  pub Calls-trans : {c d e : Core} → Calls c d → Calls d e → Calls c e
  Calls-trans f no_call = f
  Calls-trans f (queue_call g k a) = queue_call (Calls-trans f g) k a
  Calls-trans f (budget_call g k a) = budget_call (Calls-trans f g) k a

  -- a method that only makes calls
  abbrev pub OnlyCalls : {A : Type 0} → Exec Core A → Type 0
  OnlyCalls m = (c : Core) → Calls c (m c).1

  pub after-Calls :
      {A B : Type 0} (c : Core) (x : Result A × Core) (f : A → Exec Core B)
      → Calls c x.1
      → ((a : A) → OnlyCalls (f a))
      → Calls c (after x f).1
  after-Calls c (ok a, d) f h k = Calls-trans h (k a d)
  after-Calls c (err e, d) f h k = h

  -- the same, where the rest meets only what the call returned
  pub after-answer-Calls :
      {A B : Type 0} (c : Core) (x : Result A × Core) (f : A → Exec Core B)
      → Calls c x.1
      → ((a : A) (d : Core) → x ≡ (ok a, d) → Calls d (f a d).1)
      → Calls c (after x f).1
  after-answer-Calls c (ok a, d) f h k = Calls-trans h (k a d refl)
  after-answer-Calls c (err e, d) f h k = h

  pub check-Calls :
      {A B : Type 0} (c : Core) (m : Result A) (f : A → Exec Core B)
      → ((a : A) → OnlyCalls (f a))
      → Calls c (check m f c).1
  check-Calls c (ok a) f k = k a c
  check-Calls c (err e) f k = no_call

  pub except-Calls :
      {A B : Type 0} (c : Core) (x : Result A × Core) (f : A → Exec Core B) (g : Exec Core B)
      → Calls c x.1
      → ((a : A) → OnlyCalls (f a))
      → OnlyCalls g
      → Calls c (except_transition x f g).1
  except-Calls c (ok a, d) f g h k m = Calls-trans h (k a d)
  except-Calls c (err key_error, d) f g h k m = Calls-trans h (m d)
  except-Calls c (err value_error, d) f g h k m = Calls-trans h (m d)
  except-Calls c (err runtime_error, d) f g h k m = h
  except-Calls c (err assertion_error, d) f g h k m = h

  pub if-Calls :
      {A : Type 0} (c : Core) (b : Bool) (x y : Result A × Core)
      → Calls c x.1
      → Calls c y.1
      → Calls c (if b then x else y).1
  if-Calls c true x y h k = h
  if-Calls c false x y h k = k

  -- What is given to a lifecycle acts on the queue and the budgets by their calls, and each check that a
  -- plan compiles has its limit.
  pub record IsPolite (l : Lifecycle) : Type 0 where
    pub gates_call :
        All
          (λ (gate : ExecutionGate).
            (task : Task) (schedule : ScheduleDecision) → OnlyCalls (gate.evaluate task schedule))
          l.gates
    pub reviews_call :
        (reviews : LifecycleReviewCoordinator)
        → l.review_coordinator ≡ some reviews
        → ((task : Task) (name reason : String) → OnlyCalls (reviews.approved_for task name reason))
          × ((task : Task) (name reason : String) → OnlyCalls (reviews.open_case task name reason))
    pub observer_starts :
        (observer : LifecycleAttemptObserver)
        → l.attempt_observer ≡ some observer
        → (task : Task) (schedule : ScheduleDecision) → OnlyCalls (observer.start task schedule)
    pub observer_finishes :
        (observer : LifecycleAttemptObserver)
        → l.attempt_observer ≡ some observer
        → (id : String) (result : LifecycleResult) → OnlyCalls (observer.finish id result)
    pub planner_calls :
        (task : Task) (schedule : ScheduleDecision) → OnlyCalls (l.budget_planner task schedule)
    pub bounded :
        (task : Task) (schedule : ScheduleDecision) (c d : Core) (plan : BudgetPlan)
        → l.budget_planner task schedule c ≡ (ok plan, d)
        → All (IsBounded limit) (raw_checks l.budgets.profile task plan.demand plan.context)
