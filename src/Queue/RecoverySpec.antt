-- ===== src/Queue/RecoverySpec.antt =====
-- `recover_expired_leases` (recon/core/queue.py) as a whole: the store after it, key by key.
use mathlib.Core.Option
use night_scout.Prelude.{
  ℕ, String, ◌≡◌, refl, sym, subst, ◌∙◌, inl, inr, false, Option, none, some, List, [], ◌∷◌, All,
  All-map, Bool-cases, Option-cases, string_eq,
}
use night_scout.Prelude.Dict.{All-values, values-All}
use night_scout.Prelude.Int.{ℤ, is_negative}
use night_scout.Prelude.Exec.{Result, ok, after-ok}
use night_scout.Queue.Task.{Task}
use night_scout.Queue.Valid.{IsValid}
use night_scout.Queue.Store.{TaskStore, task_at, all}
use night_scout.Queue.Finish.{recover_expired_leases, recover_all, recover_one, with_recovered}
use night_scout.Queue.Invariant.{WellFormed}
use night_scout.Queue.History.{Steps, here, Steps-trans, Steps-WellFormed}
use night_scout.Queue.Recovery.{settled}
use night_scout.Queue.RecoveryLoop.{
  IsSettled, IsPending, Round, round, Round-IsPending, Round-IsSettled, Round-settles, Round-none,
}

module _ (delay : ℤ) (now : ℕ) where
  -- The loop returns, settles each task of its list, keeps what is settled, and makes no task.
  record Loop (ts : List Task) (s : TaskStore) (x : Result (List Task) × TaskStore) : Type 0 where
    returned : List Task
    returns : x.0 ≡ ok returned
    steps : Steps s x.1
    settles : All (IsSettled delay now x.1) ts
    keeps : (u : Task) → IsSettled delay now s u → IsSettled delay now x.1 u
    makes_none : (k : String) → task_at s k ≡ none → task_at x.1 k ≡ none

  Loop-cons :
      (t : Task) (ts : List Task) (s : TaskStore) (r : Option Task)
      → (recover_one t delay now s).0 ≡ ok r
      → Round delay now s (recover_one t delay now s).1 t
      → Loop ts
          (recover_one t delay now s).1
          (recover_all ts delay now (recover_one t delay now s).1)
      → Loop (t ∷ ts) s (recover_all (t ∷ ts) delay now s)
  unfolding recover_all
  Loop-cons t ts s r e m l =
      subst (Loop (t ∷ ts) s)
        (sym (
          after-ok (recover_one t delay now s) r _ e
          ∙ after-ok (recover_all ts delay now (recover_one t delay now s).1) l.returned _
              l.returns))
        (record {
          returned = with_recovered r l.returned;
          returns = refl;
          steps = Steps-trans m.steps l.steps;
          settles = (l.keeps t (Round-settles delay now m), l.settles);
          keeps = λ u h. l.keeps u (Round-IsSettled delay now m u h);
          makes_none = λ k h. l.makes_none k (Round-none delay now m k h);
        })

  loop :
      (ts : List Task) (s : TaskStore)
      → WellFormed s
      → All IsValid ts
      → All (IsPending delay now s) ts
      → Loop ts s (recover_all ts delay now s)
  loop [] s w v p =
      unfold recover_all in
      record {
        returned = [];
        returns = refl;
        steps = here;
        settles = tt;
        keeps = λ u h. h;
        makes_none = λ k h. h;
      }
  loop (t ∷ ts) s w v p =
      let (r, e, m) = round delay now s t w v.0 p.0 in
      Loop-cons t ts s r e m (
        loop ts _ (Steps-WellFormed m.steps w) v.1
          (All-map ts (λ u h. Round-IsPending delay now m u h) p.1))

  whole-Loop : (s : TaskStore) → WellFormed s → Loop (all s) s (recover_all (all s) delay now s)
  whole-Loop s w =
      loop (all s) s w (All-values IsValid s.tasks w.distinct (λ k t at. w.valid k t at)) (
        All-values (IsPending delay now s) s.tasks w.distinct
          (λ k t at. inl (subst (λ j. task_at s j ≡ some t) (sym (w.ids k t at)) at)))

  pub recover-Steps :
      (s : TaskStore) → WellFormed s → Steps s (recover_expired_leases delay now s).1
  unfolding recover_expired_leases
  recover-Steps s w = elim (Bool-cases (is_negative delay)) [
    | inl bad ↦ rw bad here
    | inr good ↦ rw good (Loop.steps (whole-Loop s w))
  ]

  -- In a well-formed store, recovery with a delay that is not negative returns, and makes of every
  -- task what `settled` says: a running task whose lease is over is deferred or failed, every other
  -- task is as it was.
  pub recover_lem :
      (s : TaskStore) (k : String)
      → WellFormed s
      → is_negative delay ≡ false
      → (task_at (recover_expired_leases delay now s).1 k
          ≡ Option.map (λ t. settled t delay now) (task_at s k))
        × ((ts : List Task) × ((recover_expired_leases delay now s).0 ≡ ok ts))
  unfolding recover_expired_leases
  recover_lem s k w good =
      let l = whole-Loop s w in
      (
        rw good (elim (Option-cases (task_at s k)) [
          | inl absent ↦ rw absent (l.makes_none k absent)
          | inr (t, at) ↦ rw at (
              subst
                (λ j. task_at (recover_all (all s) delay now s).1 j ≡ some (settled t delay now))
                (w.ids k t at)
                (values-All (IsSettled delay now (recover_all (all s) delay now s).1) s.tasks
                  l.settles k t at))
        ]),
        (l.returned, rw good l.returns),
      )
