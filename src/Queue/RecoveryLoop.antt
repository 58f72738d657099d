-- ===== src/Queue/RecoveryLoop.antt =====
-- The loop of `recover_expired_leases` (recon/core/queue.py), task by task.
use night_scout.Prelude.{
  ℕ, String, ◌≡◌, refl, sym, ap, subst, ◌∙◌, ◌≢◌, ◌⊎◌, inl, inr, false, Option, none, some, arith,
  if◌then◌else◌, ==_iff, string_eq, ◌==◌, Bool-cases, Option-cases,
}
use night_scout.Prelude.Dict.{get-put}
use night_scout.Prelude.Int.{ℤ}
use night_scout.Prelude.Exec.{ok}
use night_scout.Queue.Task.{Task, running, is_terminal}
use night_scout.Queue.Valid.{IsValid}
use night_scout.Queue.Store.{TaskStore, task_at}
use night_scout.Queue.Finish.{recover_one, expired_lease}
use night_scout.Queue.Invariant.{WellFormed}
use night_scout.Queue.Edits.{recover_edit-Evolves}
use night_scout.Queue.Writes.{overwritten, save_Evolves}
use night_scout.Queue.History.{Steps, write, here, then_step}
use night_scout.Queue.Recovery.{
  recovered, recovered-id, recovered-stops, settled, recover_edit_lem, recover_one_cases, IsCurrent,
}

module _ (delay : ℤ) (now : ℕ) where
  abbrev pub IsSettled : TaskStore → Task → Type 0
  IsSettled s t = task_at s t.task_id ≡ some (settled t delay now)

  -- the loop has not come to the task, or it is done with it
  abbrev pub IsPending : TaskStore → Task → Type 0
  IsPending s t = (task_at s t.task_id ≡ some t) ⊎ IsSettled s t

  -- What a round on `t` does: nothing where `t` is settled, else it settles `t` and no other task.
  pub record Round (s s' : TaskStore) (t : Task) : Type 0 where
    pub steps : Steps s s'
    pub moves :
        ((k : String) → task_at s' k ≡ task_at s k) × IsSettled s t
        ⊎ (t.status ≡ running)
          × (task_at s t.task_id ≡ some t)
          × (settled t delay now ≡ recovered t delay now)
          × ((k : String)
              → task_at s' k
                ≡ (if t.task_id == k then some (recovered t delay now) else task_at s k))

  settled_kept : (t : Task) → expired_lease t now ≡ none → settled t delay now ≡ t
  unfolding settled expired_lease
  settled_kept t free = ground (arith, free)

  settled_lost :
      (t : Task) (l : ℕ)
      → expired_lease t now ≡ some l
      → settled t delay now ≡ recovered t delay now
  unfolding settled expired_lease
  settled_lost t l over = ground (arith, over)

  settled_cases :
      (t : Task) → (settled t delay now ≡ t) ⊎ (settled t delay now ≡ recovered t delay now)
  unfolding settled
  settled_cases t = elim (Option-cases (expired_lease t now)) [
    | inl free ↦ inl (settled_kept t free)
    | inr (l, over) ↦ inr (settled_lost t l over)
  ]

  current : (s : TaskStore) (t : Task) → IsPending s t → IsCurrent s t
  current s t (inl at) = inl at
  current s t (inr at) = elim (settled_cases t) [
    | inl same ↦ inl (cc (at, same))
    | inr lost ↦ inr (recovered t delay now, cc (at, lost), recovered-stops t delay now)
  ]

  IsSettled-again :
      (s : TaskStore) (t : Task) → IsPending s t → task_at s t.task_id ≢ some t → IsSettled s t
  IsSettled-again s t (inl at) moved = absurd (moved at)
  IsSettled-again s t (inr at) moved = at

  IsSettled-free :
      (s : TaskStore) (t : Task) → IsPending s t → expired_lease t now ≡ none → IsSettled s t
  IsSettled-free s t (inl at) free = cc (at, settled_kept t free)
  IsSettled-free s t (inr at) free = at

  lost_run-Steps :
      (s : TaskStore) (t : Task)
      → WellFormed s
      → IsValid t
      → task_at s t.task_id ≡ some t
      → t.status ≡ running
      → Steps s (overwritten s t (recovered t delay now))
  lost_run-Steps s t w v at runs =
      let u = recovered t delay now in
      let live : is_terminal t ≡ false = rw runs in
      let e = recover_edit-Evolves t u v live delay now (recover_edit_lem t delay now v runs) in
      let at' : task_at s u.task_id ≡ some t = cc (at, e.id) in
      then_step here (write t u at' e (save_Evolves s t u at' e))

  overwritten-at :
      (s : TaskStore) (t : Task) (k : String)
      → task_at (overwritten s t (recovered t delay now)) k
        ≡ (if t.task_id == k then some (recovered t delay now) else task_at s k)
  overwritten-at s t k =
      subst
        (λ id.
          task_at (overwritten s t (recovered t delay now)) k
          ≡ (if id == k then some (recovered t delay now) else task_at s k))
        (recovered-id t delay now)
        (get-put s.tasks (recovered t delay now).task_id k (recovered t delay now))

  pub round :
      (s : TaskStore) (t : Task)
      → WellFormed s
      → IsValid t
      → IsPending s t
      → (r : Option Task) × ((recover_one t delay now s).0 ≡ ok r)
        × Round s (recover_one t delay now s).1 t
  round s t w v pending = elim (recover_one_cases t delay now s w v (current s t pending)) [
    | inl (free, same) ↦ (
      none,
      rw same,
      rw same (record { steps = here; moves = inl ((λ k. refl), IsSettled-free s t pending free) }),
    )
    | inr (inl (moved, same)) ↦ (
      none,
      rw same,
      rw same
          (record { steps = here; moves = inl ((λ k. refl), IsSettled-again s t pending moved) }),
    )
    | inr (inr (runs, (l, over), at, done)) ↦ (
      some (recovered t delay now),
      rw done,
      rw done (record {
        steps = lost_run-Steps s t w v at runs;
        moves = inr (runs, at, settled_lost t l over, overwritten-at s t);
      }),
    )
  ]

  module _ {s s' : TaskStore} {t : Task} (r : Round s s' t) (u : Task) where
    -- the case of one identifier: `u` is the task that the round settles
    settles_same :
        t.status ≡ running
        → task_at s t.task_id ≡ some t
        → t.task_id ≡ u.task_id
        → IsPending s u
        → u ≡ t
    settles_same runs at same (inl here_u) = cc
    settles_same runs at same (inr done) = elim (settled_cases u) [
      | inl kept ↦ cc
      | inr lost ↦
          let e : recovered u delay now ≡ t = cc in
          absurd (recovered-stops u delay now (ap (λ (x : Task). x.status) e ∙ runs))
    ]

    pub Round-IsPending : IsPending s u → IsPending s' u
    Round-IsPending pending = elim r.moves [
      | inl (same, done) ↦
          subst (λ o. (o ≡ some u) ⊎ (o ≡ some (settled u delay now))) (sym (same u.task_id))
            pending
      | inr (runs, at, lost, upd) ↦ elim (Bool-cases (t.task_id == u.task_id)) [
        | inl same ↦
            let e = settles_same runs at ((==_iff t.task_id u.task_id).0 same) pending in
            inr (ground (arith, upd u.task_id, lost, ap (λ x. settled x delay now) e))
        | inr other ↦
            subst (λ o. (o ≡ some u) ⊎ (o ≡ some (settled u delay now)))
              (sym (rw other at (upd u.task_id))) pending
      ]
    ]

    pub Round-IsSettled : IsSettled s u → IsSettled s' u
    Round-IsSettled done = elim r.moves [
      | inl (same, _) ↦ cc (same u.task_id)
      | inr (runs, at, lost, upd) ↦ elim (Bool-cases (t.task_id == u.task_id)) [
        | inl same ↦
            let e = settles_same runs at ((==_iff t.task_id u.task_id).0 same) (inr done) in
            ground (arith, upd u.task_id, lost, ap (λ x. settled x delay now) e)
        | inr other ↦ ground (arith, upd u.task_id)
      ]
    ]

  pub Round-settles : {s s' : TaskStore} {t : Task} → Round s s' t → IsSettled s' t
  Round-settles {s} {s'} {t} r = elim r.moves [
    | inl (same, done) ↦ cc (same t.task_id)
    | inr (runs, at, lost, upd) ↦ ground (arith, upd t.task_id, lost, ==_iff t.task_id t.task_id)
  ]

  pub Round-none :
      {s s' : TaskStore} {t : Task}
      → Round s s' t
      → (k : String) → task_at s k ≡ none
      → task_at s' k ≡ none
  Round-none {t = t} r k absent = elim r.moves [
    | inl (same, _) ↦ cc (same k)
    | inr (runs, at, lost, upd) ↦ ground (arith, upd k, ==_iff t.task_id k)
  ]
