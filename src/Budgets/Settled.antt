-- ===== src/Budgets/Settled.antt =====
-- A reservation that is over stays as it is (recon/core/budgets.py).
use night_scout.Prelude.{
  ℕ, ◌+◌, String, ◌≡◌, refl, ap, ◌∙◌, inl, inr, true, false, none, some, List, [], ◌∷◌, arith, leb,
  ltb, ◌==◌, ==_iff, string_eq, Bool-cases, Option-cases,
}
use mathlib.Core.Option
use night_scout.Prelude.Dict
use night_scout.Prelude.Dict.{Dict, get-put}
use night_scout.Prelude.Int.{ℤ, is_nonpositive, shift}
use night_scout.Prelude.Exec.{Result, ok, err, Exec, after, after-ok, after-state, Result-cases}
use night_scout.Queue.Task.{Task}
use night_scout.Budgets.Model.{
  tolerance, BucketKey, key_eq, is_capacity, is_active, committed, released, BudgetCheck,
  BudgetContext, BudgetDemand, BudgetReservationItem, BudgetReservation, BudgetViolation,
  ReservationState,
}
use night_scout.Budgets.Checks.{compile_checks}
use night_scout.Budgets.Store.{
  BudgetStore, reserved_at, subtract_reserved, charge, commit_items, release_items, commit, release,
  renew, violations_of, reserve_items, decide_reserve, try_reserve, write_state,
}
use night_scout.Budgets.Manager.{
  BudgetManager, new_reservation, is_beyond, decide, reserve_checks, reserve, renew_for, reap_now,
}
use night_scout.Budgets.Balance.{IsBalanced, require_active-ok, commit_items-balanced}
use night_scout.Budgets.Reaping.{reaped, reap_expired_lem}
use night_scout.Budgets.Runs.{
  Command, reserve_call, commit_call, release_call, renew_call, reap_call, run,
  require_active-cases,
}

-- A stored reservation stays stored, and exactly as it is once it is over.
abbrev pub Keeps : String → BudgetStore → BudgetStore → Type 0
Keeps id s t =
    (r : BudgetReservation)
    → Dict.get s.reservations id ≡ some r
    → (q : BudgetReservation) × (Dict.get t.reservations id ≡ some q)
      × (is_active r.state ≡ false → q ≡ r)

-- A reservation that is stored and over.
abbrev pub IsOver : String → BudgetStore → Type 0
IsOver id s =
    (r : BudgetReservation) × (Dict.get s.reservations id ≡ some r) × (is_active r.state ≡ false)

pub Keeps-IsOver : (id : String) (s t : BudgetStore) → Keeps id s t → IsOver id s → IsOver id t
Keeps-IsOver id s t keeps (r, at, over) =
    let (q, found, same) = keeps r at in (q, found, ap (λ p. is_active p.state) (same over) ∙ over)

pub Keeps-trans : (id : String) (s t u : BudgetStore) → Keeps id s t → Keeps id t u → Keeps id s u
Keeps-trans id s t u f g r at =
    let (q, found, same) = f r at in
    let (p, there, kept) = g q found in
    (p, there, λ over. kept (ap (λ x. is_active x.state) (same over) ∙ over) ∙ same over)

same-Keeps : (id : String) (s t : BudgetStore) → t.reservations ≡ s.reservations → Keeps id s t
same-Keeps id s t same r at = (r, ap (λ d. Dict.get d id) same ∙ at, λ over. refl)

-- a write of the reservation under `k` that was active
write-Keeps :
    (id k : String) (s t : BudgetStore) (r q : BudgetReservation)
    → Dict.get s.reservations k ≡ some r
    → is_active r.state ≡ true
    → t.reservations ≡ Dict.put s.reservations k q
    → Keeps id s t
write-Keeps id k s t r q held runs is p at = elim (Bool-cases (k == id)) [
  | inl here ↦ (
    q,
    ap (λ d. Dict.get d id) is ∙ ground (arith, get-put s.reservations k id q, here),
    λ over. absurd (ground (arith, here, ==_iff k id, held, at, runs, over)),
  )
  | inr other ↦ (
    p,
    ap (λ d. Dict.get d id) is ∙ ground (arith, get-put s.reservations k id q, other, at),
    λ over. refl,
  )
]

subtract_reserved-reservations :
    (key : BucketKey) (amount : ℕ) (s : BudgetStore)
    → (subtract_reserved key amount s).1.reservations ≡ s.reservations
unfolding subtract_reserved
subtract_reserved-reservations key amount s =
    elim (Bool-cases (ltb (reserved_at s key + tolerance) amount)) [
      | inl under ↦ rw under refl
      | inr enough ↦ elim (Bool-cases (leb (reserved_at s key) (amount + tolerance))) [
        | inl all ↦ rw (enough, all) refl
        | inr some_left ↦ rw (enough, some_left) refl
      ]
    ]

charge-reservations :
    (item : BudgetReservationItem) (s : BudgetStore) → (charge item s).reservations ≡ s.reservations
unfolding charge
charge-reservations item s = elim (Bool-cases (is_capacity item.key.metric)) [
  | inl capacity ↦ rw capacity refl
  | inr spends ↦ rw spends refl
]

after-reservations :
    {A B : Type 0} (d : Dict String BudgetReservation) (x : Result A × BudgetStore)
    (f : A → Exec BudgetStore B)
    → x.1.reservations ≡ d
    → ((a : A) (t : BudgetStore) → (f a t).1.reservations ≡ t.reservations)
    → (after x f).1.reservations ≡ d
after-reservations d (ok a, t) f h k = k a t ∙ h
after-reservations d (err e, t) f h k = h

commit_items-reservations :
    (items : List BudgetReservationItem) (s : BudgetStore)
    → (commit_items items s).1.reservations ≡ s.reservations
unfolding commit_items
commit_items-reservations [] s = refl
commit_items-reservations (item ∷ items) s =
    after-reservations s.reservations (subtract_reserved item.key item.amount s) _
      (subtract_reserved-reservations item.key item.amount s)
      (λ _ t. commit_items-reservations items (charge item t) ∙ charge-reservations item t)

release_items-reservations :
    (items : List BudgetReservationItem) (s : BudgetStore)
    → (release_items items s).1.reservations ≡ s.reservations
unfolding release_items
release_items-reservations [] s = refl
release_items-reservations (item ∷ items) s =
    after-reservations s.reservations (subtract_reserved item.key item.amount s) _
      (subtract_reserved-reservations item.key item.amount s)
      (λ _ t. release_items-reservations items t)

reserve_items-reservations :
    (items : List BudgetReservationItem) (s : BudgetStore)
    → (reserve_items items s).reservations ≡ s.reservations
unfolding reserve_items
reserve_items-reservations [] s = refl
reserve_items-reservations (item ∷ items) s = reserve_items-reservations items _

not_contains-none :
    (d : Dict String BudgetReservation) (k : String)
    → Dict.contains d k ≡ false
    → Dict.get d k ≡ none
not_contains-none d k h = elim (Option-cases (Dict.get d k)) [
  | inl missing ↦ missing
  | inr (r, found) ↦ absurd (ground (arith, found, h))
]

module _ (id : String) (s : BudgetStore) where
  -- the end of `commit` and of `release`: the reservation is written once its items are settled
  closing-Keeps :
      (k : String) (r : BudgetReservation) (state : ReservationState)
      (x : Result (Unit {0}) × BudgetStore)
      → Dict.get s.reservations k ≡ some r
      → is_active r.state ≡ true
      → x.1.reservations ≡ s.reservations
      → Keeps id s (after x λ _ t. (ok (record r { state = state }), write_state k r state t)).1
  closing-Keeps k r state (ok done, t) held runs same =
      write-Keeps id k s (write_state k r state t) r (record r { state = state }) held runs
        (ap (λ d. Dict.put d k (record r { state = state })) same)
  closing-Keeps k r state (err e, t) held runs same = same-Keeps id s t same

  commit-Keeps : (k : String) → Keeps id s (commit k s).1
  unfolding commit
  commit-Keeps k = elim (require_active-cases s k) [
    | inl (e, raises) ↦ rw raises (same-Keeps id s s refl)
    | inr (r, at, runs, found) ↦ rw found (
        closing-Keeps k r committed (commit_items r.items s) at runs
          (commit_items-reservations r.items s))
  ]

  release-Keeps : (k : String) → Keeps id s (release k s).1
  unfolding release
  release-Keeps k = elim (require_active-cases s k) [
    | inl (e, raises) ↦ rw raises (same-Keeps id s s refl)
    | inr (r, at, runs, found) ↦ rw found (
        closing-Keeps k r released (release_items r.items s) at runs
          (release_items-reservations r.items s))
  ]

  renew_for-Keeps :
      (k : String) (lease_for : ℤ) (now : ℕ) → Keeps id s (renew_for k lease_for now s).1
  unfolding renew_for renew
  renew_for-Keeps k lease_for now = elim (Bool-cases (is_nonpositive lease_for)) [
    | inl bad ↦ rw bad (same-Keeps id s s refl)
    | inr good ↦ elim (require_active-cases s k) [
      | inl (e, raises) ↦ rw (good, raises) (same-Keeps id s s refl)
      | inr (r, at, runs, found) ↦ elim (Bool-cases (leb (shift now lease_for) now)) [
        | inl past ↦ rw (good, found, past) (same-Keeps id s s refl)
        | inr future ↦
            rw (good, found, future)
              (write-Keeps id k s
                (record s {
                  reservations =
                      Dict.put s.reservations k (record r { expires_at = shift now lease_for });
                })
                r (record r { expires_at = shift now lease_for }) at runs refl)
      ]
    ]
  ]

  reap_now-Keeps : IsBalanced s → (now : ℕ) → Keeps id s (reap_now now s).1
  unfolding reap_now reaped
  reap_now-Keeps w now r at = (
    reaped now r,
    (reap_expired_lem now s id w).0 ∙ ap (Option.map (reaped now)) at,
    λ over. rw over refl,
  )

  decide_reserve-Keeps :
      (violations : List BudgetViolation) (r : BudgetReservation)
      → Dict.get s.reservations r.reservation_id ≡ none
      → Keeps id s (decide_reserve violations r s).1
  unfolding decide_reserve
  decide_reserve-Keeps [] r unused = λ p at. (
    p,
    ap (λ d. Dict.get d id)
          (reserve_items-reservations r.items
            (record s { reservations = Dict.put s.reservations r.reservation_id r }))
        ∙ ground (
          arith,
          get-put s.reservations r.reservation_id id r,
          ==_iff r.reservation_id id,
          at,
          unused,
        ),
    λ over. refl,
  )
  decide_reserve-Keeps (v ∷ violations) r unused = same-Keeps id s s refl

  try_reserve-Keeps :
      (r : BudgetReservation) (checks : List BudgetCheck) → Keeps id s (try_reserve r checks s).1
  unfolding try_reserve
  try_reserve-Keeps r checks =
      let known = Dict.contains s.reservations r.reservation_id in
      elim (Bool-cases known) [
        | inl used ↦ rw used (same-Keeps id s s refl)
        | inr new ↦ rw new (
            decide_reserve-Keeps (violations_of checks s) r
              (not_contains-none s.reservations r.reservation_id new))
      ]

  reserve_checks-Keeps :
      (retry_after : ℕ) (task : Task) (lease_for : ℤ) (new_id : String) (now : ℕ)
      (checks : List BudgetCheck)
      → Keeps id s (reserve_checks retry_after task lease_for new_id now checks s).1
  unfolding reserve_checks
  reserve_checks-Keeps retry_after task lease_for new_id now [] = same-Keeps id s s refl
  reserve_checks-Keeps retry_after task lease_for new_id now (c ∷ checks) =
      let r = new_reservation new_id task.task_id (c ∷ checks) lease_for now in
      rw (after-state (try_reserve r (c ∷ checks) s) (decide retry_after r (c ∷ checks)))
        (try_reserve-Keeps r (c ∷ checks))

  reserve-Keeps :
      (m : BudgetManager) (task : Task) (demand : BudgetDemand) (context : BudgetContext)
      (lease_for : ℤ) (new_id : String) (now : ℕ)
      → Keeps id s (reserve m task demand context lease_for new_id now s).1
  unfolding reserve
  reserve-Keeps m task demand context lease_for new_id now =
      elim (Bool-cases (is_nonpositive lease_for)) [
        | inl bad ↦ rw bad (same-Keeps id s s refl)
        | inr good ↦
            elim (Bool-cases (is_beyond context.branch_depth m.profile.hard_max_branch_depth)) [
              | inl deep ↦ rw (good, deep) (same-Keeps id s s refl)
              | inr h ↦
                  elim (Bool-cases
                    (is_beyond context.branch_depth m.profile.soft_max_branch_depth)) [
                      | inl deep ↦ rw (good, h, deep) (same-Keeps id s s refl)
                      | inr o ↦ elim (Result-cases (compile_checks m.profile task demand context)) [
                        | inr (e, conflict) ↦ rw (good, h, o, conflict) (same-Keeps id s s refl)
                        | inl (checks, compiled) ↦
                            rw (good, h, o, compiled)
                              (reserve_checks-Keeps m.capacity_retry_after task lease_for new_id now
                                checks)
                      ]
                    ]
            ]
      ]

-- Whatever call is made of a manager over a balanced store, a stored reservation stays stored, and exactly
-- as it is once it is over.
pub run-Keeps : (id : String) (s : BudgetStore) (c : Command) → IsBalanced s → Keeps id s (run c s)
unfolding run
run-Keeps id s (reserve_call m task demand context lease_for new_id now) w =
    reserve-Keeps id s m task demand context lease_for new_id now
run-Keeps id s (commit_call k) w = commit-Keeps id s k
run-Keeps id s (release_call k) w = release-Keeps id s k
run-Keeps id s (renew_call k lease_for now) w = renew_for-Keeps id s k lease_for now
run-Keeps id s (reap_call now) w = reap_now-Keeps id s w now

-- A reservation that was committed, released or expired stays exactly as it is, whatever call is made of
-- a manager over a balanced store, also under its identifier: it is never settled a second time.
pub over_stays_over :
    (id : String) (s : BudgetStore) (c : Command) (r : BudgetReservation)
    → IsBalanced s
    → Dict.get s.reservations id ≡ some r
    → is_active r.state ≡ false
    → Dict.get (run c s).reservations id ≡ some r
over_stays_over id s c r w at over =
    let (q, found, same) = run-Keeps id s c w r at in found ∙ ap some (same over)

-- After `commit` of a stored reservation in a balanced store, whether it returns or raises, the
-- reservation is over.
pub commit-IsOver :
    (id : String) (s : BudgetStore) (r : BudgetReservation)
    → IsBalanced s
    → Dict.get s.reservations id ≡ some r
    → IsOver id (commit id s).1
commit-IsOver id s r w at = elim (Bool-cases (is_active r.state)) [
  | inr over ↦ Keeps-IsOver id s (commit id s).1 (commit-Keeps id s id) (r, at, over)
  | inl runs ↦
      let t = (commit_items r.items s).1 in
      let done = (commit_items-balanced s id r committed w at runs refl).0 in
      let does : commit id s ≡ (ok (record r { state = committed }), write_state id r committed t) =
        unfold commit in
        rw (require_active-ok s id r at runs) (
          after-ok (commit_items r.items s) tt
            (λ _ u. (ok (record r { state = committed }), write_state id r committed u)) done) in
      (
        record r { state = committed },
        ap (λ x. Dict.get x.1.reservations id) does
            ∙ ground (
              arith,
              get-put t.reservations id id (record r { state = committed }),
              ==_iff id id,
            ),
        refl,
      )
]
