-- ===== src/Budgets/Reaping.antt =====
-- `reap_expired` (recon/core/budgets.py).
use mathlib.Core.Option
use night_scout.Prelude.{
  ◌&&◌, leb, ℕ, ◌+◌, String, ◌≡◌, refl, sym, ap, subst, ◌∙◌, inl, inr, true, false, some, List, [],
  ◌∷◌, ◌==◌, ==_iff, arith, All, if◌then◌else◌, string_eq, Bool-cases,
}
use night_scout.Prelude.Dict
use night_scout.Prelude.Dict.{Dict, get-put, get-empty, values-All, IsDistinct-put}
use night_scout.Prelude.Dict.Totals.{item_keys, items_lem, get-absent}
use night_scout.Prelude.Sets.{member, NoRepeat}
use night_scout.Prelude.Exec.{ok, after, after-ok, after-state}
use night_scout.Budgets.Model.{BucketKey, key_eq, is_active, expired, BudgetReservation}
use night_scout.Budgets.Store.{
  BudgetStore, spent_at, reserved_at, is_due, reap, reap_expired, release_items, write_state,
}
use night_scout.Budgets.Balance.{IsBalanced, release_items-balanced, given_back, closed-IsBalanced}
use night_scout.Budgets.Spending.{IsSound}

-- what is left of the snapshot that `reap_expired` walks through is still stored
abbrev pub IsSnapshot : List (String × BudgetReservation) → BudgetStore → Type 0
IsSnapshot l s = All (λ p. Dict.get s.reservations p.0 ≡ some p.1) l × NoRepeat (item_keys l)

still_stored :
    (s u : BudgetStore) (id : String) (q : BudgetReservation)
    → u.reservations ≡ Dict.put s.reservations id q
    → (l : List (String × BudgetReservation)) → member id (item_keys l) ≡ false
    → All (λ p. Dict.get s.reservations p.0 ≡ some p.1) l
    → All (λ p. Dict.get u.reservations p.0 ≡ some p.1) l
still_stored s u id q is [] new h = tt
still_stored s u id q is ((k, r) ∷ l) new h = (
  ap (λ d. Dict.get d k) is ∙ ground (arith, get-put s.reservations id k q, new, h.0),
  still_stored s u id q is l (ground (arith, new)) h.1,
)

-- what reaping makes of a reservation
unfoldable pub reaped : ℕ → BudgetReservation → BudgetReservation
reaped now r = if is_active r.state && leb r.expires_at now then record r { state = expired } else r

-- the store after a round of the loop that takes a reservation back
taken_back : String → BudgetReservation → BudgetStore → BudgetStore
taken_back id r s = write_state id r expired (release_items r.items s).1

module _ (limit : BucketKey → ℕ) (now : ℕ) (id : String) (r : BudgetReservation)
    (l : List (String × BudgetReservation)) (s : BudgetStore) (h : IsSnapshot ((id, r) ∷ l) s)
    (w : IsSound limit s) (due : is_due now r ≡ true) where
  due_runs : is_active r.state ≡ true
  due_runs = ground (arith, due)

  taken_back-reservations :
      (taken_back id r s).reservations ≡ Dict.put s.reservations id (record r { state = expired })
  unfolding taken_back
  taken_back-reservations =
      ap (λ d. Dict.put d id (record r { state = expired }))
        (release_items-balanced s id r expired w.0 h.0.0 due_runs refl).1.1

  taken_back-IsSound : IsSound limit (taken_back id r s)
  unfolding taken_back
  taken_back-IsSound =
      let (done, left, spends) = release_items-balanced s id r expired w.0 h.0.0 due_runs refl in
      let t = (release_items r.items s).1 in
      (
        closed-IsBalanced s id r expired w.0 h.0.0 due_runs refl t left,
        λ k. omega (
          arith,
          w.1 k,
          given_back s id r expired w.0 h.0.0 due_runs refl t left k,
          ap (λ d. Dict.get_or d k 0) spends,
        ),
      )

  taken_back-IsSnapshot : IsSnapshot l (taken_back id r s)
  taken_back-IsSnapshot = (
    still_stored s (taken_back id r s) id (record r { state = expired }) taken_back-reservations l
        h.1.0 h.0.1,
    h.1.1,
  )

  -- the loop goes on behind the round
  reap-due :
      reap ((id, r) ∷ l) now s
      ≡ after
          (reap l now (taken_back id r s))
          (λ reaped v. (ok (record r { state = expired } ∷ reaped), v))
  unfolding reap taken_back
  reap-due = rw due (
      after-ok (release_items r.items s) tt
        (λ _ t.
          after (reap l now (write_state id r expired t))
            λ reaped v. (ok (record r { state = expired } ∷ reaped), v))
        (release_items-balanced s id r expired w.0 h.0.0 due_runs refl).0)

head_key :
    (id : String) (r : BudgetReservation) (l : List (String × BudgetReservation)) (s : BudgetStore)
    → IsSnapshot ((id, r) ∷ l) s
    → (k : String) → k ≡ id
    → (member k (item_keys l) ≡ false) × (Dict.get s.reservations k ≡ some r)
head_key id r l s h k is = (
  subst (λ j. member j (item_keys l) ≡ false) (sym is) h.1.0,
  subst (λ j. Dict.get s.reservations j ≡ some r) (sym is) h.0.0,
)

reap-early :
    (now : ℕ) (id : String) (r : BudgetReservation) (l : List (String × BudgetReservation))
    (s : BudgetStore)
    → is_due now r ≡ false
    → reap ((id, r) ∷ l) now s ≡ reap l now s
unfolding reap
reap-early now id r l s early = rw early refl

module _ (limit : BucketKey → ℕ) (now : ℕ) where
  pub reap-IsSound :
      (l : List (String × BudgetReservation)) (s : BudgetStore)
      → IsSnapshot l s
      → IsSound limit s
      → ((rs : List BudgetReservation) × ((reap l now s).0 ≡ ok rs))
        × IsSound limit (reap l now s).1
  unfolding reap
  reap-IsSound [] s h w = (([], refl), w)
  reap-IsSound ((id, r) ∷ l) s h w = elim (Bool-cases (is_due now r)) [
    | inr early ↦ rw (reap-early now id r l s early) (reap-IsSound l s (h.0.1, h.1.1) w)
    | inl due ↦
        let ((rs, found), w2) =
          reap-IsSound l (taken_back id r s) (taken_back-IsSnapshot limit now id r l s h w due)
            (taken_back-IsSound limit now id r l s h w due) in
        rw (reap-due limit now id r l s h w due) (
          rw
            (after-ok (reap l now (taken_back id r s)) rs
              (λ reaped v. (ok (record r { state = expired } ∷ reaped), v)) found)
            ((record r { state = expired } ∷ rs, refl), w2))
  ]

  reap-get :
      (l : List (String × BudgetReservation)) (s : BudgetStore)
      → IsSnapshot l s
      → IsSound limit s
      → (k : String)
      → Dict.get (reap l now s).1.reservations k ≡ (
          if member k (item_keys l)
          then Option.map (reaped now) (Dict.get s.reservations k)
          else Dict.get s.reservations k)
  unfolding reap
  reap-get [] s h w k = refl
  reap-get ((id, r) ∷ l) s h w k = elim (Bool-cases (is_due now r)) [
    | inr early ↦
        let kept : reaped now r ≡ r = unfold reaped in rw early refl in
        let ih = reap-get l s (h.0.1, h.1.1) w k in
        rw (reap-early now id r l s early) (
          ih ∙ (elim (Bool-cases (k == id)) [
            | inl same ↦
                let (fresh, at) = head_key id r l s h k ((==_iff k id).0 same) in
                ground (arith, same, fresh, at, kept)
            | inr other ↦ ground (arith, other)
          ]))
    | inl due ↦
        let changed : reaped now r ≡ record r { state = expired } = unfold reaped in rw due refl in
        let ih =
          reap-get l (taken_back id r s) (taken_back-IsSnapshot limit now id r l s h w due)
            (taken_back-IsSound limit now id r l s h w due) k in
        let u_at = ap (λ d. Dict.get d k) (taken_back-reservations limit now id r l s h w due) in
        rw (reap-due limit now id r l s h w due) (
          ap (λ (x : BudgetStore). Dict.get x.reservations k)
            (after-state (reap l now (taken_back id r s))
              (λ reaped. record r { state = expired } ∷ reaped))
          ∙ ih
          ∙ (elim (Bool-cases (k == id)) [
            | inl same ↦
                let (fresh, at) = head_key id r l s h k ((==_iff k id).0 same) in
                ground (
                  arith,
                  same,
                  fresh,
                  at,
                  changed,
                  u_at,
                  get-put s.reservations id k (record r { state = expired }),
                  ==_iff id k,
                  ==_iff k id,
                )
            | inr other ↦ ground (
              arith,
              other,
              u_at,
              get-put s.reservations id k (record r { state = expired }),
              ==_iff id k,
              ==_iff k id,
            )
          ]))
  ]

-- In a balanced store, `reap_expired` returns and makes of each reservation what `reaped` says: one that is
-- active and over by `now` is EXPIRED, any other is as it was.
pub reap_expired_lem :
    (now : ℕ) (s : BudgetStore) (k : String)
    → IsBalanced s
    → (Dict.get (reap_expired now s).1.reservations k
        ≡ Option.map (reaped now) (Dict.get s.reservations k))
      × ((rs : List BudgetReservation) × ((reap_expired now s).0 ≡ ok rs))
unfolding reap_expired
reap_expired_lem now s k w =
    let l = Dict.items s.reservations in
    let snapshot = items_lem s.reservations w.distinct in
    -- a limit that any store is within
    let total_limit = λ (j : BucketKey). spent_at s j + reserved_at s j in
    let sound : IsSound total_limit s = (w, λ j. omega arith) in
    (
      reap-get total_limit now l s snapshot sound k ∙ (elim (Bool-cases (member k (item_keys l))) [
        | inl listed ↦ ground (arith, listed)
        | inr unlisted ↦ ground (arith, unlisted, get-absent s.reservations k unlisted)
      ]),
      (reap-IsSound total_limit now l s snapshot sound).0,
    )
