-- ===== src/Budgets/Store.antt =====
-- `InMemoryBudgetStore` (recon/core/budgets.py). Each method runs under the store's lock, so a
-- method is one step. The clock is an argument.
use night_scout.Prelude.{
  ℕ, ◌+◌, ◌-◌, String, Bool, true, false, Option, none, some, List, [], ◌∷◌, leb, ltb, ◌&&◌,
  if◌then◌else◌, string_eq,
}
use night_scout.Prelude.Dict
use night_scout.Prelude.Dict.{Dict}
use night_scout.Prelude.Exec.{
  value_error, key_error, runtime_error, Result, ok, err, Exec, after, check,
}
use night_scout.Budgets.Model.{
  tolerance, BucketKey, key_eq, is_capacity, is_active, committed, released, expired, BudgetCheck,
  BudgetReservationItem, BudgetReservation, BudgetViolation, BudgetUsage, ReservationState,
}

pub record BudgetStore : Type 0 where
  pub spent : Dict BucketKey ℕ
  pub reserved : Dict BucketKey ℕ
  pub reservations : Dict String BudgetReservation

-- `self._committed.get(key, 0.0)` and `self._reserved.get(key, 0.0)`
abbrev pub spent_at : BudgetStore → BucketKey → ℕ
spent_at s key = Dict.get_or s.spent key 0

abbrev pub reserved_at : BudgetStore → BucketKey → ℕ
reserved_at s key = Dict.get_or s.reserved key 0

-- `committed + reserved + check.requested > check.effective_limit + 1e-9`
abbrev pub exceeds : BudgetStore → BudgetCheck → Bool
exceeds s check =
    ltb (check.effective_limit + tolerance)
      (spent_at s check.key + reserved_at s check.key + check.requested)

violation : BudgetStore → BudgetCheck → BudgetViolation
violation s check = record {
  key = check.key;
  committed = spent_at s check.key;
  reserved = reserved_at s check.key;
  requested = check.requested;
  configured_limit = check.configured_limit;
  effective_limit = check.effective_limit;
}

unfoldable pub violations_of : List BudgetCheck → BudgetStore → List BudgetViolation
unfolding violation
violations_of [] s = []
violations_of (check ∷ checks) s =
    let rest = violations_of checks s in if exceeds s check then violation s check ∷ rest else rest

unfoldable pub reserve_items : List BudgetReservationItem → BudgetStore → BudgetStore
reserve_items [] s = s
reserve_items (item ∷ items) s =
    reserve_items items
      (record s { reserved = Dict.put s.reserved item.key (reserved_at s item.key + item.amount) })

unfoldable pub decide_reserve :
    List BudgetViolation → BudgetReservation → Exec BudgetStore (Bool × List BudgetViolation)
decide_reserve [] reservation s = (
  ok (true, []),
  reserve_items reservation.items
      (record s { reservations = Dict.put s.reservations reservation.reservation_id reservation }),
)
decide_reserve (v ∷ violations) reservation s = (ok (false, v ∷ violations), s)

unfoldable pub try_reserve :
    BudgetReservation → List BudgetCheck → Exec BudgetStore (Bool × List BudgetViolation)
unfolding decide_reserve
try_reserve reservation checks s =
    if Dict.contains s.reservations reservation.reservation_id
    then (err value_error, s)
    else decide_reserve (violations_of checks s) reservation s

unfoldable pub active_or_raise : Option BudgetReservation → Result BudgetReservation
active_or_raise none = err key_error
active_or_raise (some r) = if is_active r.state then ok r else err value_error

-- `_require_active`
unfoldable pub require_active : BudgetStore → String → Result BudgetReservation
unfolding active_or_raise
require_active s reservation_id = active_or_raise (Dict.get s.reservations reservation_id)

-- `_subtract_reserved`: below -1e-9 is an underflow, up to 1e-9 counts as nothing
unfoldable pub subtract_reserved : BucketKey → ℕ → Exec BudgetStore (Unit {0})
subtract_reserved key amount s =
    let current = reserved_at s key in
    if ltb (current + tolerance) amount
    then (err runtime_error, s)
    else if leb current (amount + tolerance)
    then (ok tt, record s { reserved = Dict.remove s.reserved key })
    else (ok tt, record s { reserved = Dict.put s.reserved key (current - amount) })

-- `if not item.metric.is_capacity: self._committed[key] = …`
unfoldable pub charge : BudgetReservationItem → BudgetStore → BudgetStore
charge item s =
    if is_capacity item.key.metric
    then s
    else record s { spent = Dict.put s.spent item.key (spent_at s item.key + item.amount) }

-- the loop of `commit`
unfoldable pub commit_items : List BudgetReservationItem → Exec BudgetStore (Unit {0})
commit_items [] s = (ok tt, s)
commit_items (item ∷ items) s =
    after (subtract_reserved item.key item.amount s) λ _ t. commit_items items (charge item t)

-- the loop of `release` and of `reap_expired`
unfoldable pub release_items : List BudgetReservationItem → Exec BudgetStore (Unit {0})
release_items [] s = (ok tt, s)
release_items (item ∷ items) s =
    after (subtract_reserved item.key item.amount s) λ _ t. release_items items t

-- `self._reservations[reservation_id] = reservation.model_copy(update={"state": …})`
abbrev pub write_state : String → BudgetReservation → ReservationState → BudgetStore → BudgetStore
write_state id r state s = record s {
  reservations = Dict.put s.reservations id (record r { state = state });
}

unfoldable pub commit : String → Exec BudgetStore BudgetReservation
commit id s =
    check (require_active s id)
      (λ r s.
        after (commit_items r.items s)
          λ _ t. (ok (record r { state = committed }), write_state id r committed t))
      s

unfoldable pub release : String → Exec BudgetStore BudgetReservation
release id s =
    check (require_active s id)
      (λ r s.
        after (release_items r.items s)
          λ _ t. (ok (record r { state = released }), write_state id r released t))
      s

unfoldable pub renew : String → ℕ → ℕ → Exec BudgetStore BudgetReservation
renew id expires_at now s =
    check (require_active s id)
      (λ r s. if leb expires_at now then (err value_error, s) else (
        ok (record r { expires_at = expires_at }),
        record s {
          reservations = Dict.put s.reservations id (record r { expires_at = expires_at });
        },
      ))
      s

-- the test of `reap_expired`
abbrev pub is_due : ℕ → BudgetReservation → Bool
is_due now r = is_active r.state && leb r.expires_at now

unfoldable pub reap :
    List (String × BudgetReservation) → ℕ → Exec BudgetStore (List BudgetReservation)
reap [] now s = (ok [], s)
reap ((id, r) ∷ rest) now s =
    let skip = reap rest now s in
    let take_back = after (release_items r.items s) λ _ t.
      after (reap rest now (write_state id r expired t))
        λ reaped u. (ok (record r { state = expired } ∷ reaped), u) in
    if is_due now r then take_back else skip

-- `list(self._reservations.items())`
unfoldable pub reap_expired : ℕ → Exec BudgetStore (List BudgetReservation)
reap_expired now s = reap (Dict.items s.reservations) now s

unfoldable pub usage : BucketKey → BudgetStore → BudgetUsage
usage key s = record { key = key; committed = spent_at s key; reserved = reserved_at s key }
