-- ===== src/Queue/History.antt =====
-- Histories of the task queue (recon/core/queue.py): every change that the methods make is a
-- sequence of insertions and of writes that evolve one task.
use night_scout.Prelude.{
  String, ◌≡◌, sym, ap, subst, ◌⊎◌, inl, inr, true, false, some, arith, ◌==◌, ==_iff, string_eq,
  Bool-cases,
}
use night_scout.Prelude.Dict
use night_scout.Queue.Task.{Task, is_terminal, is_runnable_status, dedupe_key}
use night_scout.Queue.Valid.{IsValid}
use night_scout.Queue.Store.{TaskStore, task_at}
use night_scout.Queue.Invariant.{WellFormed, Evolves, Replaced, replaced-WellFormed}
use night_scout.Queue.Writes.{Inserted}

pub data Step (s s' : TaskStore) : Type 0 where
  write : (p u : Task) → task_at s u.task_id ≡ some p → Evolves p u → Replaced s u s' → Step s s'
  insert : (u : Task) → IsValid u → is_runnable_status u.status ≡ true → Inserted s u s' → Step s s'

pub data Steps (s : TaskStore) : TaskStore → Type 0 where
  here : Steps s s
  then_step : {t u : TaskStore} → Steps s t → Step t u → Steps s u

pub Steps-trans : {s t u : TaskStore} → Steps s t → Steps t u → Steps s u
Steps-trans a here = a
Steps-trans a (then_step b c) = then_step (Steps-trans a b) c

module _ {s s' : TaskStore} (w : WellFormed s) (u : Task) (v : IsValid u)
    (runnable : is_runnable_status u.status ≡ true) (i : Inserted s u s') where
  unclaimed_key : (k : String) → Dict.get s.active_keys (dedupe_key u) ≡ some k → ⊥
  unclaimed_key k h =
      let (t, a, b, c) = w.held (dedupe_key u) k h in
      ground (arith, w.known k t a, i.unknown, ap (Dict.get s.known_keys) b)

  new_or_old :
      (k : String) (t : Task)
      → task_at s' k ≡ some t
      → (k ≡ u.task_id) × (t ≡ u) ⊎ (task_at s k ≡ some t) × ((u.task_id == k) ≡ false)
  new_or_old k t h = ground (arith, i.tasks k, ==_iff u.task_id k)

  inserted-held :
      (d k : String)
      → Dict.get s'.active_keys d ≡ some k
      → (t : Task) × (task_at s' k ≡ some t) × (dedupe_key t ≡ d) × (is_terminal t ≡ false)
  inserted-held d k h = elim (Bool-cases (dedupe_key u == d)) [
    | inl same ↦ (
      u,
      ground (arith, i.active_keys d, i.tasks k, ==_iff u.task_id k),
      (==_iff (dedupe_key u) d).0 same,
      ground arith,
    )
    | inr other ↦
        let (t, a, b, c) = w.held d k (ground (arith, i.active_keys d)) in
        (t, ground (arith, i.tasks k, ==_iff u.task_id k, i.unused), b, c)
  ]

  inserted-WellFormed : WellFormed s'
  inserted-WellFormed = record {
    distinct = i.distinct w.distinct;
    ids = λ k t h. elim (new_or_old k t h) [ inl (a, b) ↦ cc | inr (a, b) ↦ w.ids k t a ];
    valid = λ k t h. elim (new_or_old k t h) [
      | inl (a, b) ↦ subst IsValid (sym b) v
      | inr (a, b) ↦ w.valid k t a
    ];
    leased = λ k t h. elim (new_or_old k t h) [
      | inl (a, b) ↦ ground arith
      | inr (a, b) ↦ w.leased k t a
    ];
    active = λ k t h live. elim (new_or_old k t h) [
      | inl (a, b) ↦
          ground (arith, i.active_keys (dedupe_key t), ==_iff (dedupe_key u) (dedupe_key t))
      | inr (a, b) ↦ ground (
        arith,
        i.active_keys (dedupe_key t),
        ==_iff (dedupe_key u) (dedupe_key t),
        w.active k t a live,
        w.known k t a,
        i.unknown,
      )
    ];
    held = inserted-held;
    known = λ k t h. elim (new_or_old k t h) [
      | inl (a, b) ↦
          ground (arith, i.known_keys (dedupe_key t), ==_iff (dedupe_key u) (dedupe_key t))
      | inr (a, b) ↦ ground (
        arith,
        i.known_keys (dedupe_key t),
        ==_iff (dedupe_key u) (dedupe_key t),
        w.known k t a,
        i.unknown,
      )
    ];
  }

pub Step-WellFormed : {s t : TaskStore} → Step s t → WellFormed s → WellFormed t
Step-WellFormed (write p u at e r) w = replaced-WellFormed w at e r
Step-WellFormed (insert u v runnable i) w = inserted-WellFormed w u v runnable i

pub Steps-WellFormed : {s t : TaskStore} → Steps s t → WellFormed s → WellFormed t
Steps-WellFormed here w = w
Steps-WellFormed (then_step a b) w = Step-WellFormed b (Steps-WellFormed a w)
