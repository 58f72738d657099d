-- ===== src/Queue/Invariant.antt =====
-- The invariant of the task store, and what one write to the store may do to a task.
use night_scout.Prelude.{
  ◌+◌, String, ◌≡◌, sym, ap, subst, ◌≢◌, ◌⊎◌, inl, inr, true, false, none, some, arith, ◌==◌,
  ==_iff, string_eq, if◌then◌else◌, Bool-cases,
}
use night_scout.Prelude.Dict
use night_scout.Prelude.Dict.{get-empty}
use night_scout.Queue.Task.{running, Task, is_some, is_terminal, is_runnable_status, dedupe_key}
use night_scout.Queue.Valid.{IsValid}
use night_scout.Queue.Store.{TaskStore, task_at}

-- a RUNNING task holds a lease, so that recovery can find it
abbrev pub IsLeased : Task → Type 0
IsLeased t = t.status ≡ running → is_some t.lease_expires_at ≡ true

pub record WellFormed (s : TaskStore) : Type 0 where
  pub distinct : Dict.IsDistinct s.tasks
  -- tasks stand under their own identifiers
  pub ids : (k : String) (t : Task) → task_at s k ≡ some t → t.task_id ≡ k
  pub valid : (k : String) (t : Task) → task_at s k ≡ some t → IsValid t
  pub leased : (k : String) (t : Task) → task_at s k ≡ some t → IsLeased t
  -- an unfinished task holds its deduplication key
  pub active :
      (k : String) (t : Task)
      → task_at s k ≡ some t
      → is_terminal t ≡ false
      → Dict.get s.active_keys (dedupe_key t) ≡ some k
  -- and nothing else holds one
  pub held :
      (d k : String)
      → Dict.get s.active_keys d ≡ some k
      → (t : Task) × (task_at s k ≡ some t) × (dedupe_key t ≡ d) × (is_terminal t ≡ false)
  -- each key that was ever used is known, with the one task that it stands for
  pub known :
      (k : String) (t : Task) → task_at s k ≡ some t → Dict.get s.known_keys (dedupe_key t) ≡ some k

-- What a write may make of the task `p`: it goes on with the same work; either it is claimed, or it
-- runs on under the claim that it had, or it does not run.
pub record Evolves (p u : Task) : Type 0 where
  pub id : u.task_id ≡ p.task_id
  pub key : dedupe_key u ≡ dedupe_key p
  pub limit : u.max_attempts ≡ p.max_attempts
  pub live : is_terminal p ≡ false
  pub valid : IsValid u
  pub leased : IsLeased u
  pub attempt :
      (u.attempts ≡ p.attempts)
        × (u.status ≡ running → (p.status ≡ running) × (u.claim_token ≡ p.claim_token))
      ⊎ (u.attempts ≡ p.attempts + 1) × (is_runnable_status p.status ≡ true) × (u.status ≡ running)

-- The store `s'` is `s` with the task `u` written over its former value.
pub record Replaced (s : TaskStore) (u : Task) (s' : TaskStore) : Type 0 where
  pub distinct : Dict.IsDistinct s.tasks → Dict.IsDistinct s'.tasks
  pub tasks : (k : String) → task_at s' k ≡ (if u.task_id == k then some u else task_at s k)
  pub active_keys :
      (d : String)
      → Dict.get s'.active_keys d ≡ (
          if dedupe_key u == d
          then (if is_terminal u then none else some u.task_id)
          else Dict.get s.active_keys d)
  pub known_keys : (d : String) → Dict.get s'.known_keys d ≡ Dict.get s.known_keys d

module _ {s s' : TaskStore} {p u : Task} (w : WellFormed s) (at : task_at s u.task_id ≡ some p)
    (e : Evolves p u) (r : Replaced s u s') where
  new_or_old :
      (k : String) (t : Task)
      → task_at s' k ≡ some t
      → (k ≡ u.task_id) × (t ≡ u) ⊎ (k ≢ u.task_id) × (task_at s k ≡ some t)
  new_or_old k t h = ground (arith, r.tasks k, ==_iff u.task_id k)

  replaced-active :
      (k : String) (t : Task)
      → task_at s' k ≡ some t
      → is_terminal t ≡ false
      → Dict.get s'.active_keys (dedupe_key t) ≡ some k
  replaced-active k t h live = elim (new_or_old k t h) [
    | inl (a, b) ↦
        ground (arith, r.active_keys (dedupe_key t), ==_iff (dedupe_key u) (dedupe_key t))
    | inr (a, b) ↦ ground (
      arith,
      r.active_keys (dedupe_key t),
      ==_iff (dedupe_key u) (dedupe_key t),
      w.active k t b live,
      w.active u.task_id p at e.live,
      e.key,
    )
  ]

  replaced-held :
      (d k : String)
      → Dict.get s'.active_keys d ≡ some k
      → (t : Task) × (task_at s' k ≡ some t) × (dedupe_key t ≡ d) × (is_terminal t ≡ false)
  replaced-held d k h = elim (Bool-cases (dedupe_key u == d)) [
    | inl same ↦ (
      u,
      ground (arith, r.active_keys d, r.tasks k, ==_iff u.task_id k),
      (==_iff (dedupe_key u) d).0 same,
      ground (arith, r.active_keys d),
    )
    | inr other ↦
        let (t, a, b, c) = w.held d k (ground (arith, r.active_keys d)) in
        (t, ground (arith, r.tasks k, ==_iff u.task_id k, ==_iff (dedupe_key u) d, e.key, at), b, c)
  ]

  pub replaced-WellFormed : WellFormed s'
  replaced-WellFormed = record {
    distinct = r.distinct w.distinct;
    ids = λ k t h. elim (new_or_old k t h) [ inl (a, b) ↦ cc | inr (a, b) ↦ w.ids k t b ];
    valid = λ k t h. elim (new_or_old k t h) [
      | inl (a, b) ↦ subst IsValid (sym b) e.valid
      | inr (a, b) ↦ w.valid k t b
    ];
    leased = λ k t h. elim (new_or_old k t h) [
      | inl (a, b) ↦ subst IsLeased (sym b) e.leased
      | inr (a, b) ↦ w.leased k t b
    ];
    active = replaced-active;
    held = replaced-held;
    known = λ k t h. elim (new_or_old k t h) [
      | inl (a, b) ↦
          cc (r.known_keys (dedupe_key t), w.known u.task_id p at, e.key, ap dedupe_key b)
      | inr (a, b) ↦ cc (r.known_keys (dedupe_key t), w.known k t b)
    ];
  }
