-- ===== src/Queue/Recovery.antt =====
-- `recover_expired_leases` (recon/core/queue.py): what the loop does to the store.
use mathlib.Core.Path.{subst₂}
use night_scout.Prelude.{
  ℕ, ◌≤◌, String, ◌≡◌, refl, sym, subst, ◌∙◌, ◌≢◌, ◌⊎◌, inl, inr, false, Option, none, some, arith,
  Bool-cases, Option-cases, ltb, leb, if◌then◌else◌, ==_iff, option_eq, string_eq, nat_eq, ◌&&◌,
}
use night_scout.Prelude.Int.{ℤ, shift}
use night_scout.Prelude.Exec.{value_error, Result, ok, err}
use night_scout.Queue.Task.{
  running, deferred, failed, Task, is_terminal, status_beq_iff, status_beq,
}
use night_scout.Queue.Validate.{validate_lifecycle}
use night_scout.Queue.Valid.{IsValid, validate-unclaimed}
use night_scout.Queue.Store.{TaskStore, task_at, save, lease_changed}
use night_scout.Queue.Finish.{recover_one, recover_one_lease, caught, recover_edit, expired_lease}
use night_scout.Queue.Invariant.{WellFormed}
use night_scout.Queue.Edits.{recover_edit-Evolves}
use night_scout.Queue.Writes.{save_success, overwritten}

-- A lost run: a deferred task while attempts remain, a failed one otherwise.
unfoldable pub recovered : Task → ℤ → ℕ → Task
recovered t delay now =
    let lost = record t {
      lease_expires_at = none;
      claim_token = none;
      updated_at = now;
      last_error = some "worker lease expired";
    } in
    if ltb t.attempts t.max_attempts
    then record lost {
      status = deferred;
      started_at = none;
      available_at = shift now delay;
      finished_at = none;
    }
    else record lost { status = failed; finished_at = some now }

pub recovered-id : (t : Task) (delay : ℤ) (now : ℕ) → (recovered t delay now).task_id ≡ t.task_id
unfolding recovered
recovered-id t delay now = ground arith

-- what recovery makes of a task
unfoldable pub settled : Task → ℤ → ℕ → Task
settled t delay now = elim t.lease_expires_at [
  | none ↦ t
  | some lease ↦ if leb lease now && status_beq t.status running then recovered t delay now else t
]

pub recovered-stops : (t : Task) (delay : ℤ) (now : ℕ) → (recovered t delay now).status ≢ running
unfolding recovered
recovered-stops t delay now = ground arith

-- The edit of a running task never raises.
pub recover_edit_lem :
    (t : Task) (delay : ℤ) (now : ℕ)
    → IsValid t
    → t.status ≡ running
    → recover_edit t delay now ≡ ok (recovered t delay now)
unfolding recover_edit recovered
recover_edit_lem t delay now v runs = elim (Bool-cases (ltb t.attempts t.max_attempts)) [
  | inl more ↦ rw more (
      validate-unclaimed _ v.normal refl ∙ unfold validate_lifecycle in ground (arith, v.lifecycle))
  | inr over ↦ rw over (
      validate-unclaimed _ v.normal refl ∙ unfold validate_lifecycle in ground (arith, v.lifecycle))
]

-- Nothing happened to the task since the snapshot, or it does not run any more.
abbrev pub IsCurrent : TaskStore → Task → Type 0
IsCurrent s t =
    (task_at s t.task_id ≡ some t)
    ⊎ ((p : Task) × (task_at s t.task_id ≡ some p) × (p.status ≢ running))

-- the tests of the loop
abbrev pub IsExpired : ℕ → Task → Type 0
IsExpired now t = (expired_lease t now ≡ none) → ⊥

expired_lease_cases :
    (t : Task) (now : ℕ)
    → (expired_lease t now ≡ none)
      ⊎ ((lease : ℕ) × (expired_lease t now ≡ some lease)
          × (t.status ≡ running)
          × (t.lease_expires_at ≡ some lease)
          × (lease ≤ now))
unfolding expired_lease
expired_lease_cases t now = elim (Option-cases t.lease_expires_at) [
  | inl free ↦ inl (rw free)
  | inr (lease, e) ↦ elim (Bool-cases (status_beq t.status running && leb lease now)) [
    | inl over ↦
        inr
          (lease, ground arith, (status_beq_iff t.status running).0 (ground arith), e, ground arith)
    | inr other ↦ inl (rw e (rw other))
  ]
]

running_has_token :
    (t : Task) → IsValid t → t.status ≡ running → (token : String) × (t.claim_token ≡ some token)
running_has_token t v runs = elim (Option-cases t.claim_token) [
  | inr found ↦ found
  | inl missing ↦ absurd (unfold validate_lifecycle in ground (arith, v.lifecycle))
]

save_stopped :
    (s : TaskStore) (p u : Task) (token : Option String) (lease : Option ℕ)
    → task_at s u.task_id ≡ some p
    → p.status ≢ running
    → save u running token lease s ≡ (err value_error, s)
unfolding save
save_stopped s p u token lease at stopped = elim (Bool-cases (status_beq p.status running)) [
  | inl runs ↦ absurd (stopped ((status_beq_iff p.status running).0 runs))
  | inr idle ↦ rw at (rw idle)
]

module _ (t : Task) (delay : ℤ) (now : ℕ) (s : TaskStore) (w : WellFormed s) (v : IsValid t) where
  save_lost :
      (lease : ℕ) (token : String)
      → task_at s t.task_id ≡ some t
      → t.status ≡ running
      → t.lease_expires_at ≡ some lease
      → t.claim_token ≡ some token
      → save (recovered t delay now) running (some token) (some lease) s
        ≡ (ok (recovered t delay now), overwritten s t (recovered t delay now))
  save_lost lease token at runs leased owned =
      let u = recovered t delay now in
      let live : is_terminal t ≡ false = rw runs in
      let e = recover_edit-Evolves t u v live delay now (recover_edit_lem t delay now v runs) in
      let saved =
        save_success s t u (some lease) w (cc (at, e.id)) e
          (unfold lease_changed in rw leased (rw ((==_iff (some lease) (some lease)).1 refl))) in
      subst (λ st. save u st (some token) (some lease) s ≡ (ok u, overwritten s t u)) runs
        (subst (λ o. save u t.status o (some lease) s ≡ (ok u, overwritten s t u)) owned saved)

  -- the round on a lost run, given what its save does
  round_lem :
      (lease : ℕ) (token : String) (r : Result Task) (s' : TaskStore)
      → expired_lease t now ≡ some lease
      → t.status ≡ running
      → t.claim_token ≡ some token
      → save (recovered t delay now) running (some token) (some lease) s ≡ (r, s')
      → recover_one t delay now s ≡ (caught r, s')
  unfolding recover_one
  round_lem lease token r s' over runs owned saved =
      subst₂ (λ o c. recover_one_lease t o c delay now s ≡ (caught r, s')) (sym over) (sym owned)
        (unfold recover_one_lease in rw (recover_edit_lem t delay now v runs) (rw saved))

  -- One round: a task whose lease is not over is passed over, so is one that somebody else stopped,
  -- and any other is written back as `recovered`.
  pub recover_one_cases :
      IsCurrent s t
      → (expired_lease t now ≡ none) × (recover_one t delay now s ≡ (ok none, s))
        ⊎ (task_at s t.task_id ≢ some t) × (recover_one t delay now s ≡ (ok none, s))
        ⊎ (t.status ≡ running)
          × ((l : ℕ) × (expired_lease t now ≡ some l))
          × (task_at s t.task_id ≡ some t)
          × (recover_one t delay now s
              ≡ (ok (some (recovered t delay now)), overwritten s t (recovered t delay now)))
  unfolding caught
  recover_one_cases c = elim (expired_lease_cases t now) [
    | inl free ↦ inl (free, unfold recover_one recover_one_lease in rw free)
    | inr (lease, over, runs, leased, due) ↦
        let (token, owned) = running_has_token t v runs in
        elim c [
          | inl at ↦ inr (
              inr (
                runs,
                (lease, over),
                at,
                round_lem lease token _ _ over runs owned
                    (save_lost lease token at runs leased owned),
              ))
          | inr (p, at, stopped) ↦ inr (
              inl (
                λ e.
                    let same : t ≡ p = cc in
                    stopped (subst (λ (x : Task). x.status ≡ running) same runs),
                round_lem lease token _ _ over runs owned (
                    save_stopped s p (recovered t delay now) (some token) (some lease)
                      (cc (at, recovered-id t delay now)) stopped),
              ))
        ]
  ]
