-- ===== src/Rates/Reaping.antt =====
-- `reap_expired` (recon/policy/rate_limit.py).
use mathlib.Core.Option
use night_scout.Prelude.{
  ℕ, String, ◌≡◌, refl, sym, ap, subst, ◌∙◌, inl, inr, true, false, some, List, [], ◌∷◌, ◌==◌,
  ==_iff, arith, All, leb, if◌then◌else◌, string_eq, Bool-cases,
}
use night_scout.Prelude.Dict
use night_scout.Prelude.Dict.{Dict, get-put}
use night_scout.Prelude.Dict.Totals.{item_keys, items_lem, get-absent}
use night_scout.Prelude.Sets.{member, NoRepeat}
use night_scout.Prelude.Exec.{Result, ok, after, after-ok}
use night_scout.Rates.Model.{RateKey, key_eq, is_active, expired, RateLimitLease, RateLeaseState}
use night_scout.Rates.Buckets.{RateStore}
use night_scout.Rates.Store.{is_due, reap, reap_expired, release_lease_items, write_state}
use night_scout.Rates.Ledger.{timing, timing-some, release_lease_items-IsBalanced}
use night_scout.Rates.Sound.{IsSound}

module _ (limit cap : RateKey → ℕ) (s : RateStore) (id : String) (lease : RateLimitLease)
    (st : RateLeaseState) (w : IsSound limit cap s) (at : Dict.get s.leases id ≡ some lease)
    (runs : is_active lease.state ≡ true) (ends : is_active st ≡ false) where
  -- Giving back an active lease keeps the invariant.
  pub closed-IsSound :
      IsSound limit cap (write_state id lease st (release_lease_items lease.items s).1)
  closed-IsSound =
      let (done, same, back, balanced) =
        release_lease_items-IsBalanced s id lease st w.balance at runs ends in
      record {
        balance = balanced;
        slots_within = λ k. omega (arith, back k, w.slots_within k);
        tokens_within = λ k b found.
            let (n, there) =
              timing-some (Dict.get s.buckets k) b (sym (same.same_timing k) ∙ ap timing found) in
            w.tokens_within k (record b { active_concurrency = n }) there;
      }

-- what is left of the snapshot that the loop walks through is still stored
abbrev pub IsSnapshot : List (String × RateLimitLease) → RateStore → Type 0
IsSnapshot l s = All (λ p. Dict.get s.leases p.0 ≡ some p.1) l × NoRepeat (item_keys l)

still_stored :
    (s u : RateStore) (id : String) (q : RateLimitLease)
    → u.leases ≡ Dict.put s.leases id q
    → (l : List (String × RateLimitLease)) → member id (item_keys l) ≡ false
    → All (λ p. Dict.get s.leases p.0 ≡ some p.1) l
    → All (λ p. Dict.get u.leases p.0 ≡ some p.1) l
still_stored s u id q is [] new h = tt
still_stored s u id q is ((k, r) ∷ l) new h = (
  ap (λ d. Dict.get d k) is ∙ ground (arith, get-put s.leases id k q, new, h.0),
  still_stored s u id q is l (ground (arith, new)) h.1,
)

-- the store after a round of the loop that takes a lease back
taken_back : String → RateLimitLease → RateStore → RateStore
taken_back id lease s = write_state id lease expired (release_lease_items lease.items s).1

-- what reaping is to make of a lease: ACTIVE with `expires_at` at or before `now` becomes EXPIRED
unfoldable pub reaped : ℕ → RateLimitLease → RateLimitLease
reaped now lease = elim (lease.state) [
  | RateLeaseState.active ↦
      if leb lease.expires_at now then record lease { state = expired } else lease
  | _ ↦ lease
]

reaped_lem :
    (now : ℕ) (lease : RateLimitLease)
    → reaped now lease ≡ (if is_due now lease then record lease { state = expired } else lease)
unfolding reaped
reaped_lem now lease = ground arith

head_key :
    (id : String) (lease : RateLimitLease) (l : List (String × RateLimitLease)) (s : RateStore)
    → IsSnapshot ((id, lease) ∷ l) s
    → (k : String) → k ≡ id
    → (member k (item_keys l) ≡ false) × (Dict.get s.leases k ≡ some lease)
head_key id lease l s h k is = (
  subst (λ j. member j (item_keys l) ≡ false) (sym is) h.1.0,
  subst (λ j. Dict.get s.leases j ≡ some lease) (sym is) h.0.0,
)

reap-early :
    (now : ℕ) (id : String) (lease : RateLimitLease) (l : List (String × RateLimitLease))
    (s : RateStore)
    → is_due now lease ≡ false
    → reap ((id, lease) ∷ l) now s ≡ reap l now s
unfolding reap
reap-early now id lease l s early = rw early refl

module _ (limit cap : RateKey → ℕ) (now : ℕ) where
  module _ (id : String) (lease : RateLimitLease) (l : List (String × RateLimitLease))
      (s : RateStore) (h : IsSnapshot ((id, lease) ∷ l) s) (w : IsSound limit cap s)
      (due : is_due now lease ≡ true) where
    due_runs : is_active lease.state ≡ true
    due_runs = ground (arith, due)

    taken_back-leases :
        (taken_back id lease s).leases ≡ Dict.put s.leases id (record lease { state = expired })
    unfolding taken_back
    taken_back-leases =
        let (_, same, _, _) =
          release_lease_items-IsBalanced s id lease expired w.balance h.0.0 due_runs refl in
        ap (λ d. Dict.put d id (record lease { state = expired })) same.same_leases

    taken_back-timing :
        (k : RateKey)
        → timing (Dict.get (taken_back id lease s).buckets k) ≡ timing (Dict.get s.buckets k)
    unfolding taken_back
    taken_back-timing =
        let (_, same, _, _) =
          release_lease_items-IsBalanced s id lease expired w.balance h.0.0 due_runs refl in
        same.same_timing

    taken_back-IsSnapshot : IsSnapshot l (taken_back id lease s)
    taken_back-IsSnapshot = (
      still_stored s (taken_back id lease s) id (record lease { state = expired }) taken_back-leases
          l h.1.0 h.0.1,
      h.1.1,
    )

    taken_back-IsSound : IsSound limit cap (taken_back id lease s)
    unfolding taken_back
    taken_back-IsSound = closed-IsSound limit cap s id lease expired w h.0.0 due_runs refl

    -- the loop goes on behind the round
    reap-due :
        reap ((id, lease) ∷ l) now s
        ≡ after
            (reap l now (taken_back id lease s))
            (λ rest v. (ok (record lease { state = expired } ∷ rest), v))
    unfolding reap taken_back
    reap-due = rw due (
        after-ok (release_lease_items lease.items s) tt
          (λ _ t.
            after (reap l now (write_state id lease expired t))
              λ rest v. (ok (record lease { state = expired } ∷ rest), v))
          (release_lease_items-IsBalanced s id lease expired w.balance h.0.0 due_runs refl).0)

  -- what the loop did: it returned, the store is sound, and each key's lease is as reaping makes it
  record IsReaped (l : List (String × RateLimitLease)) (s : RateStore) : Type 0 where
    pub returned : (leases : List RateLimitLease) × ((reap l now s).0 ≡ ok leases)
    pub sound : IsSound limit cap (reap l now s).1
    pub timed :
        (k : RateKey) → timing (Dict.get (reap l now s).1.buckets k) ≡ timing (Dict.get s.buckets k)
    pub leases_are :
        (k : String)
        → Dict.get (reap l now s).1.leases k ≡ (
            if member k (item_keys l)
            then Option.map (reaped now) (Dict.get s.leases k)
            else Dict.get s.leases k)

  early-IsReaped :
      (id : String) (lease : RateLimitLease) (l : List (String × RateLimitLease)) (s : RateStore)
      → IsSnapshot ((id, lease) ∷ l) s
      → is_due now lease ≡ false
      → IsReaped l s
      → IsReaped ((id, lease) ∷ l) s
  early-IsReaped id lease l s h early ih =
      let same = reap-early now id lease l s early in
      let kept : reaped now lease ≡ lease = rw early at (reaped_lem now lease) in
      record {
        returned = rw same ih.returned;
        sound = rw same ih.sound;
        timed = λ k. rw same (ih.timed k);
        leases_are = λ k.
            ap (λ (x : Result (List RateLimitLease) × RateStore). Dict.get x.1.leases k) same
            ∙ ih.leases_are k
            ∙ (elim (Bool-cases (k == id)) [
              | inl equal ↦
                  let (fresh, at) = head_key id lease l s h k ((==_iff k id).0 equal) in
                  ground (arith, equal, fresh, at, kept)
              | inr other ↦ ground (arith, other)
            ]);
      }

  due-IsReaped :
      (id : String) (lease : RateLimitLease) (l : List (String × RateLimitLease)) (s : RateStore)
      → IsSnapshot ((id, lease) ∷ l) s
      → IsSound limit cap s
      → is_due now lease ≡ true
      → IsReaped l (taken_back id lease s)
      → IsReaped ((id, lease) ∷ l) s
  due-IsReaped id lease l s h w due ih =
      let on = reap-due id lease l s h w due in
      let u = taken_back id lease s in
      let changed : reaped now lease ≡ record lease { state = expired } =
        rw due at (reaped_lem now lease) in
      let (leases, found) = ih.returned in
      let same =
        on
        ∙ after-ok (reap l now u) leases
            (λ rest v. (ok (record lease { state = expired } ∷ rest), v)) found in
      record {
        returned = (record lease { state = expired } ∷ leases, ap (λ x. x.0) same);
        sound = rw same ih.sound;
        timed = λ k. rw same (ih.timed k ∙ taken_back-timing id lease l s h w due k);
        leases_are = λ k.
            let u_at = ap (λ d. Dict.get d k) (taken_back-leases id lease l s h w due) in
            ap (λ (x : Result (List RateLimitLease) × RateStore). Dict.get x.1.leases k) same
            ∙ ih.leases_are k
            ∙ (elim (Bool-cases (k == id)) [
              | inl equal ↦
                  let (fresh, at) = head_key id lease l s h k ((==_iff k id).0 equal) in
                  ground (
                    arith,
                    equal,
                    fresh,
                    at,
                    changed,
                    u_at,
                    get-put s.leases id k (record lease { state = expired }),
                    ==_iff id k,
                    ==_iff k id,
                  )
              | inr other ↦ ground (
                arith,
                other,
                u_at,
                get-put s.leases id k (record lease { state = expired }),
                ==_iff id k,
                ==_iff k id,
              )
            ]);
      }

  reap-IsReaped :
      (l : List (String × RateLimitLease)) (s : RateStore)
      → IsSnapshot l s
      → IsSound limit cap s
      → IsReaped l s
  reap-IsReaped [] s h w = record {
    returned = ([], unfold reap in refl);
    sound = unfold reap in w;
    timed = λ k. unfold reap in refl;
    leases_are = λ k. unfold reap in refl;
  }
  reap-IsReaped ((id, lease) ∷ l) s h w = elim (Bool-cases (is_due now lease)) [
    | inr early ↦ early-IsReaped id lease l s h early (reap-IsReaped l s (h.0.1, h.1.1) w)
    | inl due ↦ due-IsReaped id lease l s h w due (
        reap-IsReaped l (taken_back id lease s) (taken_back-IsSnapshot id lease l s h w due)
          (taken_back-IsSound id lease l s h w due))
  ]

-- In a store that keeps the invariant, `reap_expired` returns and keeps the invariant; each lease that is
-- ACTIVE with `expires_at` at or before `now` becomes EXPIRED and changes in nothing else, every other
-- lease is as it was, none is added or lost, and no tokens come back.
pub reap_expired-reaped :
    (limit cap : RateKey → ℕ) (now : ℕ) (s : RateStore)
    → IsSound limit cap s
    → ((leases : List RateLimitLease) × ((reap_expired now s).0 ≡ ok leases))
      × IsSound limit cap (reap_expired now s).1
      × ((k : String)
          → Dict.get (reap_expired now s).1.leases k
            ≡ Option.map (reaped now) (Dict.get s.leases k))
      × ((k : RateKey)
          → timing (Dict.get (reap_expired now s).1.buckets k) ≡ timing (Dict.get s.buckets k))
unfolding reap_expired
reap_expired-reaped limit cap now s w =
    let l = Dict.items s.leases in
    let done = reap-IsReaped limit cap now l s (items_lem s.leases w.balance.distinct) w in
    (
      done.returned,
      done.sound,
      (λ k. done.leases_are k ∙ (elim (Bool-cases (member k (item_keys l))) [
        | inl listed ↦ ground (arith, listed)
        | inr unlisted ↦ ground (arith, unlisted, get-absent s.leases k unlisted)
      ])),
      done.timed,
    )
