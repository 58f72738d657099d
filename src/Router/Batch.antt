-- ===== src/Router/Batch.antt =====
-- `Router.register` and `Router.register_many` (recon/core/router.py): a batch is registered as a
-- whole or not at all.
use night_scout.Prelude.{
  String, ◌≡◌, refl, ◌⊎◌, inl, inr, false, none, some, List, [], ◌∷◌, ◌==◌, ==_iff, arith, All,
  All-map, map, string_eq, Option-cases,
}
use night_scout.Prelude.Sets.{member, NoRepeat}
use night_scout.Prelude.Exec.{value_error, Error, ok, err, Result-cases}
use night_scout.Events.{type_eq}
use night_scout.Router.Rules.{RouteRule}
use night_scout.Router.Registry.{
  Router, register, check_batch, register_all, register_many, rule_at,
}
use night_scout.Router.Laws.{
  IsIndexed, added, added-rule, added-IsIndexed, register-new, register-known,
}

-- Whatever its answer, `register` keeps the index of a well-indexed router; the event types of a
-- rule are a set.
pub register-IsIndexed :
    (r : RouteRule) (s : Router) → NoRepeat r.accepts → IsIndexed s → IsIndexed (register r s).1
register-IsIndexed r s types w = elim (Option-cases (rule_at s r.rule_id)) [
  | inl new ↦ rw (register-new r s new) (added-IsIndexed r s new types w)
  | inr (q, known) ↦ rw (register-known r q s known) w
]

abbrev rule_ids : List RouteRule → List String
rule_ids rs = map (λ r. r.rule_id) rs

absent :
    (x : String) (rs : List RouteRule)
    → All (λ r. (r.rule_id == x) ≡ false) rs
    → member x (rule_ids rs) ≡ false
absent x [] h = refl
absent x (r ∷ rs) h = ground (arith, absent x rs h.1, h.0, ==_iff x r.rule_id, ==_iff r.rule_id x)

IsFresh : Router → List String → RouteRule → Type 0
IsFresh s seen r = (member r.rule_id seen ≡ false) × (rule_at s r.rule_id ≡ none)

-- what the first loop has checked when it returns
check_batch-IsFresh :
    (rs : List RouteRule) (seen : List String) (s : Router)
    → check_batch rs seen s ≡ ok tt
    → All (IsFresh s seen) rs × NoRepeat (rule_ids rs)
unfolding check_batch IsFresh
check_batch-IsFresh [] seen s h = (tt, tt)
check_batch-IsFresh (r ∷ rs) seen s h =
    let rest : check_batch rs (r.rule_id ∷ seen) s ≡ ok tt = ground (arith, h) in
    let (fresh, once) = check_batch-IsFresh rs (r.rule_id ∷ seen) s rest in
    (
      (
        (ground (arith, h), ground (arith, h)),
        All-map rs (λ q f. (ground (arith, f.0), f.1)) fresh,
      ),
      (absent r.rule_id rs (All-map rs (λ q f. ground (arith, f.0)) fresh), once),
    )

check_batch-err :
    (rs : List RouteRule) (seen : List String) (s : Router) (e : Error)
    → check_batch rs seen s ≡ err e
    → e ≡ value_error
unfolding check_batch
check_batch-err [] seen s e h = absurd (ground arith)
check_batch-err (r ∷ rs) seen s e h =
    let ih = check_batch-err rs (r.rule_id ∷ seen) s e in ground (arith, h, ih)

-- the router after a batch was registered
record IsRegistered (rs : List RouteRule) (s s' : Router) : Type 0 where
  pub stored : All (λ r. rule_at s' r.rule_id ≡ some r) rs
  pub kept : (k : String) (q : RouteRule) → rule_at s k ≡ some q → rule_at s' k ≡ some q
  pub indexed : IsIndexed s'

still_fresh :
    (r : RouteRule) (rs : List RouteRule) (s : Router)
    → All (λ q. rule_at s q.rule_id ≡ none) rs
    → member r.rule_id (rule_ids rs) ≡ false
    → All (λ q. rule_at (added r s) q.rule_id ≡ none) rs
still_fresh r [] s h new = tt
still_fresh r (q ∷ rs) s h new = (
  ground (arith, added-rule r s q.rule_id, h.0, new),
  still_fresh r rs s h.1 (ground (arith, new)),
)

register_all-IsRegistered :
    (rs : List RouteRule) (s : Router)
    → All (λ r. rule_at s r.rule_id ≡ none) rs
    → NoRepeat (rule_ids rs)
    → All (λ r. NoRepeat r.accepts) rs
    → IsIndexed s
    → ((register_all rs s).0 ≡ ok tt) × IsRegistered rs s (register_all rs s).1
unfolding register_all
register_all-IsRegistered [] s fresh once types w =
    (refl, record { stored = tt; kept = λ k q at. at; indexed = w })
register_all-IsRegistered (r ∷ rs) s fresh once types w =
    let (done, rest) =
      register_all-IsRegistered rs (added r s) (still_fresh r rs s fresh.1 once.0) once.1 types.1
        (added-IsIndexed r s fresh.0 types.0 w) in
    rw (register-new r s fresh.0) (
      done,
      record {
        stored = (
          rest.kept r.rule_id r
              (ground (arith, added-rule r s r.rule_id, ==_iff r.rule_id r.rule_id)),
          rest.stored,
        );
        kept = λ k q at.
            rest.kept k q (ground (arith, added-rule r s k, at, fresh.0, ==_iff r.rule_id k));
        indexed = rest.indexed;
      },
    )

-- From a well-indexed router, and with a set of event types in each rule, `register_many` either
-- raises ValueError and leaves the router as it was, or returns with every rule of the batch
-- registered, every earlier rule kept and the router well indexed.
pub register_many_lem :
    (rs : List RouteRule) (s : Router)
    → All (λ r. NoRepeat r.accepts) rs
    → IsIndexed s
    → (register_many rs s ≡ (err value_error, s))
      ⊎ (((register_many rs s).0 ≡ ok tt)
          × All (λ r. rule_at (register_many rs s).1 r.rule_id ≡ some r) rs
          × ((k : String) (q : RouteRule)
              → rule_at s k ≡ some q
              → rule_at (register_many rs s).1 k ≡ some q)
          × IsIndexed (register_many rs s).1)
unfolding register_many IsFresh
register_many_lem rs s types w = elim (Result-cases (check_batch rs [] s)) [
  | inl (u, passed) ↦
      let (fresh, once) = check_batch-IsFresh rs [] s passed in
      let (done, r) = register_all-IsRegistered rs s (All-map rs (λ q f. f.1) fresh) once types w in
      inr (rw passed (done, r.stored, r.kept, r.indexed))
  | inr (e, refused) ↦ inl (rw (refused, check_batch-err rs [] s e refused) refl)
]
