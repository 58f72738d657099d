-- ===== src/Rates/Shares.antt =====
-- The envelope that `RateLimiter.plan` (recon/policy/rate_limit.py) gives to one consumer.
use night_scout.Prelude.{
  ℕ, ◌*◌, ◌≤◌, ◌<◌, min, String, ◌≡◌, subst, inl, inr, some, none, List, [], ◌∷◌, ==_iff, arith,
  All, All-map, All-zip, Option-cases, string_eq,
}
use native.Mathlib.Nat.{div-mul-le_self, mul-le-mul_right, mul-le-mul_left}
use night_scout.Prelude.Dict
use night_scout.Prelude.Dict.{Dict, get-put, get-empty, values-All}
use night_scout.Queue.Task.{Task}
use night_scout.Rates.Model.{RateLimitRule, RateLimitProfile, RateLimitContext}
use night_scout.Rates.Limiter.{Match, matching_rule_resources}
use night_scout.Rates.Plan.{least, matched_rules, share, shares_of, plan_of, plan}
use night_scout.Rates.Profile.{IsValidProfile, IsOwn, rule_with, matching-IsOwn}

least-le : (ns : List ℕ) (n : ℕ) → least ns ≡ some n → All (λ m. n ≤ m) ns
unfolding least
least-le [] n h = tt
least-le (m ∷ ms) n h = elim (Option-cases (least ms)) [
  | inl nothing ↦
      let is : m ≡ n = ground (arith, h, nothing) in
      (omega (arith, is), All-map ms (λ x le. le) (none_below ms nothing))
  | inr (k, at) ↦
      let is : min m k ≡ n = ground (arith, h, at) in
      (omega (arith, is), All-map ms (λ x le. omega (arith, is, le)) (least-le ms k at))
]
  where
    none_below : (l : List ℕ) → least l ≡ none → All (λ x. n ≤ x) l
    none_below [] e = tt
    none_below (x ∷ l) e = absurd (ground (arith, e))

-- the shares and the bounds of a list of rules are each rule's
shares_of-All :
    (n : ℕ) (rules : List RateLimitRule)
    → All (λ m. n ≤ m) (shares_of rules)
    → All
        (λ r. (rate : ℕ) → r.requests_per_second ≡ some rate → n ≤ share rate r.max_concurrency)
        rules
unfolding shares_of
shares_of-All n [] h = tt
shares_of-All n (r ∷ rules) h = elim (Option-cases (r.requests_per_second)) [
  | inl unpaced ↦
      let k : All (λ m. n ≤ m) (shares_of rules) = rw unpaced at h in
      ((λ rate paces. absurd (ground (arith, unpaced, paces))), shares_of-All n rules k)
  | inr (own, paced) ↦
      let k : (n ≤ share own r.max_concurrency) × All (λ m. n ≤ m) (shares_of rules) =
        rw paced at h in
      (
        (λ rate paces.
            let is : own ≡ rate = ground (arith, paced, paces) in
            subst (λ x. n ≤ share x r.max_concurrency) is k.0),
        shares_of-All n rules k.1,
      )
]

-- A share times its consumers stays within the rate.
share-bound : (rate bound : ℕ) → share rate (some bound) * bound ≤ rate
unfolding share
share-bound rate bound = div-mul-le_self rate bound

module _ (profile : RateLimitProfile) where
  -- a dictionary of rules of the profile, each under its id
  IsOwnDict : Dict String RateLimitRule → Type 0
  IsOwnDict d =
      (id : String) (r : RateLimitRule)
      → Dict.get d id ≡ some r
      → rule_with id profile.rules ≡ some r

  put-IsOwnDict :
      (d : Dict String RateLimitRule) (m : Match)
      → IsOwn profile m.rule
      → IsOwnDict d
      → IsOwnDict (Dict.put d m.rule.rule_id m.rule)
  unfolding IsOwnDict
  put-IsOwnDict d m (valid, own) w id r at =
      ground (arith, get-put d m.rule.rule_id id m.rule, at, own, w id r, ==_iff m.rule.rule_id id)

  matched_rules-keeps :
      (ms : List Match) (d : Dict String RateLimitRule) (id : String) (r : RateLimitRule)
      → All (λ m. IsOwn profile m.rule) ms
      → IsOwnDict d
      → Dict.get d id ≡ some r
      → Dict.get (matched_rules ms d) id ≡ some r
  unfolding matched_rules
  matched_rules-keeps [] d id r own w at = at
  matched_rules-keeps (m ∷ ms) d id r own w at =
      let still : Dict.get (Dict.put d m.rule.rule_id m.rule) id ≡ some r =
        let mine = own.0.1 in
        let there : rule_with id profile.rules ≡ some r = unfold IsOwnDict in w id r at in
        ground
          (arith, get-put d m.rule.rule_id id m.rule, at, mine, there, ==_iff m.rule.rule_id id) in
      matched_rules-keeps ms (Dict.put d m.rule.rule_id m.rule) id r own.1
        (put-IsOwnDict d m own.0 w) still

  -- Each matching rule is among the matched rules.
  matched_rules-has :
      (ms : List Match) (d : Dict String RateLimitRule)
      → All (λ m. IsOwn profile m.rule) ms
      → IsOwnDict d
      → All (λ m. Dict.get (matched_rules ms d) m.rule.rule_id ≡ some m.rule) ms
  unfolding matched_rules
  matched_rules-has [] d own w = tt
  matched_rules-has (m ∷ ms) d own w =
      let next = Dict.put d m.rule.rule_id m.rule in
      let next_own = put-IsOwnDict d m own.0 w in
      (
        matched_rules-keeps ms next m.rule.rule_id m.rule own.1 next_own (
            ground (
              arith,
              get-put d m.rule.rule_id m.rule.rule_id m.rule,
              ==_iff m.rule.rule_id m.rule.rule_id,
            )),
        matched_rules-has ms next own.1 next_own,
      )

  empty-IsOwnDict : IsOwnDict Dict.empty
  unfolding IsOwnDict
  empty-IsOwnDict id r at = absurd (ground (arith, get-empty {V = RateLimitRule} id, at))

-- the rate that a plan gives a consumer fits a rule: it is within the rule's rate, and so are as many
-- consumers as the rule lets run together
abbrev pub FitsRule : ℕ → RateLimitRule → Type 0
FitsRule hint r =
    (rate : ℕ)
    → r.requests_per_second ≡ some rate
    → (hint ≤ rate) × ((bound : ℕ) → r.max_concurrency ≡ some bound → hint * bound ≤ rate)

share-FitsRule :
    (hint : ℕ) (r : RateLimitRule)
    → ((bound : ℕ) → r.max_concurrency ≡ some bound → 0 < bound)
    → ((rate : ℕ) → r.requests_per_second ≡ some rate → hint ≤ share rate r.max_concurrency)
    → FitsRule hint r
share-FitsRule hint r bounded h rate paces = elim (Option-cases (r.max_concurrency)) [
  | inl free ↦
      let most : hint ≤ share rate none = subst (λ o. hint ≤ share rate o) free (h rate paces) in
      ((unfold share in most), λ bound m. absurd (ground (arith, free, m)))
  | inr (b, m) ↦
      let most : hint ≤ share rate (some b) = subst (λ o. hint ≤ share rate o) m (h rate paces) in
      let within : hint * b ≤ rate = omega (arith, mul-le-mul_right b most, share-bound rate b) in
      (
        omega (arith, within, mul-le-mul_left hint (bounded b m)),
        λ bound n.
            let is : b ≡ bound = ground (arith, m, n) in subst (λ x. hint * x ≤ rate) is within,
      )
]

plan_of-FitsRule :
    (profile : RateLimitProfile) (task_id : String) (keys : List String) (ms : List Match)
    (hint : ℕ)
    → All (λ m. IsOwn profile m.rule) ms
    → (plan_of task_id keys ms).safe_rps_hint ≡ some hint
    → All (λ m. FitsRule hint m.rule) ms
unfolding plan_of
plan_of-FitsRule profile task_id keys [] hint own h = tt
plan_of-FitsRule profile task_id keys (m ∷ ms) hint own h =
    let d = matched_rules (m ∷ ms) Dict.empty in
    let shares = shares_of-All hint (Dict.values d) (least-le (shares_of (Dict.values d)) hint h) in
    let has = matched_rules-has profile (m ∷ ms) Dict.empty own (empty-IsOwnDict profile) in
    All-map (m ∷ ms)
      (λ x both. share-FitsRule hint x.rule both.0.0.bounded (
        values-All
          (λ r.
            (rate : ℕ) → r.requests_per_second ≡ some rate → hint ≤ share rate r.max_concurrency)
          d shares x.rule.rule_id x.rule both.1))
      (All-zip (λ x. IsOwn profile x.rule) (λ x. Dict.get d x.rule.rule_id ≡ some x.rule) (m ∷ ms)
        own has)

-- The rate that a plan gives each consumer fits every rule that matches the task, if the profile is
-- valid (its rules passed validation and have different ids): it is within the rule's rate, and as
-- many consumers as the rule lets run together stay within the rule's rate.
pub plan_lem :
    (profile : RateLimitProfile) (task : Task) (context : RateLimitContext) (hint : ℕ)
    → IsValidProfile profile
    → (plan profile task context).safe_rps_hint ≡ some hint
    → All (λ m. FitsRule hint m.rule) (matching_rule_resources profile task context)
unfolding plan
plan_lem profile task context hint v h =
    plan_of-FitsRule profile task.task_id context.resource_keys
      (matching_rule_resources profile task context) hint (matching-IsOwn profile task context v) h
