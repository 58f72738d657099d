-- ===== src/Rates/Profile.antt =====
-- The limits that a profile (recon/policy/rate_limit.py) sets for its buckets.
use night_scout.Prelude.{
  ℕ, String, ◌≡◌, ◌≢◌, inl, inr, false, some, none, Option, List, [], ◌∷◌, ◌==◌, ==_iff, arith, All,
  All-map, All-zip, if◌then◌else◌, string_eq, Bool-cases,
}
use night_scout.Prelude.Sets.{member, NoRepeat}
use night_scout.Queue.Task.{Task}
use night_scout.Rates.Model.{
  RateKey, key_eq, RateLimitRule, RateLimitProfile, RateLimitContext, RateLimitDemand,
}
use night_scout.Rates.Buckets.{or_zero}
use night_scout.Rates.Limiter.{Match, matching_rule_resources, check_of}
use night_scout.Rates.Rules.{IsValidRule, rule_ids}
use night_scout.Rates.Compiling.{match_rules-All}
use night_scout.Rates.Sound.{IsBounded}

-- the rule with an id
unfoldable pub rule_with : String → List RateLimitRule → Option RateLimitRule
rule_with id [] = none
rule_with id (rule ∷ rules) =
    let rest = rule_with id rules in if rule.rule_id == id then some rule else rest

-- what a rule configures for its buckets: the slots, and the burst; none for a key of no rule
abbrev pub slots_of : Option RateLimitRule → ℕ
slots_of none = 0
slots_of (some rule) = or_zero rule.max_concurrency

abbrev pub burst_of : Option RateLimitRule → ℕ
burst_of none = 0
burst_of (some rule) = or_zero rule.burst

abbrev pub slots_limit : RateLimitProfile → RateKey → ℕ
slots_limit profile key = slots_of (rule_with key.rule_id profile.rules)

abbrev pub burst_limit : RateLimitProfile → RateKey → ℕ
burst_limit profile key = burst_of (rule_with key.rule_id profile.rules)

rule_with-others :
    (id : String) (rules : List RateLimitRule) (rule : RateLimitRule)
    → member id (rule_ids rules) ≡ false
    → rule_with rule.rule_id rules ≡ some rule
    → id ≢ rule.rule_id
unfolding rule_with
rule_with-others id [] rule out at is = ground (arith, at)
rule_with-others id (r ∷ rules) rule out at is = elim (Bool-cases (r.rule_id == rule.rule_id)) [
  | inl same ↦ ground (arith, out, ==_iff id r.rule_id, ==_iff r.rule_id rule.rule_id, same, is)
  | inr other ↦ rule_with-others id rules rule (ground (arith, out)) (ground (arith, at, other)) is
]

-- In a list in which no id stands twice each rule is the one with its id.
rule_with-All :
    (rules : List RateLimitRule)
    → NoRepeat (rule_ids rules)
    → All (λ r. rule_with r.rule_id rules ≡ some r) rules
unfolding rule_with
rule_with-All [] once = tt
rule_with-All (rule ∷ rules) once = (
  ground (arith, ==_iff rule.rule_id rule.rule_id),
  All-map rules
      (λ r found. ground (
        arith,
        found,
        ==_iff rule.rule_id r.rule_id,
        rule_with-others rule.rule_id rules r once.0 found,
      ))
      (rule_with-All rules once.1),
)

-- a profile whose rules passed validation and have different ids
pub record IsValidProfile (profile : RateLimitProfile) : Type 0 where
  pub unique : NoRepeat (rule_ids profile.rules)
  pub valid : All IsValidRule profile.rules

-- a rule that passed validation and is the profile's rule with its id
abbrev pub IsOwn : RateLimitProfile → RateLimitRule → Type 0
IsOwn profile r = IsValidRule r × (rule_with r.rule_id profile.rules ≡ some r)

-- The check of a rule of the profile lies within the limits of the profile.
pub check_of-IsBounded :
    (profile : RateLimitProfile) (demand : RateLimitDemand) (m : Match)
    → IsOwn profile m.rule
    → IsBounded (slots_limit profile) (burst_limit profile) (check_of demand m)
unfolding check_of
check_of-IsBounded profile demand m (valid, own) = record {
  paced = λ rate r. valid.paced rate r;
  bursts = λ rate r. let (b, u, _) = valid.bursts rate r in (b, u);
  burst_bounded = λ burst u. ground (arith, own, u);
  slots_bounded = λ bound u. ground (arith, own, u);
}

-- The rules that match are rules of the profile.
pub matching-IsOwn :
    (profile : RateLimitProfile) (task : Task) (context : RateLimitContext)
    → IsValidProfile profile
    → All (λ m. IsOwn profile m.rule) (matching_rule_resources profile task context)
unfolding matching_rule_resources
matching-IsOwn profile task context v =
    match_rules-All (IsOwn profile) task.worker context.resource_keys profile.rules (
      All-zip IsValidRule (λ r. rule_with r.rule_id profile.rules ≡ some r) profile.rules v.valid
        (rule_with-All profile.rules v.unique))
