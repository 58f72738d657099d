-- ===== src/Rates/Rules.antt =====
-- Validated rules and profiles (recon/policy/rate_limit.py), and the checks compiled from them.
use night_scout.Prelude.{
  ℕ, ◌<◌, String, ◌≡◌, refl, subst, inl, inr, false, none, some, Option, List, [], ◌∷◌, map, ==_iff,
  arith, All, All-map, Bool-cases, Option-cases, string_eq,
}
use night_scout.Prelude.Sets.{member, NoRepeat}
use night_scout.Prelude.Text.{is_blank}
use night_scout.Prelude.Exec.{ok, bind-eq-ok}
use night_scout.Rates.Model.{
  RateLimitRule, RateLimitProfile, normalize_required_text, positive_or_none, validate_rule,
  make_rule, no_duplicates, validate_unique_rule_ids,
}

-- a rule that passed validation
pub record IsValidRule (rule : RateLimitRule) : Type 0 where
  pub named : is_blank rule.rule_id ≡ false
  pub paced : (rate : ℕ) → rule.requests_per_second ≡ some rate → 0 < rate
  pub bursts :
      (rate : ℕ)
      → rule.requests_per_second ≡ some rate
      → (burst : ℕ) × (rule.burst ≡ some burst) × (0 < burst)
  pub unpaced :
      rule.requests_per_second ≡ none
      → (bound : ℕ) × (rule.burst ≡ none) × (rule.max_concurrency ≡ some bound)
  pub bounded : (bound : ℕ) → rule.max_concurrency ≡ some bound → 0 < bound

positive_or_none-positive :
    (o p : Option ℕ) → positive_or_none o ≡ ok p → (n : ℕ) → p ≡ some n → 0 < n
unfolding positive_or_none
positive_or_none-positive none p h n at = ground (arith, h, at)
positive_or_none-positive (some m) p h n at = ground (arith, h, at)

normalize_required_text-named :
    (s t : String) → normalize_required_text s ≡ ok t → is_blank t ≡ false
unfolding normalize_required_text
normalize_required_text-named s t h = ground (arith, h)

validate_rule-IsValidRule :
    (rule out : RateLimitRule)
    → is_blank rule.rule_id ≡ false
    → ((n : ℕ) → rule.requests_per_second ≡ some n → 0 < n)
    → ((n : ℕ) → rule.burst ≡ some n → 0 < n)
    → ((n : ℕ) → rule.max_concurrency ≡ some n → 0 < n)
    → validate_rule rule ≡ ok out
    → IsValidRule out
unfolding validate_rule
validate_rule-IsValidRule rule out named rates bursts bounds h =
    elim (Option-cases (rule.requests_per_second)) [
      | inl unpaced ↦ elim (Option-cases (rule.max_concurrency)) [
        | inl unbounded ↦ absurd (ground (arith, h, unpaced, unbounded))
        | inr (bound, m) ↦ elim (Option-cases (rule.burst)) [
          | inl u ↦
              let is : rule ≡ out = ground (arith, h, unpaced, m, u) in
              subst IsValidRule is (record {
                named = named;
                paced = rates;
                bursts = λ rate r. absurd (ground (arith, unpaced, r));
                unpaced = λ _. (bound, u, m);
                bounded = bounds;
              })
          | inr (b, u) ↦ absurd (ground (arith, h, unpaced, m, u))
        ]
      ]
      | inr (rate, r) ↦ elim (Option-cases (rule.burst)) [
        | inl u ↦
            let is : record rule { burst = some rate } ≡ out = ground (arith, h, r, u) in
            subst IsValidRule is (record {
              named = named;
              paced = rates;
              bursts = λ _ _. (rate, refl, rates rate r);
              unpaced = λ n. absurd (ground (arith, n, r));
              bounded = bounds;
            })
        | inr (b, u) ↦
            let is : rule ≡ out = ground (arith, h, r, u) in
            subst IsValidRule is (record {
              named = named;
              paced = rates;
              bursts = λ _ _. (b, u, bursts b u);
              unpaced = λ n. absurd (ground (arith, n, r));
              bounded = bounds;
            })
      ]
    ]

-- A rule that the constructor returns has a name, a positive rate or none, a burst exactly where it
-- has a rate, positive too, a positive bound on the concurrency or none, and a rate or a bound.
pub make_rule-IsValidRule : (raw rule : RateLimitRule) → make_rule raw ≡ ok rule → IsValidRule rule
unfolding make_rule
make_rule-IsValidRule raw rule h =
    let (id, name, h1) = bind-eq-ok (normalize_required_text raw.rule_id) _ h in
    let (pattern, _, h2) = bind-eq-ok (normalize_required_text raw.resource_pattern) _ h1 in
    let (rate, paced, h3) = bind-eq-ok (positive_or_none raw.requests_per_second) _ h2 in
    let (burst, bursts, h4) = bind-eq-ok (positive_or_none raw.burst) _ h3 in
    let (bound, bounded, h5) = bind-eq-ok (positive_or_none raw.max_concurrency) _ h4 in
    validate_rule-IsValidRule _ rule (normalize_required_text-named raw.rule_id id name)
      (positive_or_none-positive raw.requests_per_second rate paced)
      (positive_or_none-positive raw.burst burst bursts)
      (positive_or_none-positive raw.max_concurrency bound bounded) h5

abbrev pub rule_ids : List RateLimitRule → List String
rule_ids rules = map (λ r. r.rule_id) rules

no_duplicates-NoRepeat :
    (seen : List String) (rules : List RateLimitRule)
    → no_duplicates seen rules ≡ ok tt
    → All (λ id. member id seen ≡ false) (rule_ids rules) × NoRepeat (rule_ids rules)
unfolding no_duplicates
no_duplicates-NoRepeat seen [] h = (tt, tt)
no_duplicates-NoRepeat seen (rule ∷ rules) h = elim (Bool-cases (member rule.rule_id seen)) [
  | inl twice ↦ absurd (ground (arith, h, twice))
  | inr new ↦
      let rest : no_duplicates (rule.rule_id ∷ seen) rules ≡ ok tt = rw new at h in
      let (unseen, once) = no_duplicates-NoRepeat (rule.rule_id ∷ seen) rules rest in
      (
        (new, All-map (rule_ids rules) (λ id out. ground (arith, out)) unseen),
        (others (rule_ids rules) unseen, once),
      )
]
  where
    others :
        (ids : List String)
        → All (λ id. member id (rule.rule_id ∷ seen) ≡ false) ids
        → member rule.rule_id ids ≡ false
    others [] h = refl
    others (id ∷ ids) h =
        ground (arith, h.0, others ids h.1, ==_iff id rule.rule_id, ==_iff rule.rule_id id)

-- A profile that passes validation has no two rules with the same id.
pub validate_unique_rule_ids-NoRepeat :
    (profile out : RateLimitProfile)
    → validate_unique_rule_ids profile ≡ ok out
    → NoRepeat (rule_ids profile.rules)
unfolding validate_unique_rule_ids
validate_unique_rule_ids-NoRepeat profile out h =
    let (_, fresh, _) = bind-eq-ok (no_duplicates [] profile.rules) _ h in
    (no_duplicates-NoRepeat [] profile.rules fresh).1
