-- ===== src/Rates/Compiling.antt =====
-- `_matching_rule_resources` and `_compile_checks` (recon/policy/rate_limit.py): one check per bucket,
-- each with the limits of a rule of the profile.
use night_scout.Prelude.{
  String, ◌≡◌, inl, inr, some, List, [], ◌∷◌, ==_iff, arith, All, All-append, Bool-cases, string_eq,
}
use night_scout.Prelude.Dict
use night_scout.Prelude.Dict.{Dict, get-put, get-empty, IsDistinct-put, IsDistinct-empty}
use night_scout.Prelude.Dict.Totals.{All-put, keys-NoRepeat}
use night_scout.Prelude.Sets.{NoRepeat}
use night_scout.Prelude.Sort.{sort, All-sort, NoRepeat-sort, leb_text}
use night_scout.Rates.Model.{
  RateKey, key_eq, RateLimitRule, RateBucketCheck, RateLimitDemand, global, per_resource,
  RateLimitScope,
}
use night_scout.Rates.Limiter.{
  Match, match_resources, match_scope, match_rule, match_rules, check_of, collect_checks,
  compile_checks, key_before,
}
use night_scout.Rates.Examining.{check_keys}

module _ (Q : RateLimitRule → Type 0) where
  match_resources-All :
      (rule : RateLimitRule) (keys : List String)
      → Q rule
      → All (λ m. Q m.rule) (match_resources rule keys)
  unfolding match_resources
  match_resources-All rule [] q = tt
  match_resources-All rule (key ∷ keys) q =
      let ih = match_resources-All rule keys q in ground (arith, ih, q)

  match_scope-All :
      (scope : RateLimitScope) (rule : RateLimitRule) (keys : List String)
      → Q rule
      → All (λ m. Q m.rule) (match_scope scope rule keys)
  unfolding match_scope
  match_scope-All global rule keys q = ground (arith, q)
  match_scope-All per_resource rule keys q = match_resources-All rule (sort leb_text keys) q

  match_rule-All :
      (worker : String) (keys : List String) (rule : RateLimitRule)
      → Q rule
      → All (λ m. Q m.rule) (match_rule worker keys rule)
  unfolding match_rule
  match_rule-All worker keys rule q =
      let here = match_scope-All rule.scope rule keys q in ground (arith, here)

  -- The matches are of rules of the profile.
  pub match_rules-All :
      (worker : String) (keys : List String) (rules : List RateLimitRule)
      → All Q rules
      → All (λ m. Q m.rule) (match_rules worker keys rules)
  unfolding match_rules
  match_rules-All worker keys [] q = tt
  match_rules-All worker keys (rule ∷ rules) q =
      All-append (λ m. Q m.rule) (match_rule worker keys rule) (match_rules worker keys rules)
        (match_rule-All worker keys rule q.0) (match_rules-All worker keys rules q.1)

module _ (P : RateBucketCheck → Type 0) where
  -- what the loop keeps of its dictionary
  record IsCollected (d : Dict RateKey RateBucketCheck) : Type 0 where
    pub own : (k : RateKey) (c : RateBucketCheck) → Dict.get d k ≡ some c → c.key ≡ k
    pub distinct : Dict.IsDistinct d
    pub all : All P (Dict.values d)

  put-IsCollected :
      (d : Dict RateKey RateBucketCheck) (c : RateBucketCheck)
      → P c
      → IsCollected d
      → IsCollected (Dict.put d c.key c)
  put-IsCollected d c p w = record {
    own = λ k e at. ground (arith, get-put d c.key k c, at, ==_iff c.key k, w.own k e);
    distinct = IsDistinct-put d c.key c w.distinct;
    all = All-put P d c.key c p w.all;
  }

  collect_checks-IsCollected :
      (demand : RateLimitDemand) (ms : List Match) (d : Dict RateKey RateBucketCheck)
      → All (λ m. P (check_of demand m)) ms
      → IsCollected d
      → IsCollected (collect_checks demand ms d)
  unfolding collect_checks
  collect_checks-IsCollected demand [] d p w = w
  collect_checks-IsCollected demand (m ∷ ms) d p w =
      elim (Bool-cases (Dict.contains d (check_of demand m).key)) [
        | inl there ↦ rw there (collect_checks-IsCollected demand ms d p.1 w)
        | inr new ↦ rw new (
            collect_checks-IsCollected demand ms
              (Dict.put d (check_of demand m).key (check_of demand m)) p.1
              (put-IsCollected d (check_of demand m) p.0 w))
      ]

  empty-IsCollected : IsCollected Dict.empty
  unfolding Dict.values
  empty-IsCollected = record {
    own = λ k c at. absurd (ground (arith, get-empty {V = RateBucketCheck} k, at));
    distinct = IsDistinct-empty RateKey RateBucketCheck;
    all = tt;
  }

  -- The compiled checks have different keys, and what holds of each match's check holds of them.
  pub compile_checks_lem :
      (ms : List Match) (demand : RateLimitDemand)
      → All (λ m. P (check_of demand m)) ms
      → NoRepeat (check_keys (compile_checks ms demand)) × All P (compile_checks ms demand)
  unfolding compile_checks
  compile_checks_lem ms demand p =
      let w = collect_checks-IsCollected demand ms Dict.empty p empty-IsCollected in
      let d = collect_checks demand ms Dict.empty in
      let before = λ (a b : RateBucketCheck). key_before a.key b.key in
      (
        NoRepeat-sort before (λ c. c.key) (Dict.values d)
            (keys-NoRepeat (λ c. c.key) d w.distinct w.own),
        All-sort before P (Dict.values d) w.all,
      )
