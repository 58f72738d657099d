-- ===== src/Queue/Valid.antt =====
-- Tasks that `Task.model_validate` (recon/core/queue.py) accepts as they are.
use night_scout.Prelude.{ℕ, String, ◌≡◌, inl, inr, true, Option, none, arith, ltb}
use night_scout.Prelude.Exec.{ok, Result-cases}
use night_scout.Queue.Task.{Task}
use night_scout.Queue.Validate.{
  must_not_be_blank, normalize_optional, normalize_search_tier, normalize_claim_token, at_least_one,
  validate_fields, validate_lifecycle, validate,
}

-- The fields that no transition of the queue writes are normal.
pub record NormalFields (worker action event : String) (identity rule reason tier : Option String)
    (max_attempts : ℕ) (hint : Option ℕ) : Type 0 where
  pub worker_normal : must_not_be_blank worker ≡ ok worker
  pub action_normal : must_not_be_blank action ≡ ok action
  pub event_normal : must_not_be_blank event ≡ ok event
  pub identity_normal : normalize_optional identity ≡ identity
  pub rule_normal : normalize_optional rule ≡ rule
  pub reason_normal : normalize_optional reason ≡ reason
  pub tier_normal : normalize_search_tier tier ≡ tier
  pub max_attempts_positive : ltb 0 max_attempts ≡ true
  pub hint_positive : at_least_one hint ≡ true

abbrev pub IsNormal : Task → Type 0
IsNormal t =
    NormalFields t.worker t.action t.input_event_id t.input_identity_key t.route_rule_id
      t.routing_reason t.search_tier t.max_attempts t.candidate_limit_hint

pub record IsValid (t : Task) : Type 0 where
  pub normal : IsNormal t
  pub token : normalize_claim_token t.claim_token ≡ ok t.claim_token
  pub lifecycle : validate_lifecycle t ≡ ok t

validate_fields-normal :
    (t : Task)
    → IsNormal t
    → normalize_claim_token t.claim_token ≡ ok t.claim_token
    → validate_fields t ≡ ok t
unfolding validate_fields
validate_fields-normal t n h = ground arith

validate_fields-IsNormal : (t : Task) → validate_fields t ≡ ok t → IsNormal t
unfolding validate_fields
validate_fields-IsNormal t h = ground arith

validate_fields-token :
    (t : Task) → validate_fields t ≡ ok t → normalize_claim_token t.claim_token ≡ ok t.claim_token
unfolding validate_fields
validate_fields-token t h = ground arith

-- Of a normal task with no claim only the lifecycle rules are left to check.
pub validate-unclaimed :
    (t : Task) → IsNormal t → t.claim_token ≡ none → validate t ≡ validate_lifecycle t
unfolding validate
validate-unclaimed t n h =
    ground (arith, validate_fields-normal t n (unfold normalize_claim_token in ground arith))

-- The check of the lifecycle changes nothing.
pub validate_lifecycle-eq : (t u : Task) → validate_lifecycle t ≡ ok u → u ≡ t
unfolding validate_lifecycle
validate_lifecycle-eq t u h = ground arith

pub IsValid-unclaimed :
    (t u : Task) → IsNormal t → t.claim_token ≡ none → validate t ≡ ok u → (u ≡ t) × IsValid t
IsValid-unclaimed t u n h e = (
  validate_lifecycle-eq t u (cc (validate-unclaimed t n h)),
  record {
    normal = n;
    token = unfold normalize_claim_token in ground arith;
    lifecycle =
        cc (validate-unclaimed t n h, validate_lifecycle-eq t u (cc (validate-unclaimed t n h)));
  },
)

-- What `validate` returns for an unchanged task says that the task is valid, and the other way round.
pub IsValid-validate : (t : Task) → validate t ≡ ok t → IsValid t
unfolding validate
IsValid-validate t h = elim (Result-cases (validate_fields t)) [
  | inl (u, e) ↦
      let same : u ≡ t = ground (arith, validate_lifecycle-eq u t) in
      let unchanged : validate_fields t ≡ ok t = cc in
      record {
        normal = validate_fields-IsNormal t unchanged;
        token = validate_fields-token t unchanged;
        lifecycle = ground arith;
      }
  | inr (x, e) ↦ ground arith
]

pub validate-IsValid : (t : Task) → IsValid t → validate t ≡ ok t
unfolding validate
validate-IsValid t v = ground (arith, validate_fields-normal t v.normal v.token)
