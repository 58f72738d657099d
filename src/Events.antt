-- ===== src/Events.antt =====
-- recon/core/events.py: the events that workers find. `metadata` is carried along and never read
-- by the core, so it is left out; confidence and novelty are fixed-point numbers.
use Prim.Native.String.{◌++◌ as str_append}
use night_scout.Prelude.{
  ℕ, zero, suc, String, ◌≡◌, ◌↔◌, refl, sym, ap, ◌∙◌, Bool, true, Option, none, some, List, [], ◌∷◌,
  ◌++◌, Eq, eqb, eqb_iff, if◌then◌else◌, string_eq,
}
use night_scout.Prelude.Text.{strip, is_blank, lower}
use night_scout.Prelude.Sets.{member}
use night_scout.Prelude.Exec.{value_error, Result, ok, err}

pub data EventType : Type 0 where
  root_domain dns_name dns_record ip_address asn cidr url url_path http_service http_response :
      EventType
  certificate cert_san favicon technology fingerprint javascript api_endpoint : EventType
  parameter_name artifact mobile_artifact project_name vocab_token naming_pattern : EventType
  vulnerability_candidate vulnerability_finding relationship policy_block human_review : EventType

-- the value of the member
abbrev pub type_value : EventType → String
type_value root_domain = "ROOT_DOMAIN"
type_value dns_name = "DNS_NAME"
type_value dns_record = "DNS_RECORD"
type_value ip_address = "IP_ADDRESS"
type_value asn = "ASN"
type_value cidr = "CIDR"
type_value url = "URL"
type_value url_path = "URL_PATH"
type_value http_service = "HTTP_SERVICE"
type_value http_response = "HTTP_RESPONSE"
type_value certificate = "CERTIFICATE"
type_value cert_san = "CERT_SAN"
type_value favicon = "FAVICON"
type_value technology = "TECHNOLOGY"
type_value fingerprint = "FINGERPRINT"
type_value javascript = "JAVASCRIPT"
type_value api_endpoint = "API_ENDPOINT"
type_value parameter_name = "PARAMETER_NAME"
type_value artifact = "ARTIFACT"
type_value mobile_artifact = "MOBILE_ARTIFACT"
type_value project_name = "PROJECT_NAME"
type_value vocab_token = "VOCAB_TOKEN"
type_value naming_pattern = "NAMING_PATTERN"
type_value vulnerability_candidate = "VULNERABILITY_CANDIDATE"
type_value vulnerability_finding = "VULNERABILITY_FINDING"
type_value relationship = "RELATIONSHIP"
type_value policy_block = "POLICY_BLOCK"
type_value human_review = "HUMAN_REVIEW"

abbrev type_rank : EventType → ℕ
type_rank root_domain = 0
type_rank dns_name = 1
type_rank dns_record = 2
type_rank ip_address = 3
type_rank asn = 4
type_rank cidr = 5
type_rank url = 6
type_rank url_path = 7
type_rank http_service = 8
type_rank http_response = 9
type_rank certificate = 10
type_rank cert_san = 11
type_rank favicon = 12
type_rank technology = 13
type_rank fingerprint = 14
type_rank javascript = 15
type_rank api_endpoint = 16
type_rank parameter_name = 17
type_rank artifact = 18
type_rank mobile_artifact = 19
type_rank project_name = 20
type_rank vocab_token = 21
type_rank naming_pattern = 22
type_rank vulnerability_candidate = 23
type_rank vulnerability_finding = 24
type_rank relationship = 25
type_rank policy_block = 26
type_rank human_review = 27

abbrev nth_type : ℕ → List EventType → EventType
nth_type n [] = human_review
nth_type zero (t ∷ ts) = t
nth_type (suc n) (t ∷ ts) = nth_type n ts

abbrev type_at : ℕ → EventType
type_at n = nth_type n (
    root_domain ∷ dns_name ∷ dns_record ∷ ip_address ∷ asn ∷ cidr ∷ url ∷ url_path ∷ http_service
    ∷ http_response ∷ certificate ∷ cert_san ∷ favicon ∷ technology ∷ fingerprint ∷ javascript
    ∷ api_endpoint ∷ parameter_name ∷ artifact ∷ mobile_artifact ∷ project_name ∷ vocab_token
    ∷ naming_pattern ∷ vulnerability_candidate ∷ vulnerability_finding ∷ relationship ∷ policy_block
    ∷ human_review ∷ [])

type_at-type_rank : (t : EventType) → type_at (type_rank t) ≡ t
type_at-type_rank root_domain = refl
type_at-type_rank dns_name = refl
type_at-type_rank dns_record = refl
type_at-type_rank ip_address = refl
type_at-type_rank asn = refl
type_at-type_rank cidr = refl
type_at-type_rank url = refl
type_at-type_rank url_path = refl
type_at-type_rank http_service = refl
type_at-type_rank http_response = refl
type_at-type_rank certificate = refl
type_at-type_rank cert_san = refl
type_at-type_rank favicon = refl
type_at-type_rank technology = refl
type_at-type_rank fingerprint = refl
type_at-type_rank javascript = refl
type_at-type_rank api_endpoint = refl
type_at-type_rank parameter_name = refl
type_at-type_rank artifact = refl
type_at-type_rank mobile_artifact = refl
type_at-type_rank project_name = refl
type_at-type_rank vocab_token = refl
type_at-type_rank naming_pattern = refl
type_at-type_rank vulnerability_candidate = refl
type_at-type_rank vulnerability_finding = refl
type_at-type_rank relationship = refl
type_at-type_rank policy_block = refl
type_at-type_rank human_review = refl

unfoldable pub type_beq : EventType → EventType → Bool
type_beq a b = eqb (type_rank a) (type_rank b)

pub type_beq_iff : (a b : EventType) → (type_beq a b ≡ true) ↔ (a ≡ b)
unfolding type_beq
type_beq_iff a b = (
  (λ same.
      sym (type_at-type_rank a)
      ∙ ap type_at ((eqb_iff (type_rank a) (type_rank b)).0 same)
      ∙ type_at-type_rank b),
  λ e. (eqb_iff (type_rank a) (type_rank b)).1 (ap type_rank e),
)

instance abbrev pub type_eq : Eq EventType
type_eq = record { beq = type_beq; beq_iff = type_beq_iff }

pub data ScopeState : Type 0 where
  unknown in_scope out_of_scope passive_only ambiguous : ScopeState

pub record Event : Type 0 where
  pub event_id : String
  pub event_type : EventType
  pub value : String
  pub source : String
  pub parent_event_id : Option String
  pub first_seen : ℕ
  pub last_seen : ℕ
  pub scope_state : ScopeState
  pub confidence : ℕ
  pub novelty : ℕ
  pub depth : ℕ
  pub tags : List String

-- `Event.must_not_be_blank`
unfoldable pub must_not_be_blank : String → Result String
must_not_be_blank value =
    let normalized = strip value in if is_blank normalized then err value_error else ok normalized

-- `Event.identity_key`
unfoldable pub identity_key : Event → String
identity_key e = str_append (type_value e.event_type) (str_append ":" e.value)

-- `Event.touch`, at the moment given or now
unfoldable pub touch : Option ℕ → ℕ → Event → Event
touch none now e = record e { last_seen = now }
touch (some seen_at) now e = record e { last_seen = seen_at }

-- `Event.add_tag`
unfoldable pub add_tag : String → Event → Event
add_tag tag e =
    let normalized = lower (strip tag) in
    if is_blank normalized
    then e
    else if member normalized e.tags
    then e
    else record e { tags = e.tags ++ (normalized ∷ []) }
