-- ===== src/Reviews/Model.antt =====
-- The data of recon/policy/review_gate.py and its validators. Confidences are fixed-point numbers.
use Prim.Native.String
use night_scout.Prelude.{
  ℕ, String, ◌≡◌, ◌↔◌, arith, Bool, true, false, not, Option, none, some, List, [], ◌∷◌, map, keep,
  if◌then◌else◌, Eq, eqb, leb, ltb, string_eq,
}
use night_scout.Prelude.Dict
use night_scout.Prelude.Dict.{Dict}
use night_scout.Prelude.Sets.{member, set_of}
use night_scout.Prelude.Sort.{sort, leb_text}
use night_scout.Prelude.Text.{strip, strip_or_none, is_blank, lower}
use night_scout.Prelude.Exec.{value_error, Result, ok, err}
use night_scout.Queue.Task.{is_some}

pub data ReviewCategory : Type 0 where
  possible_secret private_data auth_boundary scope_ambiguity policy_ambiguity high_impact_surface
        sensitive_artifact unknown_sensitive_content :
      ReviewCategory

-- `category.value`
abbrev pub category_value : ReviewCategory → String
category_value ReviewCategory.possible_secret = "POSSIBLE_SECRET"
category_value ReviewCategory.private_data = "PRIVATE_DATA"
category_value ReviewCategory.auth_boundary = "AUTH_BOUNDARY"
category_value ReviewCategory.scope_ambiguity = "SCOPE_AMBIGUITY"
category_value ReviewCategory.policy_ambiguity = "POLICY_AMBIGUITY"
category_value ReviewCategory.high_impact_surface = "HIGH_IMPACT_SURFACE"
category_value ReviewCategory.sensitive_artifact = "SENSITIVE_ARTIFACT"
category_value ReviewCategory.unknown_sensitive_content = "UNKNOWN_SENSITIVE_CONTENT"

-- the place of a category in its enumeration
abbrev pub category_rank : ReviewCategory → ℕ
category_rank ReviewCategory.possible_secret = 0
category_rank ReviewCategory.private_data = 1
category_rank ReviewCategory.auth_boundary = 2
category_rank ReviewCategory.scope_ambiguity = 3
category_rank ReviewCategory.policy_ambiguity = 4
category_rank ReviewCategory.high_impact_surface = 5
category_rank ReviewCategory.sensitive_artifact = 6
category_rank ReviewCategory.unknown_sensitive_content = 7

category_rank-injective : (a b : ReviewCategory) → category_rank a ≡ category_rank b → a ≡ b
category_rank-injective a b h = ground arith

unfoldable pub category_beq : ReviewCategory → ReviewCategory → Bool
category_beq a b = eqb (category_rank a) (category_rank b)

pub category_beq_iff : (a b : ReviewCategory) → (category_beq a b ≡ true) ↔ (a ≡ b)
unfolding category_beq
category_beq_iff a b = ground (arith, category_rank-injective a b)

instance abbrev pub category_eq : Eq ReviewCategory
category_eq = record { beq = category_beq; beq_iff = category_beq_iff }

pub data ReviewSeverity : Type 0 where
  low medium high critical : ReviewSeverity

-- `int(severity)`
abbrev pub severity_value : ReviewSeverity → ℕ
severity_value ReviewSeverity.low = 10
severity_value ReviewSeverity.medium = 20
severity_value ReviewSeverity.high = 30
severity_value ReviewSeverity.critical = 40

pub data ReviewCaseState : Type 0 where
  still_open approved blocked dismissed : ReviewCaseState

abbrev pub is_open : ReviewCaseState → Bool
is_open ReviewCaseState.still_open = true
is_open _ = false

abbrev pub is_approved : ReviewCaseState → Bool
is_approved ReviewCaseState.approved = true
is_approved _ = false

pub record ReviewSignal : Type 0 where
  pub category : ReviewCategory
  pub severity : ReviewSeverity
  pub confidence : ℕ
  pub summary : String
  pub source_event_id : Option String
  pub evidence_fingerprint : Option String
  pub tags : List String

-- `ReviewSignal.normalize_optional_text`
unfoldable pub normalize_optional_text : Option String → Option String
normalize_optional_text none = none
normalize_optional_text (some value) = strip_or_none value

-- `ReviewSignal.normalize_tags`
unfoldable pub normalize_tags : List String → List String
normalize_tags value =
    set_of (map (λ tag. lower (strip tag)) (keep (λ tag. not (is_blank (strip tag))) value))

-- the validators of `ReviewSignal`
unfoldable pub make_signal : ReviewSignal → Result ReviewSignal
make_signal signal =
    let summary = strip signal.summary in
    if is_blank summary
    then err value_error
    else ok (record signal {
      summary = summary;
      source_event_id = normalize_optional_text signal.source_event_id;
      evidence_fingerprint = normalize_optional_text signal.evidence_fingerprint;
      tags = normalize_tags signal.tags;
    })

-- `separator.join(texts)`
unfoldable pub join : String → List String → String
join separator [] = ""
join separator (text ∷ []) = text
join separator (text ∷ next ∷ texts) =
    let rest = join separator (next ∷ texts) in String.◌++◌ text (String.◌++◌ separator rest)

-- `text or ""`
abbrev pub or_empty : Option String → String
or_empty none = ""
or_empty (some text) = text

-- `ReviewSignal.stable_fingerprint`; `sha256` stands for hashlib's, in hexadecimal
unfoldable pub stable_fingerprint : (String → String) → ReviewSignal → String
stable_fingerprint sha256 signal = elim (signal.evidence_fingerprint) [
  | some fingerprint ↦ fingerprint
  | none ↦ sha256 (
      join "|" (
        category_value signal.category
        ∷ or_empty signal.source_event_id
        ∷ signal.summary
        ∷ join "," (sort leb_text signal.tags)
        ∷ []))
]

pub record ReviewPolicy : Type 0 where
  pub review_categories : List ReviewCategory
  pub minimum_confidence : ℕ
  pub category_minimum_confidence : Dict ReviewCategory ℕ
  pub minimum_severity : ReviewSeverity

-- `ReviewPolicy.requires_review`
unfoldable pub requires_review : ReviewPolicy → ReviewSignal → Bool
requires_review policy signal =
    if not (member signal.category policy.review_categories)
    then false
    else if ltb (severity_value signal.severity) (severity_value policy.minimum_severity)
    then false
    else leb
        (Dict.get_or policy.category_minimum_confidence signal.category policy.minimum_confidence)
        signal.confidence

pub record ReviewCase : Type 0 where
  pub case_id : String
  pub task_id : String
  pub worker : String
  pub action : String
  pub input_event_id : String
  pub signal_fingerprints : List String
  pub categories : List ReviewCategory
  pub summaries : List String
  pub state : ReviewCaseState
  pub opened_at : ℕ
  pub resolved_at : Option ℕ
  pub resolution_reason : Option String

-- `ReviewCase.validate_case_state`
unfoldable pub validate_case_state : ReviewCase → Result ReviewCase
validate_case_state c = elim (c.signal_fingerprints) [
  | [] ↦ err value_error
  | f ∷ fs ↦ elim (c.categories) [
    | [] ↦ err value_error
    | k ∷ ks ↦
        if is_open c.state
        then if is_some c.resolved_at then err value_error else ok c
        else if not (is_some c.resolved_at)
        then err value_error
        else ok c
  ]
]
