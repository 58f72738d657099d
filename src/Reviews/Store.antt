-- ===== src/Reviews/Store.antt =====
-- `InMemoryReviewCaseStore` (recon/policy/review_gate.py). Each method runs under the store's lock, so a
-- method is one step. The clock, a new case's identifier and hashlib's SHA-256 are arguments.
use night_scout.Prelude.{
  ℕ, String, Bool, true, false, not, Option, none, some, List, [], ◌∷◌, map, keep, if◌then◌else◌,
  leb, ltb, ◌==◌, ◌&&◌, ◌||◌, eqb, string_eq, option_eq,
}
use night_scout.Prelude.Dict
use night_scout.Prelude.Dict.{Dict}
use night_scout.Prelude.Sets.{member, set_of}
use night_scout.Prelude.Sort.{sort, leb_text}
use night_scout.Prelude.Exec.{value_error, key_error, Result, ok, err, Exec, check}
use night_scout.Queue.Task.{Task}
use night_scout.Reviews.Model.{
  category_value, category_eq, ReviewCaseState, is_open, is_approved, ReviewSignal,
  normalize_optional_text, join, stable_fingerprint, ReviewCase, validate_case_state,
}

pub record ReviewStore : Type 0 where
  pub cases : Dict String ReviewCase
  pub open_keys : Dict String String

-- `tuple(sorted({signal.stable_fingerprint for signal in signals}))`
abbrev pub fingerprints_of : (String → String) → List ReviewSignal → List String
fingerprints_of sha256 signals = sort leb_text (set_of (map (stable_fingerprint sha256) signals))

-- `_review_dedupe_key`
abbrev pub review_dedupe_key : (String → String) → String → List String → String
review_dedupe_key sha256 task_id fingerprints = sha256 (join "|" (task_id ∷ fingerprints))

-- `dict.fromkeys(texts)`: each text once, at its first place
unfoldable pub first_places : List String → List String → List String
first_places seen [] = []
first_places seen (text ∷ texts) =
    let skip = first_places seen texts in
    let take = text ∷ first_places (text ∷ seen) texts in if member text seen then skip else take

abbrev pub new_case : Task → List ReviewSignal → List String → String → ℕ → ReviewCase
new_case task signals fingerprints id now = record {
  case_id = id;
  task_id = task.task_id;
  worker = task.worker;
  action = task.action;
  input_event_id = task.input_event_id;
  signal_fingerprints = fingerprints;
  categories =
      sort (λ a b. leb_text (category_value a) (category_value b))
        (set_of (map (λ (signal : ReviewSignal). signal.category) signals));
  summaries = first_places [] (map (λ (signal : ReviewSignal). signal.summary) signals);
  state = ReviewCaseState.still_open;
  opened_at = now;
  resolved_at = none;
  resolution_reason = none;
}

-- the case is stored and its key points to it
unfoldable pub add_case : String → ReviewCase → Exec ReviewStore ReviewCase
add_case key c s =
    check (validate_case_state c)
      (λ c t. (
        ok c,
        record {
          cases = Dict.put t.cases c.case_id c;
          open_keys = Dict.put t.open_keys key c.case_id;
        },
      ))
      s

-- `self._open_keys.pop(key, None)`
abbrev pub forget_key : String → ReviewStore → ReviewStore
forget_key key s = record s { open_keys = Dict.remove s.open_keys key }

-- the open case under the key, if there is one
unfoldable pub open_case_at : ReviewStore → String → Option ReviewCase
open_case_at s key = elim (Dict.get s.open_keys key) [
  | none ↦ none
  | some id ↦ elim (Dict.get s.cases id) [
    | none ↦ none
    | some existing ↦ if is_open existing.state then some existing else none
  ]
]

unfoldable pub open_or_get :
    (String → String) → Task → List ReviewSignal → String → ℕ → Exec ReviewStore ReviewCase
open_or_get sha256 task [] id now s = (err value_error, s)
open_or_get sha256 task (signal ∷ signals) id now s =
    let fingerprints = fingerprints_of sha256 (signal ∷ signals) in
    let key = review_dedupe_key sha256 task.task_id fingerprints in
    elim (open_case_at s key) [
      | some existing ↦ (ok existing, s)
      | none ↦
          add_case key (new_case task (signal ∷ signals) fingerprints id now) (forget_key key s)
    ]

-- `case.opened_at, case.case_id` in order
abbrev pub opened_before : ReviewCase → ReviewCase → Bool
opened_before a b =
    ltb a.opened_at b.opened_at || (eqb a.opened_at b.opened_at && leb_text a.case_id b.case_id)

unfoldable pub open_cases : ReviewStore → List ReviewCase
open_cases s = sort opened_before (keep (λ c. is_open c.state) (Dict.values s.cases))

-- `case.resolved_at or case.opened_at`
abbrev pub settled_at : ReviewCase → ℕ
settled_at c = elim (c.resolved_at) [ none ↦ c.opened_at | some at ↦ at ]

-- `signal_fingerprints is None or case.signal_fingerprints == signal_fingerprints`
unfoldable pub same_texts : List String → List String → Bool
same_texts [] [] = true
same_texts (a ∷ xs) (b ∷ ys) = a == b && same_texts xs ys
same_texts _ _ = false

abbrev pub is_about : Option (List String) → ReviewCase → Bool
is_about none c = true
is_about (some fingerprints) c = same_texts c.signal_fingerprints fingerprints

abbrev pub is_approval : String → Option (List String) → ReviewCase → Bool
is_approval task_id fingerprints c =
    c.task_id == task_id && is_approved c.state && is_about fingerprints c

abbrev pub first : List ReviewCase → Option ReviewCase
first [] = none
first (c ∷ cs) = some c

unfoldable pub approved_for_task : String → Option (List String) → ReviewStore → Option ReviewCase
approved_for_task task_id fingerprints s = first (
    sort (λ a b. leb (settled_at b) (settled_at a))
      (keep (is_approval task_id fingerprints) (Dict.values s.cases)))

-- `if self._open_keys.get(key) == case_id: self._open_keys.pop(key, None)`
abbrev pub close_key : String → String → ReviewStore → ReviewStore
close_key key id s =
    let forgotten = forget_key key s in if Dict.get s.open_keys key == some id then forgotten else s

abbrev pub resolved : ReviewCaseState → Option String → ℕ → ReviewCase → ReviewCase
resolved state reason now c = record c {
  state = state;
  resolved_at = some now;
  resolution_reason = normalize_optional_text reason;
}

-- the case that `resolve` settles
unfoldable pub case_to_resolve : ReviewCaseState → Option ReviewCase → Result ReviewCase
case_to_resolve state none = if is_open state then err value_error else err key_error
case_to_resolve state (some c) =
    if is_open state
    then err value_error
    else if not (is_open c.state)
    then err value_error
    else ok c

unfoldable pub resolve :
    (String → String) → String → ReviewCaseState → Option String → ℕ → Exec ReviewStore ReviewCase
resolve sha256 id state reason now s =
    check (case_to_resolve state (Dict.get s.cases id))
      (λ c t.
        let after = resolved state reason now c in
        (
          ok after,
          close_key (review_dedupe_key sha256 c.task_id c.signal_fingerprints) id
              (record t { cases = Dict.put t.cases id after }),
        ))
      s
