-- ===== src/Reviews/Settled.antt =====
-- A review case is resolved once (recon/policy/review_gate.py).
use night_scout.Prelude.{
  ℕ, String, ◌≡◌, refl, ap, ◌∙◌, inl, inr, false, Option, none, some, List, [], ◌∷◌, arith, ◌==◌,
  ==_iff, string_eq, option_eq, Bool-cases, Option-cases,
}
use night_scout.Prelude.Dict
use night_scout.Prelude.Dict.{Dict, get-put}
use night_scout.Prelude.Exec.{ok, Result-cases}
use night_scout.Queue.Task.{Task}
use night_scout.Reviews.Model.{ReviewCaseState, is_open, ReviewSignal, ReviewCase}
use night_scout.Reviews.Store.{
  ReviewStore, fingerprints_of, review_dedupe_key, new_case, add_case, open_case_at, open_or_get,
  close_key, resolved, case_to_resolve, resolve,
}
use night_scout.Reviews.Cases.{validate_case_state-cases}

-- A call of the store, with the new identifier and the moment that it meets.
pub data Command : Type 0 where
  open_call : (task : Task) (signals : List ReviewSignal) (id : String) (now : ℕ) → Command
  resolve_call :
      (id : String) (state : ReviewCaseState) (reason : Option String) (now : ℕ) → Command

-- the store after a call, whether it returned or raised
unfoldable pub run : (String → String) → Command → ReviewStore → ReviewStore
run sha256 (open_call task signals id now) s = (open_or_get sha256 task signals id now s).1
run sha256 (resolve_call id state reason now) s = (resolve sha256 id state reason now s).1

-- the identifier of a new case is new, as `uuid4` makes it
abbrev pub IsFresh : Command → ReviewStore → Type 0
IsFresh (open_call task signals id now) s = Dict.get s.cases id ≡ none
IsFresh (resolve_call id state reason now) s = Unit

module _ (sha256 : String → String) (s : ReviewStore) (k : String) (c : ReviewCase)
    (at : Dict.get s.cases k ≡ some c) where
  open_or_get-keeps :
      (task : Task) (signals : List ReviewSignal) (id : String) (now : ℕ)
      → Dict.get s.cases id ≡ none
      → Dict.get (open_or_get sha256 task signals id now s).1.cases k ≡ some c
  unfolding open_or_get add_case
  open_or_get-keeps task [] id now new = at
  open_or_get-keeps task (signal ∷ signals) id now new =
      let fingerprints = fingerprints_of sha256 (signal ∷ signals) in
      let key = review_dedupe_key sha256 task.task_id fingerprints in
      let made = new_case task (signal ∷ signals) fingerprints id now in
      elim (Option-cases (open_case_at s key)) [
        | inr (existing, there) ↦ rw (there, open_or_get) at
        | inl missing ↦ elim (validate_case_state-cases made) [
          | inr bad ↦ rw (missing, bad, open_or_get, add_case) at
          | inl fine ↦
              rw (missing, fine, open_or_get, add_case)
                (ground (arith, get-put s.cases id k made, ==_iff id k, at, new))
        ]
      ]

  close_key-cases : (key id : String) (t : ReviewStore) → (close_key key id t).cases ≡ t.cases
  close_key-cases key id t = elim (Bool-cases (Dict.get t.open_keys key == some id)) [
    | inl points ↦ rw points refl
    | inr other ↦ rw other refl
  ]

  -- the case that is resolved is another one
  other_case :
      (state : ReviewCaseState) (b : ReviewCase) (id : String)
      → is_open c.state ≡ false
      → case_to_resolve state (Dict.get s.cases id) ≡ ok b
      → (id == k) ≡ false
  unfolding case_to_resolve
  other_case state b id over found = elim (Bool-cases (id == k)) [
    | inr other ↦ other
    | inl same ↦
        let there : Dict.get s.cases id ≡ some c = ground (arith, same, ==_iff id k, at) in
        let raises = rw (there, over, case_to_resolve) at found in absurd (ground (arith, raises))
  ]

  resolve-keeps :
      (id : String) (state : ReviewCaseState) (reason : Option String) (now : ℕ)
      → is_open c.state ≡ false
      → Dict.get (resolve sha256 id state reason now s).1.cases k ≡ some c
  unfolding resolve case_to_resolve
  resolve-keeps id state reason now over =
      elim (Result-cases (case_to_resolve state (Dict.get s.cases id))) [
        | inr (e, raises) ↦ rw (raises, resolve) at
        | inl (b, found) ↦
            let after = resolved state reason now b in
            let key = review_dedupe_key sha256 b.task_id b.signal_fingerprints in
            rw (found, resolve)
              (ap (λ d. Dict.get d k)
                  (close_key-cases key id (record s { cases = Dict.put s.cases id after }))
                ∙ ground (arith, get-put s.cases id k after, at, other_case state b id over found))
      ]

-- A review case that was resolved stays exactly as it is, whatever call is made of the store: no later call
-- resolves it again or opens it. A new case's identifier must be new.
pub resolved_once :
    (sha256 : String → String) (command : Command) (s : ReviewStore) (k : String) (c : ReviewCase)
    → IsFresh command s
    → Dict.get s.cases k ≡ some c
    → is_open c.state ≡ false
    → Dict.get (run sha256 command s).cases k ≡ some c
unfolding run
resolved_once sha256 (open_call task signals id now) s k c new at over =
    open_or_get-keeps sha256 s k c at task signals id now new
resolved_once sha256 (resolve_call id state reason now) s k c new at over =
    resolve-keeps sha256 s k c at id state reason now over
