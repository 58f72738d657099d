-- ===== src/Reviews/Cases.antt =====
-- What the review store (recon/policy/review_gate.py) keeps of a case and when a task passes its gate.
use night_scout.Prelude.{
  ℕ, String, ◌≡◌, refl, sym, ap, subst, ◌∙◌, ◌⊎◌, inl, inr, Bool, true, some, List, [], ◌∷◌, All,
  arith, keep, ==_iff, string_eq, option_eq, Bool-cases, Option-cases, leb,
}
use night_scout.Prelude.Dict
use night_scout.Prelude.Dict.{Dict, get-put, get-remove, All-values}
use night_scout.Prelude.Sort.{All-sort}
use night_scout.Prelude.Exec.{value_error, Result, ok, err}
use night_scout.Queue.Task.{Task}
use night_scout.Reviews.Model.{
  ReviewCaseState, is_open, ReviewSignal, ReviewCase, validate_case_state,
}
use night_scout.Reviews.Store.{
  ReviewStore, fingerprints_of, review_dedupe_key, new_case, add_case, forget_key, open_case_at,
  open_or_get, settled_at, same_texts, is_approval, first, approved_for_task,
}

-- A validated case is as it was.
pub validate_case_state-cases :
    (c : ReviewCase) → (validate_case_state c ≡ ok c) ⊎ (validate_case_state c ≡ err value_error)
unfolding validate_case_state
validate_case_state-cases c = ground arith

-- what an answer with its store says of the case under a key
answered :
    (key : String) (b c : ReviewCase) (s t : ReviewStore)
    → open_case_at s key ≡ some b
    → ◌≡◌ {A = Result ReviewCase × ReviewStore} (ok b, s) (ok c, t)
    → open_case_at t key ≡ some c
answered key b c s t at same =
    let states = ap (λ (x : Result ReviewCase × ReviewStore). x.1) same in
    let cases = ap (λ (x : Result ReviewCase × ReviewStore). x.0) same in
    let inner : b ≡ c = ground (arith, cases) in
    ap (λ z. open_case_at z key) (sym states) ∙ at ∙ ap some inner

-- a new case is the open case under its key
added :
    (key : String) (c : ReviewCase) (s : ReviewStore)
    → is_open c.state ≡ true
    → open_case_at
        (record {
          cases = Dict.put s.cases c.case_id c;
          open_keys = Dict.put s.open_keys key c.case_id;
        })
        key
      ≡ some c
unfolding open_case_at
added key c s opens =
    let keyed = get-put s.open_keys key key c.case_id in
    let stored = get-put s.cases c.case_id c.case_id c in
    ground (arith, keyed, stored, ==_iff key key, ==_iff c.case_id c.case_id, opens)

module _ (sha256 : String → String) (task : Task) where
  open_or_get-open :
      (signal : ReviewSignal) (signals : List ReviewSignal) (id : String) (now : ℕ)
      (s t : ReviewStore) (c : ReviewCase)
      → open_or_get sha256 task (signal ∷ signals) id now s ≡ (ok c, t)
      → open_case_at t
          (review_dedupe_key sha256 task.task_id (fingerprints_of sha256 (signal ∷ signals)))
        ≡ some c
  unfolding open_or_get add_case
  open_or_get-open signal signals id now s t c h =
      let fingerprints = fingerprints_of sha256 (signal ∷ signals) in
      let key = review_dedupe_key sha256 task.task_id fingerprints in
      let made = new_case task (signal ∷ signals) fingerprints id now in
      elim (Option-cases (open_case_at s key)) [
        | inr (existing, there) ↦ answered key existing c s t there (rw (there, open_or_get) at h)
        | inl missing ↦ elim (validate_case_state-cases made) [
          | inr bad ↦
              let raised = rw (missing, bad, open_or_get, add_case) at h in
              absurd (ground (arith, raised))
          | inl fine ↦
              answered key made c _ t (added key made (forget_key key s) refl)
                (rw (missing, fine, open_or_get, add_case) at h)
        ]
      ]

  -- Opening a review again for the same task and signals, later and with another identifier at hand,
  -- returns the same case and changes nothing.
  pub open_or_get-open_or_get :
      (signals : List ReviewSignal) (id later_id : String) (now later : ℕ) (s t : ReviewStore)
      (c : ReviewCase)
      → open_or_get sha256 task signals id now s ≡ (ok c, t)
      → open_or_get sha256 task signals later_id later t ≡ (ok c, t)
  unfolding open_or_get
  open_or_get-open_or_get [] id later_id now later s t c h = absurd (ground (arith, h))
  open_or_get-open_or_get (signal ∷ signals) id later_id now later s t c h =
      rw (open_or_get-open signal signals id now s t c h, open_or_get) refl

-- `keep` keeps what passes the test.
All-keep :
    (P : ReviewCase → Type 0) (p : ReviewCase → Bool) (cs : List ReviewCase)
    → All P cs
    → All (λ c. P c × (p c ≡ true)) (keep p cs)
All-keep P p [] h = tt
All-keep P p (c ∷ cs) h = elim (Bool-cases (p c)) [
  | inl passes ↦ rw passes ((h.0, passes), All-keep P p cs h.1)
  | inr fails ↦ rw fails (All-keep P p cs h.1)
]

first-All :
    (P : ReviewCase → Type 0) (cs : List ReviewCase) (c : ReviewCase)
    → All P cs
    → first cs ≡ some c
    → P c
first-All P [] c h is = absurd (ground (arith, is))
first-All P (b ∷ cs) c h is = let same : b ≡ c = ground (arith, is) in subst P same h.0

same_texts-eq : (xs ys : List String) → same_texts xs ys ≡ true → xs ≡ ys
unfolding same_texts
same_texts-eq [] [] h = refl
same_texts-eq (x ∷ xs) (y ∷ ys) h =
    let rest = same_texts-eq xs ys (ground arith) in ground (arith, ==_iff x y, rest, h)
same_texts-eq [] (y ∷ ys) h = absurd (ground arith)
same_texts-eq (x ∷ xs) [] h = absurd (ground arith)

-- An approval that is found is a stored case of the task, APPROVED, over exactly the fingerprints asked for.
pub approved_for_task-stored :
    (task_id : String) (fingerprints : List String) (s : ReviewStore) (c : ReviewCase)
    → Dict.IsDistinct s.cases
    → approved_for_task task_id (some fingerprints) s ≡ some c
    → (id : String) × (Dict.get s.cases id ≡ some c)
      × (c.task_id ≡ task_id)
      × (c.state ≡ ReviewCaseState.approved)
      × (c.signal_fingerprints ≡ fingerprints)
unfolding approved_for_task
approved_for_task-stored task_id fingerprints s c u h =
    let Stored = λ (b : ReviewCase). (id : String) × (Dict.get s.cases id ≡ some b) in
    let stored = All-values Stored s.cases u (λ id b at. (id, at)) in
    let kept =
      All-keep Stored (is_approval task_id (some fingerprints)) (Dict.values s.cases) stored in
    let (where_at, tests) =
      first-All _ _ c (All-sort (λ a b. leb (settled_at b) (settled_at a)) _ _ kept) h in
    (
      where_at.0,
      where_at.1,
      ground (arith, tests, ==_iff c.task_id task_id),
      ground (arith, tests),
      same_texts-eq c.signal_fingerprints fingerprints (ground (arith, tests)),
    )
