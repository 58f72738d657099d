-- ===== src/Scheduler/Rounds.antt =====
-- What the rounds of `_select_ranked_batch` (recon/core/scheduler.py) keep.
use night_scout.Prelude.{
  ℕ, ◌+◌, ◌≤◌, String, ◌≡◌, refl, sym, ap, subst, ◌∙◌, inl, inr, true, false, some, List, [], ◌∷◌,
  ◌++◌, ◌==◌, ==_iff, arith, length, length-append, All, keep, string_eq, if◌then◌else◌, Bool-cases,
}
use night_scout.Prelude.Dict
use night_scout.Prelude.Dict.{Dict, get-put}
use night_scout.Scheduler.Batch.{ScheduleDecision, Batch, queue_of, count_of, is_used_up}

-- the decisions of one worker, in their order
abbrev pub of_worker : String → List ScheduleDecision → List ScheduleDecision
of_worker worker ds = keep (λ d. d.worker == worker) ds

pub of_worker-append :
    (w : String) (ds es : List ScheduleDecision)
    → of_worker w (ds ++ es) ≡ of_worker w ds ++ of_worker w es
of_worker-append w [] es = refl
of_worker-append w (d ∷ ds) es = ground (arith, of_worker-append w ds es)

append_assoc : (xs ys zs : List ScheduleDecision) → (xs ++ ys) ++ zs ≡ xs ++ (ys ++ zs)
append_assoc [] ys zs = refl
append_assoc (x ∷ xs) ys zs = ap (λ l. x ∷ l) (append_assoc xs ys zs)

IsOwn : String → List ScheduleDecision → Type 0
IsOwn w ds = All (λ d. (d.worker == w) ≡ true) ds

IsOwn-of_worker : (w : String) (ds : List ScheduleDecision) → IsOwn w (of_worker w ds)
unfolding IsOwn
IsOwn-of_worker w [] = tt
IsOwn-of_worker w (d ∷ ds) = let ih = IsOwn-of_worker w ds in ground (arith, ih)

IsOwn-later :
    (w : String) (xs : List ScheduleDecision) (d : ScheduleDecision) (ys : List ScheduleDecision)
    → IsOwn w (xs ++ (d ∷ ys))
    → (d.worker == w) ≡ true
unfolding IsOwn
IsOwn-later w [] d ys h = h.0
IsOwn-later w (x ∷ xs) d ys h = IsOwn-later w xs d ys h.1

rejoined :
    (w : String) (d : ScheduleDecision) (q : List ScheduleDecision) (v : String)
    (old : List ScheduleDecision)
    → (w ≡ v → old ≡ d ∷ q)
    → {now new : List ScheduleDecision} → now ≡ (if w == v then d ∷ [] else [])
    → new ≡ (if w == v then q else old)
    → now ++ new ≡ old
rejoined w d q v old at {now} {new} d_at q_at = elim (Bool-cases (w == v)) [
  | inl same ↦
      let a : now ≡ d ∷ [] = ground (arith, d_at, same) in
      let b : new ≡ q = ground (arith, q_at, same) in rw (a, b) (sym (at ((==_iff w v).0 same)))
  | inr other ↦
      let a : now ≡ [] = ground (arith, d_at, other) in
      let b : new ≡ old = ground (arith, q_at, other) in rw (a, b) refl
]

size_of :
    (w v : String) (d : ScheduleDecision)
    → (w == v) ≡ true
    → length (if w == v then d ∷ [] else []) ≡ 1
size_of w v d same = rw same (omega arith)

no_size :
    (w v : String) (d : ScheduleDecision)
    → (w == v) ≡ false
    → length (if w == v then d ∷ [] else []) ≡ 0
no_size w v d other = rw other refl

module _ (allowed : List ScheduleDecision) (capacities : Dict String ℕ) (limit : ℕ) where
  pub record IsFair (b : Batch) : Type 0 where
    -- a worker's selected decisions and its queue make up its allowed decisions, in their order
    pub split : (w : String) → of_worker w b.selected ++ queue_of b.queues w ≡ of_worker w allowed
    pub counted : (w : String) → count_of b w ≡ length (of_worker w b.selected)
    pub capped : (w : String) (c : ℕ) → Dict.get capacities w ≡ some c → count_of b w ≤ c
    pub bounded : length b.selected ≤ limit

  unfoldable pub popped : String → ScheduleDecision → List ScheduleDecision → Batch → Batch
  popped w d q b = record {
    selected = b.selected ++ (d ∷ []);
    queues = Dict.put b.queues w q;
    selected_by_worker = Dict.put b.selected_by_worker w (count_of b w + 1);
  }

  pub popped-IsFair :
      (w : String) (d : ScheduleDecision) (q : List ScheduleDecision) (b : Batch)
      → IsFair b
      → queue_of b.queues w ≡ d ∷ q
      → is_used_up capacities w b ≡ false
      → length b.selected + 1 ≤ limit
      → IsFair (popped w d q b)
  unfolding popped is_used_up
  popped-IsFair w d q b f at free room =
      let own : (d.worker == w) ≡ true = IsOwn-later w (of_worker w b.selected) d q (
        subst (IsOwn w) (sym (f.split w) ∙ ap (λ l. of_worker w b.selected ++ l) at)
          (IsOwn-of_worker w allowed)) in
      let named : d.worker ≡ w = (==_iff d.worker w).0 own in
      let d_at = λ (v : String).
        subst (λ x. of_worker v (d ∷ []) ≡ (if x == v then d ∷ [] else [])) named refl in
      let q_at : (v : String)
          → queue_of (Dict.put b.queues w q) v ≡ (if w == v then q else queue_of b.queues v) =
        λ v. ground (arith, get-put b.queues w v q) in
      let c_at : (v : String)
          → count_of (popped w d q b) v ≡ (if w == v then count_of b w + 1 else count_of b v) =
        λ v. ground (arith, get-put b.selected_by_worker w v (count_of b w + 1)) in
      record {
        split = λ v.
            ap (λ l. l ++ queue_of (Dict.put b.queues w q) v)
              (of_worker-append v b.selected (d ∷ []))
            ∙ append_assoc (of_worker v b.selected) (of_worker v (d ∷ []))
                (queue_of (Dict.put b.queues w q) v)
            ∙ ap (λ l. of_worker v b.selected ++ l)
                (rejoined w d q v (queue_of b.queues v)
                  (λ is. subst (λ x. queue_of b.queues x ≡ d ∷ q) is at) (d_at v) (q_at v))
            ∙ f.split v;
        counted = λ v. c_at v ∙ (elim (Bool-cases (w == v)) [
          | inl same ↦
              let is : w ≡ v = (==_iff w v).0 same in
              let here =
                subst (λ x. count_of b x ≡ length (of_worker x b.selected)) (sym (sym is))
                  (f.counted w) in
              let moved : count_of b w ≡ count_of b v = ap (count_of b) is in
              let one = ap length (d_at v) in
              rw same (
                omega (
                  arith,
                  here,
                  moved,
                  ap length (of_worker-append v b.selected (d ∷ [])),
                  length-append (of_worker v b.selected) (of_worker v (d ∷ [])),
                  one,
                  size_of w v d same,
                ))
          | inr other ↦ rw other (
              omega (
                arith,
                f.counted v,
                ap length (of_worker-append v b.selected (d ∷ [])),
                length-append (of_worker v b.selected) (of_worker v (d ∷ [])),
                ap length (d_at v),
                no_size w v d other,
              ))
        ]);
        capped = λ v c cap. elim (Bool-cases (w == v)) [
          | inl same ↦
              let is : w ≡ v = (==_iff w v).0 same in
              let cap_w : Dict.get capacities w ≡ some c =
                subst (λ x. Dict.get capacities x ≡ some c) (sym is) cap in
              let under : count_of b w + 1 ≤ c = ground (arith, cap_w, free) in
              ground (arith, c_at v, same, under)
          | inr other ↦ let old = f.capped v c cap in ground (arith, c_at v, other, old)
        ];
        bounded = omega (arith, length-append b.selected (d ∷ []), room);
      }
