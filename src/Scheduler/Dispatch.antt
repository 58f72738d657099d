-- ===== src/Scheduler/Dispatch.antt =====
-- What `_select_ranked_batch` (recon/core/scheduler.py) promises to its callers.
use night_scout.Prelude.{
  ℕ, ◌≤◌, String, ◌≡◌, refl, sym, ap, subst, ◌∙◌, ◌⊎◌, inl, inr, true, not, some, List, [], ◌∷◌,
  ◌++◌, ◌==◌, ==_iff, arith, length, All, keep, string_eq, Bool-cases,
}
use night_scout.Prelude.Dict
use night_scout.Prelude.Dict.{Dict, get-put, get-empty}
use night_scout.Prelude.Sets.{member, member-append}
use night_scout.Scheduler.Batch.{
  ScheduleDecision, Groups, queue_of, add_decision, group, rounds, start_of, select_ranked_batch,
}
use night_scout.Scheduler.Rounds.{of_worker, of_worker-append, IsFair}
use night_scout.Scheduler.Selection.{IsStuck, rounds_lem}

-- the decisions whose workers are not excluded
abbrev pub permitted : List String → List ScheduleDecision → List ScheduleDecision
permitted excluded ranked = keep (λ d. not (member d.worker excluded)) ranked

append_nil : (xs : List ScheduleDecision) → xs ++ [] ≡ xs
append_nil [] = refl
append_nil (x ∷ xs) = ap (λ l. x ∷ l) (append_nil xs)

append_assoc : (xs ys zs : List ScheduleDecision) → (xs ++ ys) ++ zs ≡ xs ++ (ys ++ zs)
append_assoc [] ys zs = refl
append_assoc (x ∷ xs) ys zs = ap (λ l. x ∷ l) (append_assoc xs ys zs)

nothing_left : (xs ys : List ScheduleDecision) → xs ++ ys ≡ [] → xs ≡ []
nothing_left [] ys h = refl
nothing_left (x ∷ xs) ys h = absurd (ground (arith, h))

All-member :
    (P : String → Type 0) (x : String) (xs : List String) → All P xs → member x xs ≡ true → P x
All-member P x [] h inside = absurd (ground arith)
All-member P x (y ∷ ys) h inside = elim (Bool-cases (x == y)) [
  | inl same ↦ subst P (sym ((==_iff x y).0 same)) h.0
  | inr other ↦ All-member P x ys h.1 (ground (arith, inside, other))
]

-- `worker_order` has the workers that have a queue
IsListed : Groups → Type 0
IsListed g = (w : String) → Dict.contains g.queues w ≡ member w g.worker_order

add_decision-IsListed :
    (d : ScheduleDecision) (g : Groups) → IsListed g → IsListed (add_decision d g)
unfolding add_decision IsListed
add_decision-IsListed d g h w = ground (
  arith,
  get-put g.queues d.worker w (queue_of g.queues d.worker ++ (d ∷ [])),
  h w,
  h d.worker,
  member-append w g.worker_order (d.worker ∷ []),
  ==_iff d.worker w,
  ==_iff w d.worker,
)

add_decision-queue :
    (d : ScheduleDecision) (g : Groups) (w : String)
    → queue_of (add_decision d g).queues w ≡ queue_of g.queues w ++ of_worker w (d ∷ [])
unfolding add_decision
add_decision-queue d g w = elim (Bool-cases (d.worker == w)) [
  | inl same ↦
      let is : queue_of g.queues d.worker ≡ queue_of g.queues w =
        ap (queue_of g.queues) ((==_iff d.worker w).0 same) in
      ground (arith, get-put g.queues d.worker w (queue_of g.queues d.worker ++ (d ∷ [])), same, is)
  | inr other ↦ ground (
    arith,
    get-put g.queues d.worker w (queue_of g.queues d.worker ++ (d ∷ [])),
    other,
    append_nil (queue_of g.queues w),
  )
]

group_lem :
    (excluded : List String) (ranked : List ScheduleDecision) (g : Groups)
    → IsListed g
    → IsListed (group excluded ranked g)
      × ((w : String)
          → queue_of (group excluded ranked g).queues w
            ≡ queue_of g.queues w ++ of_worker w (permitted excluded ranked))
unfolding group
group_lem excluded [] g h = (h, λ w. sym (append_nil (queue_of g.queues w)))
group_lem excluded (d ∷ ranked) g h = elim (Bool-cases (member d.worker excluded)) [
  | inl out ↦ rw (out, group) (group_lem excluded ranked g h)
  | inr in_use ↦
      let (listed, queued) =
        group_lem excluded ranked (add_decision d g) (add_decision-IsListed d g h) in
      rw (in_use, group)
        (
          listed,
          λ w.
              queued w
              ∙ ap (λ l. l ++ of_worker w (permitted excluded ranked)) (add_decision-queue d g w)
              ∙ append_assoc (queue_of g.queues w) (of_worker w (d ∷ []))
                  (of_worker w (permitted excluded ranked))
              ∙ ap (λ l. queue_of g.queues w ++ l)
                  (sym (of_worker-append w (d ∷ []) (permitted excluded ranked))),
        )
]

abbrev no_groups : Groups
no_groups = record { worker_order = []; queues = Dict.empty }

-- what is left of the permitted decisions, grouped
grouped : List String → List ScheduleDecision → Groups
grouped excluded ranked = group excluded ranked no_groups

grouped_lem :
    (excluded : List String) (ranked : List ScheduleDecision)
    → IsListed (grouped excluded ranked)
      × ((w : String)
          → queue_of (grouped excluded ranked).queues w ≡ of_worker w (permitted excluded ranked))
unfolding grouped IsListed
grouped_lem excluded ranked =
    let none_at = λ (w : String). get-empty {V = List ScheduleDecision} w in
    let (listed, queued) = group_lem excluded ranked no_groups (λ w. ground (arith, none_at w)) in
    (
      listed,
      λ w.
          let no_queue : queue_of no_groups.queues w ≡ [] = ground (arith, none_at w) in
          queued w ∙ ap (λ l. l ++ of_worker w (permitted excluded ranked)) no_queue,
    )

start_of-IsFair :
    (excluded : List String) (ranked : List ScheduleDecision) (capacities : Dict String ℕ)
    (limit : ℕ)
    → IsFair (permitted excluded ranked) capacities limit (start_of (grouped excluded ranked))
start_of-IsFair excluded ranked capacities limit = record {
  split = (grouped_lem excluded ranked).1;
  counted = λ w. ground (arith, get-empty {V = ℕ} w);
  capped = λ w c cap. ground (arith, get-empty {V = ℕ} w);
  bounded = omega arith;
}

-- The batch has at most `limit` decisions. Those of one worker are the first of its permitted decisions,
-- in their order, and no more than its capacity. If the batch has fewer than `limit` decisions, each
-- worker either has all of its permitted decisions in it or has used up its capacity.
pub select_ranked_batch_lem :
    (ranked : List ScheduleDecision) (limit : ℕ) (excluded : List String)
    (capacities : Dict String ℕ)
    → (let batch = select_ranked_batch ranked limit excluded capacities in
        (length batch ≤ limit)
        × ((w : String)
            → (rest : List ScheduleDecision) × (of_worker w batch ++ rest
                ≡ of_worker w (permitted excluded ranked)))
        × ((w : String) (c : ℕ) → Dict.get capacities w ≡ some c → length (of_worker w batch) ≤ c)
        × ((length batch ≡ limit)
            ⊎ ((w : String)
                → (of_worker w batch ≡ of_worker w (permitted excluded ranked))
                  ⊎ ((c : ℕ) × (Dict.get capacities w ≡ some c)
                      × (c ≤ length (of_worker w batch))))))
unfolding select_ranked_batch grouped IsListed
select_ranked_batch_lem ranked limit excluded capacities =
    let allowed = permitted excluded ranked in
    let g = grouped excluded ranked in
    let (listed, queued) = grouped_lem excluded ranked in
    let (f, ended) =
      rounds_lem allowed capacities limit limit g.worker_order (start_of g)
        (start_of-IsFair excluded ranked capacities limit) (omega arith) in
    let b = rounds limit limit capacities g.worker_order (start_of g) in
    (
      f.bounded,
      (λ w. (queue_of b.queues w, f.split w)),
      (λ w c cap. let bound = f.capped w c cap in omega (arith, f.counted w, bound)),
      (elim ended [
        | inl full ↦ inl full
        | inr stuck ↦ inr λ w. elim (Bool-cases (member w g.worker_order)) [
          | inl inside ↦
              elim (All-member (IsStuck allowed capacities limit b) w g.worker_order stuck inside) [
                | inl empty_queue ↦ inl (
                    sym (append_nil (of_worker w b.selected))
                    ∙ ap (λ l. of_worker w b.selected ++ l) (sym empty_queue)
                    ∙ f.split w)
                | inr (c, cap, bound) ↦ inr (c, cap, omega (arith, f.counted w, bound))
              ]
          | inr outside ↦
              let none_allowed : of_worker w allowed ≡ [] =
                sym (queued w) ∙ ground (arith, listed w, outside) in
              inl (
                nothing_left (of_worker w b.selected) (queue_of b.queues w)
                  (f.split w ∙ none_allowed)
                ∙ sym none_allowed)
        ]
      ]),
    )
