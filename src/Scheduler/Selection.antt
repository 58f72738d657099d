-- ===== src/Scheduler/Selection.antt =====
-- The batch that `_select_ranked_batch` (recon/core/scheduler.py) returns.
use night_scout.Prelude.{
  ℕ, zero, suc, ◌+◌, ◌≤◌, String, ◌≡◌, refl, ap, subst, ◌∙◌, ◌⊎◌, inl, inr, Bool, true, false, ◌||◌,
  ◌&&◌, some, List, [], ◌∷◌, arith, ltb, leb, length, length-append, All, string_eq, Bool-cases,
  Option-cases,
}
use night_scout.Prelude.Dict
use night_scout.Prelude.Dict.{Dict, get-put, get-empty}
use night_scout.Scheduler.Batch.{
  ScheduleDecision, Batch, queue_of, count_of, is_used_up, take_next, visit, round, rounds,
}
use night_scout.Scheduler.Rounds.{IsFair, popped, popped-IsFair}

used_up :
    (capacities : Dict String ℕ) (w : String) (b : Batch)
    → is_used_up capacities w b ≡ true
    → (c : ℕ) × (Dict.get capacities w ≡ some c) × (c ≤ count_of b w)
unfolding is_used_up
used_up capacities w b full = elim (Option-cases (Dict.get capacities w)) [
  | inl free ↦ absurd (ground (arith, full, free))
  | inr (c, cap) ↦ (c, cap, ground (arith, full, cap))
]

list_cases :
    (ds : List ScheduleDecision)
    → (ds ≡ []) ⊎ ((d : ScheduleDecision) × ((q : List ScheduleDecision) × (ds ≡ d ∷ q)))
list_cases [] = inl refl
list_cases (d ∷ q) = inr (d, (q, refl))

visit-full :
    (capacities : Dict String ℕ) (w : String) (b : Batch)
    → is_used_up capacities w b ≡ true
    → visit capacities w b ≡ (false, b)
unfolding visit
visit-full capacities w b full = rw full refl

visit-empty :
    (capacities : Dict String ℕ) (w : String) (b : Batch)
    → is_used_up capacities w b ≡ false
    → queue_of b.queues w ≡ []
    → visit capacities w b ≡ (false, b)
unfolding visit take_next
visit-empty capacities w b free at = rw (free, at, take_next) refl

visit-pops :
    (allowed : List ScheduleDecision) (capacities : Dict String ℕ) (limit : ℕ) (w : String)
    (b : Batch) (d : ScheduleDecision) (q : List ScheduleDecision)
    → is_used_up capacities w b ≡ false
    → queue_of b.queues w ≡ d ∷ q
    → visit capacities w b ≡ (true, popped allowed capacities limit w d q b)
unfolding visit take_next popped
visit-pops allowed capacities limit w b d q free at = rw (free, at, take_next) refl

round-none :
    (limit : ℕ) (capacities : Dict String ℕ) (a : Batch) → round limit capacities [] a ≡ (false, a)
unfolding round
round-none limit capacities a = refl

-- the turns of a round
module _ (limit : ℕ) (capacities : Dict String ℕ) (w : String) (order : List String)
    (b : Batch) where
  on_stop : Bool × Batch → Bool × Batch
  on_stop v = elim (v.0 && leb limit (length v.1.selected)) [
    | true ↦ (true, v.1)
    | false ↦ (v.0 || (round limit capacities order v.1).0, (round limit capacities order v.1).1)
  ]

  round-visit :
      (v : Bool × Batch)
      → visit capacities w b ≡ v
      → round limit capacities (w ∷ order) b ≡ on_stop v
  unfolding round on_stop
  round-visit v at = subst (λ x. round limit capacities (w ∷ order) b ≡ on_stop x) at refl

  round-still :
      visit capacities w b ≡ (false, b)
      → round limit capacities (w ∷ order) b
        ≡ ((round limit capacities order b).0, (round limit capacities order b).1)
  unfolding on_stop
  round-still at = round-visit (false, b) at

  round-last :
      (b1 : Batch)
      → visit capacities w b ≡ (true, b1)
      → leb limit (length b1.selected) ≡ true
      → round limit capacities (w ∷ order) b ≡ (true, b1)
  unfolding on_stop
  round-last b1 at full = round-visit (true, b1) at ∙ rw (full, on_stop) refl

  round-next :
      (b1 : Batch)
      → visit capacities w b ≡ (true, b1)
      → leb limit (length b1.selected) ≡ false
      → round limit capacities (w ∷ order) b ≡ (true, (round limit capacities order b1).1)
  unfolding on_stop
  round-next b1 at short = round-visit (true, b1) at ∙ rw (short, on_stop) refl

module _ (allowed : List ScheduleDecision) (capacities : Dict String ℕ) (limit : ℕ) where
  -- the worker has nothing left or has used up its capacity
  abbrev pub IsStuck : Batch → String → Type 0
  IsStuck b w =
      (queue_of b.queues w ≡ []) ⊎ ((c : ℕ) × (Dict.get capacities w ≡ some c) × (c ≤ count_of b w))

  -- what a round, or a part of it, may have done
  Advanced : Batch → Batch → Type 0
  Advanced b b' = IsFair allowed capacities limit b' × (length b.selected + 1 ≤ length b'.selected)

  visit_lem :
      (w : String) (b : Batch)
      → IsFair allowed capacities limit b
      → length b.selected + 1 ≤ limit
      → ((visit capacities w b ≡ (false, b)) × IsStuck b w)
        ⊎ ((b' : Batch) × (visit capacities w b ≡ (true, b')) × Advanced b b')
  unfolding Advanced popped
  visit_lem w b f room = elim (Bool-cases (is_used_up capacities w b)) [
    | inl full ↦ inl (visit-full capacities w b full, inr (used_up capacities w b full))
    | inr free ↦ elim (list_cases (queue_of b.queues w)) [
      | inl at ↦ inl (visit-empty capacities w b free at, inl at)
      | inr (d, (q, at)) ↦ inr (
        popped allowed capacities limit w d q b,
        visit-pops allowed capacities limit w b d q free at,
        (
          popped-IsFair allowed capacities limit w d q b f at free room,
          omega (arith, length-append b.selected (d ∷ [])),
        ),
      )
    ]
  ]

  round_lem :
      (order : List String) (b : Batch)
      → IsFair allowed capacities limit b
      → length b.selected + 1 ≤ limit
      → ((round limit capacities order b ≡ (false, b)) × All (IsStuck b) order)
        ⊎ (((round limit capacities order b).0 ≡ true)
            × Advanced b (round limit capacities order b).1)
  unfolding Advanced
  round_lem [] b f room = inl (round-none limit capacities b, tt)
  round_lem (w ∷ order) b f room = elim (visit_lem w b f room) [
    | inl (nothing, stuck) ↦ elim (round_lem order b f room) [
      | inl (still, others) ↦
          inl (round-still limit capacities w order b nothing ∙ still, (stuck, others))
      | inr (goes, on) ↦ inr (rw (round-still limit capacities w order b nothing) (goes, on))
    ]
    | inr (b1, pops, on) ↦ elim (Bool-cases (leb limit (length b1.selected))) [
      | inl full ↦ inr (rw (round-last limit capacities w order b b1 pops full) (refl, on))
      | inr short ↦ elim (round_lem order b1 on.0 (ground (arith, short))) [
        | inl (still, others) ↦
            inr (rw (round-next limit capacities w order b b1 pops short, still) (refl, on))
        | inr (goes, further) ↦ inr (
            rw (round-next limit capacities w order b b1 pops short)
              (refl, (further.0, omega (arith, on.1, further.1))))
      ]
    ]
  ]

  -- Fuel for as many rounds as decisions are wanted is enough: at the end the batch is full, or no worker
  -- can give more.
  pub rounds_lem :
      (fuel : ℕ) (order : List String) (b : Batch)
      → IsFair allowed capacities limit b
      → limit ≤ fuel + length b.selected
      → IsFair allowed capacities limit (rounds fuel limit capacities order b)
        × ((length (rounds fuel limit capacities order b).selected ≡ limit)
            ⊎ All (IsStuck (rounds fuel limit capacities order b)) order)
  unfolding rounds Advanced
  rounds_lem zero order b f enough = (f, inl (omega (arith, enough, f.bounded)))
  rounds_lem (suc fuel) order b f enough = elim (Bool-cases (ltb (length b.selected) limit)) [
    | inr full ↦ rw (full, rounds) (f, inl (ground (arith, full, f.bounded)))
    | inl short ↦ elim (round_lem order b f (ground (arith, short))) [
      | inl (still, stuck) ↦
          rw
            (
              short,
              ap (λ (x : Bool × Batch). x.0) still,
              ap (λ (x : Bool × Batch). x.1) still,
              rounds,
            )
            (f, inr stuck)
      | inr (goes, on) ↦
          rw (short, goes, rounds)
            (rounds_lem fuel order (round limit capacities order b).1 on.0
              (omega (arith, enough, on.1)))
    ]
  ]
