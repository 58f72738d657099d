-- ===== src/Queue/Shortlist.antt =====
-- What `ready` (recon/core/queue.py) may put on the shortlist.
use night_scout.Prelude.{
  ℕ, ◌+◌, ◌≤◌, map, ◌||◌, ◌==◌, ==_iff, string_eq, String, ◌≡◌, refl, Bool, true, false, some, List,
  [], ◌∷◌, ◌++◌, arith, leb, length, All, All-map, keep, take, Bool-cases, length-append, ◌⊎◌, inl,
  inr, subst, sym, ◌∙◌,
}
use night_scout.Prelude.Sort.{sort, All-sort, sort-All}
use night_scout.Prelude.Sets.{member, NoRepeat}
use night_scout.Prelude.Dict
use night_scout.Prelude.Exec.{ok}
use night_scout.Queue.Task.{Task}
use night_scout.Queue.Store.{TaskStore, task_at, is_ready, all}
use night_scout.Queue.Claiming.{IsClaimable, is_ready_iff}
use night_scout.Queue.Ready.{
  fair_lane_limits, Shortlist, add_task, fill_lane, fill, lanes_of, candidates, fair_shortlist,
  ready, by_priority, by_age, by_low_priority, is_exploration,
}
use night_scout.Queue.Lanes.{
  nothing, ready-fair, is_full, fill_lane-none, fill-none, fill_lane-old, fill_lane-last,
  fill_lane-new, fill-last, fill-next, All-fair_shortlist,
}

abbrev pub ids : List Task → List String
ids ts = map (λ t. t.task_id) ts

member-ids :
    (i : String) (t : Task) (ts : List Task)
    → member i (ids (ts ++ (t ∷ []))) ≡ (member i (ids ts) || i == t.task_id)
member-ids i t [] = ground arith
member-ids i t (u ∷ ts) = ground (arith, member-ids i t ts)

NoRepeat-ids :
    (t : Task) (ts : List Task)
    → member t.task_id (ids ts) ≡ false
    → NoRepeat (ids ts)
    → NoRepeat (ids (ts ++ (t ∷ [])))
NoRepeat-ids t [] new h = (refl, tt)
NoRepeat-ids t (u ∷ ts) new h = (
  ground (
    arith,
    member-ids u.task_id t ts,
    ==_iff t.task_id u.task_id,
    ==_iff u.task_id t.task_id,
    h.0,
  ),
  NoRepeat-ids t ts (ground arith) h.1,
)

-- what the loops keep: `seen` has the selected tasks' identifiers, none of them twice
record IsTracked (l : Shortlist) : Type 0 where
  pub known : (i : String) → member i l.seen ≡ member i (ids l.selected)
  pub once : NoRepeat (ids l.selected)

IsTracked-add_task :
    (t : Task) (l : Shortlist)
    → member t.task_id l.seen ≡ false
    → IsTracked l
    → IsTracked (add_task t l)
unfolding add_task
IsTracked-add_task t l new h = record {
  known = λ i. ground (arith, member-ids i t l.selected, h.known i);
  once = NoRepeat-ids t l.selected (cc (h.known t.task_id, new)) h.once;
}

add_task-grows :
    (t : Task) (l : Shortlist) (i : String)
    → member i l.seen ≡ true
    → member i (add_task t l).seen ≡ true
unfolding add_task
add_task-grows t l i h = ground (arith, h)

add_task-seen : (t : Task) (l : Shortlist) → member t.task_id (add_task t l).seen ≡ true
unfolding add_task
add_task-seen t l = ground (arith, ==_iff t.task_id t.task_id)

leb→gt : (a b : ℕ) → leb a b ≡ false → b + 1 ≤ a
leb→gt a b h = ground arith

module _ (limit : ℕ) where
  -- within the limit, and each seen task among the selected ones once
  IsFine : Shortlist → Type 0
  IsFine l = IsTracked l × (length l.selected ≤ limit)

  -- nothing of a lane is left out as long as the shortlist is not full
  Covers : List Task → Shortlist → Type 0
  Covers ts l = All (λ t. member t.task_id l.seen ≡ true) ts

  -- the selected tasks stay
  Grows : Shortlist → Shortlist → Type 0
  Grows l l' = (i : String) → member i l.seen ≡ true → member i l'.seen ≡ true

  Filled : List Task → Shortlist → Shortlist → Type 0
  Filled ts l l' = IsFine l' × Grows l l' × ((is_full limit l' ≡ true) ⊎ Covers ts l')

  IsFine-add_task :
      (t : Task) (l : Shortlist)
      → member t.task_id l.seen ≡ false
      → IsFine l
      → is_full limit l ≡ false
      → IsFine (add_task t l)
  unfolding IsFine is_full add_task
  IsFine-add_task t l new fine short = (
    IsTracked-add_task t l new fine.0,
    omega (arith, length-append l.selected (t ∷ []), leb→gt limit (length l.selected) short),
  )

  fill_lane-Filled :
      (ts : List Task) (l : Shortlist)
      → IsFine l
      → is_full limit l ≡ false
      → Filled ts l (fill_lane limit ts l)
  unfolding Grows Covers Filled
  fill_lane-Filled [] l fine short = rw (fill_lane-none limit l) (fine, (λ i h. h), inr tt)
  fill_lane-Filled (t ∷ ts) l fine short = elim (Bool-cases (member t.task_id l.seen)) [
    | inl old ↦
        let (ih_fine, grows, more) = fill_lane-Filled ts l fine short in
        subst (Filled (t ∷ ts) l) (sym (fill_lane-old limit t ts l old)) (
          ih_fine,
          grows,
          (elim more [ inl full ↦ inl full | inr covers ↦ inr (grows t.task_id old, covers) ]),
        )
    | inr new ↦ elim (Bool-cases (is_full limit (add_task t l))) [
      | inl full ↦
          subst (Filled (t ∷ ts) l) (sym (fill_lane-last limit t ts l new full))
            (IsFine-add_task t l new fine short, (λ i h. add_task-grows t l i h), inl full)
      | inr more_room ↦
          let (ih_fine, grows, more) =
            fill_lane-Filled ts (add_task t l) (IsFine-add_task t l new fine short) more_room in
          subst (Filled (t ∷ ts) l) (sym (fill_lane-new limit t ts l new more_room)) (
            ih_fine,
            (λ i h. grows i (add_task-grows t l i h)),
            (elim more [
              | inl full ↦ inl full
              | inr covers ↦ inr (grows t.task_id (add_task-seen t l), covers)
            ]),
          )
    ]
  ]

  -- The last lane is covered, or the limit is reached.
  fill-Filled :
      (lanes : List (List Task)) (last : List Task) (l : Shortlist)
      → IsFine l
      → is_full limit l ≡ false
      → Filled last l (fill limit (lanes ++ (last ∷ [])) l)
  unfolding Grows Filled
  fill-Filled [] last l fine short = elim (Bool-cases (is_full limit (fill_lane limit last l))) [
    | inl full ↦ rw (fill-last limit last [] l full) (fill_lane-Filled last l fine short)
    | inr more_room ↦
        rw (fill-next limit last [] l more_room, fill-none limit (fill_lane limit last l))
          (fill_lane-Filled last l fine short)
  ]
  fill-Filled (lane ∷ lanes) last l fine short =
      let (fine', grows, more) = fill_lane-Filled lane l fine short in
      elim (Bool-cases (is_full limit (fill_lane limit lane l))) [
        | inl full ↦
            rw (fill-last limit lane (lanes ++ (last ∷ [])) l full) (fine', grows, inl full)
        | inr more_room ↦
            let (fine'', grows', more') =
              fill-Filled lanes last (fill_lane limit lane l) fine' more_room in
            rw (fill-next limit lane (lanes ++ (last ∷ [])) l more_room)
              (fine'', (λ i h. grows' i (grows i h)), more')
      ]

fill_lanes-Filled :
    (limit : ℕ) (ts : List Task)
    → 1 ≤ limit
    → Filled limit ts nothing (fill limit (lanes_of limit ts) nothing)
unfolding lanes_of IsFine is_full
fill_lanes-Filled limit ts positive =
    let limits = fair_lane_limits limit in
    fill-Filled limit
      (take limits.top ts
        ∷ take limits.oldest (sort by_age ts)
        ∷ take limits.exploration (keep is_exploration ts)
        ∷ take limits.tail (sort by_low_priority ts)
        ∷ [])
      ts nothing (record { known = λ i. refl; once = tt }, ground arith) (ground arith)

keep-All :
    (P : Task → Type 0) (p : Task → Bool) (ts : List Task)
    → All P (keep p ts)
    → All (λ t. p t ≡ true → P t) ts
keep-All P p [] h = tt
keep-All P p (t ∷ ts) h = elim (Bool-cases (p t)) [
  | inl kept ↦ let k : P t × All P (keep p ts) = rw kept at h in ((λ _. k.0), keep-All P p ts k.1)
  | inr dropped ↦ ((λ kept. absurd (cc (kept, dropped))), keep-All P p ts (rw dropped at h))
]

IsReady-keep :
    (now : ℕ) (ts : List Task) → All (λ t. is_ready now t ≡ true) (keep (is_ready now) ts)
IsReady-keep now [] = tt
IsReady-keep now (t ∷ ts) = let ih = IsReady-keep now ts in ground (arith, ih)

-- the same, in the terms of the source's test
ready-Filled :
    (now limit : ℕ) (s : TaskStore)
    → 1 ≤ limit
    → (ts : List Task) × (ready now (some limit) true s ≡ ok ts)
      × (length ts ≤ limit)
      × NoRepeat (ids ts)
      × All (λ t. is_ready now t ≡ true) ts
      × ((length ts ≡ limit)
          ⊎ ((k : String) (t : Task)
              → task_at s k ≡ some t
              → is_ready now t ≡ true
              → member t.task_id (ids ts) ≡ true))
unfolding candidates fair_shortlist IsFine is_full Covers Filled
ready-Filled now limit s positive =
    let found = candidates now s in
    let chosen = fill limit (lanes_of limit found) nothing in
    let (fine, grows, more) = fill_lanes-Filled limit found positive in
    let sound : All (λ t. is_ready now t ≡ true) (candidates now s) =
      All-sort by_priority (λ t. is_ready now t ≡ true) (keep (is_ready now) (all s))
        (IsReady-keep now (all s)) in
    (
      chosen.selected,
      ready-fair now limit s positive,
      fine.1,
      fine.0.once,
      All-fair_shortlist (λ t. is_ready now t ≡ true) limit found sound,
      (elim more [
        | inl full ↦ inl (ground arith)
        | inr covers ↦ inr λ k t at is.
            let here =
              keep-All (λ t. member t.task_id chosen.seen ≡ true) (is_ready now) (all s)
                (sort-All by_priority (λ t. member t.task_id chosen.seen ≡ true)
                  (keep (is_ready now) (all s)) covers) in
            let seen =
              Dict.values-All (λ t. is_ready now t ≡ true → member t.task_id chosen.seen ≡ true)
                s.tasks here k t at is in
            sym (fine.0.known t.task_id) ∙ seen
      ]),
    )

-- `ready` with a limit of at least 1 and fair lanes returns a list of at most `limit` tasks; none stands
-- on it twice, and each is PENDING or DEFERRED, available at `now` and has attempts left; such a task
-- of the store is left out only if the list has exactly `limit` tasks.
pub ready_lem :
    (now limit : ℕ) (s : TaskStore)
    → 1 ≤ limit
    → (ts : List Task) × (ready now (some limit) true s ≡ ok ts)
      × (length ts ≤ limit)
      × NoRepeat (ids ts)
      × All (λ t. IsClaimable t now) ts
      × ((length ts ≡ limit)
          ⊎ ((k : String) (t : Task)
              → task_at s k ≡ some t
              → IsClaimable t now
              → member t.task_id (ids ts) ≡ true))
ready_lem now limit s positive =
    let (ts, returns, few, once, sound, more) = ready-Filled now limit s positive in
    (
      ts,
      returns,
      few,
      once,
      All-map ts (λ t is. (is_ready_iff t now).0 is) sound,
      (elim more [
        | inl full ↦ inl full
        | inr covers ↦ inr λ k t at is. covers k t at ((is_ready_iff t now).1 is)
      ]),
    )
