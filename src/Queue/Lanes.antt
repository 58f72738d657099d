-- ===== src/Queue/Lanes.antt =====
-- The loops of `ready` (recon/core/queue.py) over the lanes, turn by turn, and the lanes themselves.
use night_scout.Prelude.{
  ℕ, zero, suc, ◌+◌, ◌≤◌, string_eq, ◌≡◌, refl, Bool, true, false, some, List, [], ◌∷◌, ◌++◌, arith,
  leb, length, All, keep, take, Bool-cases, inl, inr,
}
use night_scout.Prelude.Sort.{sort, All-sort}
use night_scout.Prelude.Sets.{member}
use night_scout.Prelude.Exec.{ok}
use night_scout.Queue.Task.{Task}
use night_scout.Queue.Store.{TaskStore}
use night_scout.Queue.Ready.{
  fair_lane_limits, Shortlist, add_task, fill_lane, fill, lanes_of, candidates, fair_shortlist,
  ready_tasks, ready, by_age, by_low_priority, is_exploration,
}

-- The four lanes share out the whole limit, and a positive limit leaves a place to the best task.
pub fair_lane_limits_lem :
    (limit : ℕ)
    → (let l = fair_lane_limits limit in
        (l.top + l.oldest + l.exploration + l.tail ≡ limit) × (1 ≤ limit → 1 ≤ l.top))
unfolding fair_lane_limits
fair_lane_limits_lem limit = ground arith

abbrev pub nothing : Shortlist
nothing = record { selected = []; seen = [] }

-- a positive limit is accepted
pub ready-fair :
    (now limit : ℕ) (s : TaskStore)
    → 1 ≤ limit
    → ready now (some limit) true s
      ≡ ok (fill limit (lanes_of limit (candidates now s)) nothing).selected
unfolding ready ready_tasks fair_shortlist
ready-fair now limit s positive = ground arith

module _ (limit : ℕ) where
  unfoldable pub is_full : Shortlist → Bool
  is_full l = leb limit (length l.selected)

  -- the turns of the two loops
  pub fill_lane-none : (l : Shortlist) → fill_lane limit [] l ≡ l
  unfolding fill_lane
  fill_lane-none l = refl

  pub fill-none : (l : Shortlist) → fill limit [] l ≡ l
  unfolding fill
  fill-none l = refl

  pub fill_lane-old :
      (t : Task) (ts : List Task) (l : Shortlist)
      → member t.task_id l.seen ≡ true
      → fill_lane limit (t ∷ ts) l ≡ fill_lane limit ts l
  unfolding fill_lane
  fill_lane-old t ts l old = rw (old, fill_lane) refl

  pub fill_lane-last :
      (t : Task) (ts : List Task) (l : Shortlist)
      → member t.task_id l.seen ≡ false
      → is_full (add_task t l) ≡ true
      → fill_lane limit (t ∷ ts) l ≡ add_task t l
  unfolding fill_lane is_full
  fill_lane-last t ts l new full = rw (new, full, fill_lane) refl

  pub fill_lane-new :
      (t : Task) (ts : List Task) (l : Shortlist)
      → member t.task_id l.seen ≡ false
      → is_full (add_task t l) ≡ false
      → fill_lane limit (t ∷ ts) l ≡ fill_lane limit ts (add_task t l)
  unfolding fill_lane is_full
  fill_lane-new t ts l new short = rw (new, short, fill_lane) refl

  pub fill-last :
      (lane : List Task) (lanes : List (List Task)) (l : Shortlist)
      → is_full (fill_lane limit lane l) ≡ true
      → fill limit (lane ∷ lanes) l ≡ fill_lane limit lane l
  unfolding fill is_full
  fill-last lane lanes l full = rw (full, fill) refl

  pub fill-next :
      (lane : List Task) (lanes : List (List Task)) (l : Shortlist)
      → is_full (fill_lane limit lane l) ≡ false
      → fill limit (lane ∷ lanes) l ≡ fill limit lanes (fill_lane limit lane l)
  unfolding fill is_full
  fill-next lane lanes l short = rw (short, fill) refl

module _ (P : Task → Type 0) where
  All-take : (n : ℕ) (ts : List Task) → All P ts → All P (take n ts)
  All-take zero ts h = tt
  All-take (suc n) [] h = tt
  All-take (suc n) (t ∷ ts) h = (h.0, All-take n ts h.1)

  All-keep : (p : Task → Bool) (ts : List Task) → All P ts → All P (keep p ts)
  All-keep p [] h = tt
  All-keep p (t ∷ ts) h = let ih = All-keep p ts h.1 in ground arith

  All-append : (ts us : List Task) → All P ts → All P us → All P (ts ++ us)
  All-append [] us h k = k
  All-append (t ∷ ts) us h k = (h.0, All-append ts us h.1 k)

  All-add_task : (t : Task) (l : Shortlist) → P t → All P l.selected → All P (add_task t l).selected
  unfolding add_task
  All-add_task t l p h = All-append l.selected (t ∷ []) h (p, tt)

  All-fill_lane :
      (limit : ℕ) (ts : List Task) (l : Shortlist)
      → All P ts
      → All P l.selected
      → All P (fill_lane limit ts l).selected
  unfolding fill_lane
  All-fill_lane limit [] l h k = k
  All-fill_lane limit (t ∷ ts) l h k =
      let more = All-add_task t l h.0 k in
      elim (Bool-cases (member t.task_id l.seen)) [
        | inl old ↦ rw (fill_lane-old limit t ts l old) (All-fill_lane limit ts l h.1 k)
        | inr new ↦ elim (Bool-cases (is_full limit (add_task t l))) [
          | inl full ↦ rw (fill_lane-last limit t ts l new full) more
          | inr short ↦
              rw (fill_lane-new limit t ts l new short)
                (All-fill_lane limit ts (add_task t l) h.1 more)
        ]
      ]

  All-fill :
      (limit : ℕ) (lanes : List (List Task)) (l : Shortlist)
      → All (All P) lanes
      → All P l.selected
      → All P (fill limit lanes l).selected
  unfolding fill
  All-fill limit [] l h k = k
  All-fill limit (lane ∷ lanes) l h k =
      let more = All-fill_lane limit lane l h.0 k in
      elim (Bool-cases (is_full limit (fill_lane limit lane l))) [
        | inl full ↦ rw (fill-last limit lane lanes l full) more
        | inr short ↦
            rw (fill-next limit lane lanes l short)
              (All-fill limit lanes (fill_lane limit lane l) h.1 more)
      ]

  pub All-fair_shortlist : (limit : ℕ) (ts : List Task) → All P ts → All P (fair_shortlist limit ts)
  unfolding fair_shortlist lanes_of
  All-fair_shortlist limit ts h =
      let limits = fair_lane_limits limit in
      All-fill limit (lanes_of limit ts) nothing
        (
          All-take limits.top ts h,
          (
            All-take limits.oldest (sort by_age ts) (All-sort by_age P ts h),
            (
              All-take limits.exploration (keep is_exploration ts) (All-keep is_exploration ts h),
              (
                All-take limits.tail (sort by_low_priority ts) (All-sort by_low_priority P ts h),
                (h, tt),
              ),
            ),
          ),
        )
        tt
