-- ===== src/Queue/Ready.antt =====
-- `InMemoryTaskStore.ready` and `fair_lane_limits` (recon/core/queue.py): the bounded shortlist of
-- tasks that the scheduler ranks.
use Prim.Native.String.{◌++◌ as str_append}
use night_scout.Prelude.{
  ℕ, ◌-◌, ◌/◌, max, String, Bool, true, false, not, ◌||◌, ◌&&◌, Option, none, some, List, [], ◌∷◌,
  ◌++◌, ltb, leb, eqb, if◌then◌else◌, keep, take, length, string_eq,
}
use night_scout.Prelude.Int.{ltb_ℤ}
use night_scout.Prelude.Text.{is_blank, lower, is_within}
use night_scout.Prelude.Sort.{sort, leb_text}
use night_scout.Prelude.Sets.{member}
use night_scout.Prelude.Exec.{value_error, Result, ok, err}
use night_scout.Queue.Task.{Task}
use night_scout.Queue.Store.{TaskStore, is_ready, all}

-- one component of a tuple: decided by it when it differs, by the rest of the tuple otherwise
abbrev pub compare_then : Bool → Bool → Bool → Bool
compare_then less greater rest = less || (not greater && rest)

-- the order of `priority_key`
unfoldable pub by_priority : Task → Task → Bool
by_priority a b = compare_then (ltb_ℤ b.priority a.priority) (ltb_ℤ a.priority b.priority) (
    compare_then (ltb a.available_at b.available_at) (ltb b.available_at a.available_at) (
      compare_then (ltb a.created_at b.created_at) (ltb b.created_at a.created_at)
        (leb_text a.task_id b.task_id)))

-- the key `(task.created_at, task.task_id)`
unfoldable pub by_age : Task → Task → Bool
by_age a b =
    compare_then (ltb a.created_at b.created_at) (ltb b.created_at a.created_at)
      (leb_text a.task_id b.task_id)

-- the key `(task.priority, task.created_at, task.task_id)`
unfoldable pub by_low_priority : Task → Task → Bool
by_low_priority a b =
    compare_then (ltb_ℤ a.priority b.priority) (ltb_ℤ b.priority a.priority) (by_age a b)

-- `" ".join(filter(None, (…)))`
join_words : List String → String
join_words [] = ""
join_words (w ∷ ws) =
    let rest = join_words ws in
    if is_blank w then rest else if is_blank rest then w else str_append w (str_append " " rest)

or_empty : Option String → String
or_empty none = ""
or_empty (some s) = s

unfoldable pub is_exploration : Task → Bool
unfolding join_words or_empty
is_exploration t =
    is_within "exploration"
      (lower (join_words (t.action ∷ or_empty t.route_rule_id ∷ or_empty t.routing_reason ∷ [])))

pub record LaneLimits : Type 0 where
  pub top : ℕ
  pub oldest : ℕ
  pub exploration : ℕ
  pub tail : ℕ

unfoldable pub fair_lane_limits : ℕ → LaneLimits
fair_lane_limits limit =
    let top = max 1 (limit / 2) in
    let oldest = (limit - top) / 2 in
    let exploration = (limit - top - oldest) / 2 in
    if eqb limit 0 then record { top = 0; oldest = 0; exploration = 0; tail = 0 } else record {
      top = top;
      oldest = oldest;
      exploration = exploration;
      tail = limit - top - oldest - exploration;
    }

-- what the loop over the lanes has selected and seen
pub record Shortlist : Type 0 where
  pub selected : List Task
  pub seen : List String

unfoldable pub add_task : Task → Shortlist → Shortlist
add_task t l = record { selected = l.selected ++ (t ∷ []); seen = t.task_id ∷ l.seen }

-- `for task in lane`
unfoldable pub fill_lane : ℕ → List Task → Shortlist → Shortlist
fill_lane limit [] l = l
fill_lane limit (t ∷ ts) l = elim (member t.task_id l.seen) [
  | true ↦ fill_lane limit ts l
  | false ↦ elim (leb limit (length (add_task t l).selected)) [
    | true ↦ add_task t l
    | false ↦ fill_lane limit ts (add_task t l)
  ]
]

-- `for lane in lanes`
unfoldable pub fill : ℕ → List (List Task) → Shortlist → Shortlist
fill limit [] l = l
fill limit (lane ∷ lanes) l = elim (leb limit (length (fill_lane limit lane l).selected)) [
  | true ↦ fill_lane limit lane l
  | false ↦ fill limit lanes (fill_lane limit lane l)
]

-- the lanes of `ready`
unfoldable pub lanes_of : ℕ → List Task → List (List Task)
lanes_of limit candidates =
    let limits = fair_lane_limits limit in
    take limits.top candidates
    ∷ take limits.oldest (sort by_age candidates)
    ∷ take limits.exploration (keep is_exploration candidates)
    ∷ take limits.tail (sort by_low_priority candidates)
    ∷ candidates
    ∷ []

unfoldable pub candidates : ℕ → TaskStore → List Task
candidates now s = sort by_priority (keep (is_ready now) (all s))

unfoldable pub fair_shortlist : ℕ → List Task → List Task
fair_shortlist limit candidates =
    (fill limit (lanes_of limit candidates) (record { selected = []; seen = [] })).selected

-- `InMemoryTaskStore.ready`
unfoldable pub ready_tasks : ℕ → Option ℕ → Bool → TaskStore → List Task
ready_tasks now none fair s = candidates now s
ready_tasks now (some limit) fair s =
    if fair then fair_shortlist limit (candidates now s) else take limit (candidates now s)

-- `TaskQueue.ready`
unfoldable pub ready : ℕ → Option ℕ → Bool → TaskStore → Result (List Task)
ready now none fair s = ok (ready_tasks now none fair s)
ready now (some limit) fair s =
    if ltb limit 1 then err value_error else ok (ready_tasks now (some limit) fair s)
