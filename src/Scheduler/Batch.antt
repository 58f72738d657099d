-- ===== src/Scheduler/Batch.antt =====
-- `Scheduler._select_ranked_batch` (recon/core/scheduler.py). A decision is kept without its signals
-- and the breakdown of its score, which the choice does not read.
use night_scout.Prelude.{
  ℕ, zero, suc, ◌+◌, String, Bool, true, false, ◌||◌, ◌&&◌, Option, none, some, List, [], ◌∷◌, ◌++◌,
  ltb, leb, length, string_eq, if◌then◌else◌,
}
use night_scout.Prelude.Dict
use night_scout.Prelude.Dict.{Dict}
use night_scout.Prelude.Int.{ℤ}
use night_scout.Prelude.Sets.{member}

pub record ScheduleDecision : Type 0 where
  pub task_id : String
  pub worker : String
  pub action : String
  pub input_event_id : String
  pub branch_id : Option String
  pub score : ℤ
  pub evaluated_at : ℕ
  pub route_rule_id : Option String
  pub routing_reason : Option String

-- `worker_order` and `queues`
pub record Groups : Type 0 where
  pub worker_order : List String
  pub queues : Dict String (List ScheduleDecision)

abbrev pub queue_of : Dict String (List ScheduleDecision) → String → List ScheduleDecision
queue_of queues worker = Dict.get_or queues worker []

-- one turn of the loop over the ranked decisions, for a worker that is not excluded
unfoldable pub add_decision : ScheduleDecision → Groups → Groups
add_decision d g = record {
  worker_order =
      if Dict.contains g.queues d.worker then g.worker_order else g.worker_order ++ (d.worker ∷ []);
  queues = Dict.put g.queues d.worker (queue_of g.queues d.worker ++ (d ∷ []));
}

unfoldable pub group : List String → List ScheduleDecision → Groups → Groups
group excluded [] g = g
group excluded (d ∷ ranked) g = elim (member d.worker excluded) [
  | true ↦ group excluded ranked g
  | false ↦ group excluded ranked (add_decision d g)
]

-- the state of the rounds
pub record Batch : Type 0 where
  pub selected : List ScheduleDecision
  pub queues : Dict String (List ScheduleDecision)
  pub selected_by_worker : Dict String ℕ

abbrev pub count_of : Batch → String → ℕ
count_of b worker = Dict.get_or b.selected_by_worker worker 0

-- `capacity is not None and selected_by_worker[worker] >= capacity`
unfoldable pub is_used_up : Dict String ℕ → String → Batch → Bool
is_used_up capacities worker b = elim (Dict.get capacities worker) [
  | none ↦ false
  | some capacity ↦ leb capacity (count_of b worker)
]

-- `selected.append(queues[worker].popleft())`, unless the queue is empty
unfoldable pub take_next : List ScheduleDecision → String → Batch → Bool × Batch
take_next [] worker b = (false, b)
take_next (d ∷ queue) worker b = (
  true,
  record {
    selected = b.selected ++ (d ∷ []);
    queues = Dict.put b.queues worker queue;
    selected_by_worker = Dict.put b.selected_by_worker worker (count_of b worker + 1);
  },
)

-- one turn of the loop over the workers, and whether it made progress
unfoldable pub visit : Dict String ℕ → String → Batch → Bool × Batch
visit capacities worker b =
    if is_used_up capacities worker b
    then (false, b)
    else take_next (queue_of b.queues worker) worker b

-- `for worker in worker_order`
unfoldable pub round : ℕ → Dict String ℕ → List String → Batch → Bool × Batch
round limit capacities [] b = (false, b)
round limit capacities (worker ∷ order) b =
    let (progressed, b1) = visit capacities worker b in
    elim (progressed && leb limit (length b1.selected)) [
      | true ↦ (true, b1)
      | false ↦ let (later, b2) = round limit capacities order b1 in (progressed || later, b2)
    ]

-- `while len(selected) < limit`, at most `fuel` times
unfoldable pub rounds : ℕ → ℕ → Dict String ℕ → List String → Batch → Batch
rounds zero limit capacities order b = b
rounds (suc fuel) limit capacities order b = elim (ltb (length b.selected) limit) [
  | false ↦ b
  | true ↦ elim ((round limit capacities order b).0) [
    | true ↦ rounds fuel limit capacities order (round limit capacities order b).1
    | false ↦ (round limit capacities order b).1
  ]
]

abbrev pub start_of : Groups → Batch
start_of g = record { selected = []; queues = g.queues; selected_by_worker = Dict.empty }

-- `Scheduler._select_ranked_batch`. A round that goes on selects something, so `limit` rounds are
-- enough.
unfoldable pub select_ranked_batch :
    List ScheduleDecision → ℕ → List String → Dict String ℕ → List ScheduleDecision
select_ranked_batch ranked limit excluded capacities =
    let g = group excluded ranked (record { worker_order = []; queues = Dict.empty }) in
    (rounds limit limit capacities g.worker_order (start_of g)).selected
