-- ===== src/Scheduler/Tests.antt =====
-- The choice of a batch (recon/core/scheduler.py) on small inputs, and its theorem at such an input.
use night_scout.Prelude.{
  ℕ, ◌≤◌, String, ◌≡◌, refl, ◌⊎◌, none, some, List, [], ◌∷◌, ◌++◌, length, map, string_eq,
}
use night_scout.Prelude.Dict
use night_scout.Prelude.Dict.{Dict}
use night_scout.Prelude.Int.{pos}
use night_scout.Scheduler.Batch.{
  ScheduleDecision, select_ranked_batch, group, add_decision, rounds, round, visit, is_used_up,
  take_next,
}
use night_scout.Scheduler.Rounds.{of_worker}
use night_scout.Scheduler.Dispatch.{permitted, select_ranked_batch_lem}

abbrev decision : String → String → ScheduleDecision
decision id worker = record {
  task_id = id;
  worker = worker;
  action = "run";
  input_event_id = "evt_1";
  branch_id = none;
  score = pos 0;
  evaluated_at = 0;
  route_rule_id = none;
  routing_reason = none;
}

abbrev ranked : List ScheduleDecision
ranked =
    decision "1" "dns"
    ∷ decision "2" "dns"
    ∷ decision "3" "dns"
    ∷ decision "4" "http"
    ∷ decision "5" "tls"
    ∷ []

abbrev one_http : Dict String ℕ
one_http = record { entries = ("http", 1) ∷ [] }

chosen :
    map (λ d. d.task_id) (select_ranked_batch ranked 3 ("tls" ∷ []) one_http)
    ≡ ("1" ∷ "4" ∷ "2" ∷ [])
unfolding select_ranked_batch group add_decision rounds round visit is_used_up take_next Dict.get
    Dict.put
chosen = refl

select_ranked_batch_lem_example :
    let batch = select_ranked_batch ranked 3 ("tls" ∷ []) one_http in
    (length batch ≤ 3)
    × ((w : String)
        → (rest : List ScheduleDecision) × (of_worker w batch ++ rest
            ≡ of_worker w (permitted ("tls" ∷ []) ranked)))
    × ((w : String) (c : ℕ) → Dict.get one_http w ≡ some c → length (of_worker w batch) ≤ c)
    × ((length batch ≡ 3)
        ⊎ ((w : String)
            → (of_worker w batch ≡ of_worker w (permitted ("tls" ∷ []) ranked))
              ⊎ ((c : ℕ) × (Dict.get one_http w ≡ some c) × (c ≤ length (of_worker w batch)))))
select_ranked_batch_lem_example = select_ranked_batch_lem ranked 3 ("tls" ∷ []) one_http
