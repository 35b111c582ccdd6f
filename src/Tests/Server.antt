-- ===== src/Tests/Server.antt =====
-- The theorems about the server at concrete inputs.
use mathlib.Core.List.{◌++◌}
use mathlib.Core.Quot
use mini_drop.Base.{
  String, string_eq, ◌==◌, eq_iff, Bool-cases, inl, inr, subst, ◌*◌, true, false, none, some, List,
  [], ◌∷◌, ◌≡◌, ◌↔◌, refl,
}
use mini_drop.Server.Control.{fetch_data}
use mini_drop.Base.Dict.{get_or, lookup}
use mini_drop.Server.Control.Queue.{queued}
use mini_drop.Server.Control.{ControlService}
use mini_drop.Server.Control.Views
use mini_drop.Server.Control.Views.{Queues, Operation, pops}
use mini_drop.Server.Control.Views.Observations.{answers, answers-fifo_iff}
use mini_drop.Server.Control.Views.Schedules.{about, after_all, given_to, schedules_agree}
use mini_drop.Server.HealthCheck.{offline_scan, HealthCheckService}
use mini_drop.Server.HealthCheck.Scan.{notices, offline_scan_lem}
use mini_drop.Server.DropServer.{new_server, serve, responses, scans}
use mini_drop.Server.DropServer.Delivery.{delivered_to, delivery}
use mini_drop.Server.DropServer.Presence.{presence}
use mini_drop.Server.DropServer.Status.{describe, uploaded_to, fetch_data-status_after}
use mini_drop.Tests.Data.{bare, ip, task, health_request, beat_at, busy_calls, second}

-- After the calls, one task is delivered and one waits.
delivery_example :
    delivered_to ip (responses bare new_server busy_calls)
      ++ queued ip (serve bare new_server busy_calls).control
    ≡ queued ip new_server.control ++ (task "t1" ∷ task "t2" ∷ [])
delivery_example = delivery bare new_server busy_calls ip

-- A scan 32 seconds after the last heartbeat.
presence_example :
    lookup ip (serve bare new_server (beat_at second ip ∷ scans (33 * second) ∷ [])).health.agents
    ≡ some (record { last_seen = second; online = false })
presence_example =
    presence bare new_server second (health_request ip) (scans (33 * second) ∷ []) refl

fetch_data-status_after_example :
    (fetch_data
      (serve bare new_server busy_calls).hotmethod
      (serve bare new_server busy_calls).control
      (record { task_id = "t1" })).response
    ≡ describe (uploaded_to "t1/perf.data")
fetch_data-status_after_example =
    fetch_data-status_after bare busy_calls (record { task_id = "t1" })

abbrev one_agent : HealthCheckService
one_agent = record { agents = (ip, record { last_seen = 0; online = true }) ∷ [] }

abbrev one_offline : HealthCheckService
one_offline = record { agents = (ip, record { last_seen = 0; online = false }) ∷ [] }

offline_scan_lem_example :
    offline_scan bare (31 * second) one_agent
    ≡ (one_offline, notices bare (31 * second) one_agent.agents)
offline_scan_lem_example = offline_scan_lem bare (31 * second) one_agent

-- The two agents stand in either order in the table.
abbrev queues : ControlService
queues = record { tasks = (ip, task "t1" ∷ []) ∷ ("10.0.0.2", task "t2" ∷ []) ∷ [] }

abbrev queues_turned : ControlService
queues_turned = record { tasks = ("10.0.0.2", task "t2" ∷ []) ∷ (ip, task "t1" ∷ []) ∷ [] }

abbrev asks : String → Operation
asks target =
    Views.creates (record { target_ip = target; service = "hotmethod"; task_desc = task "new" })

abbrev one_order : List Operation
one_order = asks ip ∷ pops "10.0.0.2" ∷ pops ip ∷ []

answers-fifo_iff_example :
    (answers one_order queues ≡ none ∷ some (task "t2") ∷ some (task "t1") ∷ [])
    × ((◌≡◌ {A = Queues} (Quot.mk queues) (Quot.mk queues_turned))
        ↔ ((others : List Operation) → answers others queues ≡ answers others queues_turned))
unfolding get_or lookup
answers-fifo_iff_example = answers-fifo_iff one_order queues queues_turned

abbrev other_order : List Operation
other_order = pops "10.0.0.2" ∷ asks ip ∷ pops ip ∷ []

same_about : (j : String) → about j one_order ≡ about j other_order
same_about j = elim (Bool-cases (ip == j)) [
  | inl mine ↦ subst (λ k. about k one_order ≡ about k other_order) ((eq_iff ip j).0 mine) refl
  | inr other ↦ rw other refl
]

schedules_agree_example :
    (after_all one_order (Quot.mk queues) ≡ after_all other_order (Quot.mk queues))
    × (given_to ip one_order (Quot.mk queues) ≡ given_to ip other_order (Quot.mk queues))
schedules_agree_example = schedules_agree one_order other_order (Quot.mk queues) ip same_about
