-- ===== src/Server/HealthCheck.antt =====
-- drop/server/HealthCheckService.h and .cpp: who is online. Times are steady_clock readings in
-- nanoseconds, given to each call. `Do` takes `agents_mutex_` and then, in `PopTaskForAgent`, the
-- mutex of the control service; each critical section is one function here, and they share no state.
pub mod Scan
use Prim.Native.String.{◌++◌}
use mini_drop.Base.{
  ℕ, ◌-◌, ◌/◌, String, Bool, true, false, not, ltb, string_eq, if◌then◌else◌, Option, none, some,
  List, [], ◌∷◌,
}
use mathlib.Core.List.{◌++◌ as append}
use mini_drop.Base.Dict.{Dict, insert, get_or}
use mini_drop.Base.Decimal.{to_string}
use mini_drop.Proto.Hotmethod.{TaskDesc}
use mini_drop.Proto.Rpc.{ok, HealthCheckRequest, HealthCheckResponse, serving, new_health_check}
use mini_drop.Common.Log.{info}
use mini_drop.Common.Effect.{Effect, log}
use mini_drop.Server.Reply.{Reply}
use mini_drop.Server.Apiserver.{notify_heartbeat, notify_offline}
use mini_drop.Server.Control.{ControlService, pop_task_for_agent}

abbrev pub offline_threshold_sec : ℕ
offline_threshold_sec = 30

abbrev pub scan_interval_sec : ℕ
scan_interval_sec = 5

abbrev pub second : ℕ
second = 1000000000

pub record AgentState : Type 0 where
  pub last_seen : ℕ
  pub online : Bool

-- A default-constructed state: the epoch of the clock, and online.
abbrev pub new_agent : AgentState
new_agent = record { last_seen = 0; online = true }

pub record HealthCheckService : Type 0 where
  pub agents : Dict String AgentState

unfoldable pub new_health : HealthCheckService
new_health = record { agents = [] }

unfoldable pub recovered_text : String → String → String
recovered_text ip host = "[audit] agent recovered: ip=" ++ (ip ++ (" host=" ++ host))

unfoldable pub offline_text : String → ℕ → String
offline_text ip elapsed =
    "[audit] agent offline: ip=" ++ (ip ++ (" last_seen_sec_ago=" ++ to_string elapsed))

-- The first critical section of `Do`: the agent is online, seen at `now`.
unfoldable pub touch :
    HealthCheckService → ℕ → HealthCheckRequest → HealthCheckService × List Effect
unfolding recovered_text get_or
touch s now request =
    let state = get_or ip new_agent s.agents in
    (
      record { agents = insert ip (record { last_seen = now; online = true }) s.agents },
      if state.online then [] else log info (recovered_text ip request.host_name) ∷ [],
    )
  where
    open request use {ip_addr as ip}

-- The last part of `Do`, after `PopTaskForAgent`.
unfoldable pub offer : String → Option TaskDesc → HealthCheckResponse × List Effect
offer ip none = (record new_health_check { status = serving; pending = false }, [])
offer ip (some task) = (
  record new_health_check { status = serving; pending = true; task_desc = task },
  log info ("dispatching task " ++ (task.task_id ++ (" to agent " ++ ip))) ∷ [],
)

-- `Do`: both services change.
unfoldable pub heartbeat :
    (String → Option String)
    → ℕ
    → HealthCheckService
    → ControlService
    → HealthCheckRequest
    → Reply (HealthCheckService × ControlService) HealthCheckResponse
unfolding touch offer
heartbeat env now s control request =
    let (s', audit) = touch s now request in
    let (task, control') = pop_task_for_agent control request.ip_addr in
    let (response, dispatched) = offer request.ip_addr task in
    record {
      state = (s', control');
      status = ok;
      response = response;
      effects = append audit (
          append (notify_heartbeat env request.host_name request.ip_addr request.agent_version)
            dispatched);
    }

-- `now - last_seen` in whole seconds, rounded towards zero. A reading of the clock from before
-- `last_seen` gives 0 here and a number that is not positive there; neither exceeds the threshold.
unfoldable pub elapsed_sec : ℕ → AgentState → ℕ
elapsed_sec now state = (now - state.last_seen) / second

-- One round of the loop over `agents_`.
unfoldable pub scan_agent :
    (String → Option String) → ℕ → String → AgentState → AgentState × List Effect
unfolding elapsed_sec offline_text
scan_agent env now ip state =
    if not state.online
    then (state, [])
    else if ltb offline_threshold_sec (elapsed_sec now state)
    then (
      record state { online = false },
      log info (offline_text ip (elapsed_sec now state)) ∷ notify_offline env "" ip,
    )
    else (state, [])

unfoldable pub scan_agents :
    (String → Option String) → ℕ → Dict String AgentState → Dict String AgentState × List Effect
scan_agents env now [] = ([], [])
scan_agents env now ((ip, state) ∷ agents) =
    let (state', effects) = scan_agent env now ip state in
    let (agents', more) = scan_agents env now agents in
    ((ip, state') ∷ agents', append effects more)

-- One round of `OfflineScanLoop`, which makes one every five seconds while the server runs.
unfoldable pub offline_scan :
    (String → Option String) → ℕ → HealthCheckService → HealthCheckService × List Effect
unfolding scan_agents
offline_scan env now s =
    let (agents, effects) = scan_agents env now s.agents in (record { agents = agents }, effects)
