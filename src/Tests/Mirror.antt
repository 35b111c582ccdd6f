-- ===== src/Tests/Mirror.antt =====
-- The theorem about the tables of drop_server and the apiserver at a concrete history.
use mini_drop.Base.{
  ◌*◌, string_eq, ◌==◌, if◌then◌else◌, true, false, none, some, List, [], ◌∷◌, ◌≡◌, refl,
}
use mini_drop.Base.Dict.{lookup, insert, get_or}
use mini_drop.Server.Apiserver.{
  agent_json, offline_json, notify_apiserver, get_env, notify_heartbeat, notify_offline, post_json,
}
use mini_drop.Server.Init.{register_agent}
use mini_drop.ApiServer.Agents.{register_agent_internal, register_agent_offline, save_agent}
use mini_drop.ApiServer.Agents.Audit.History.{execute_all}
use mini_drop.Server.Control.{new_control, pop_task_for_agent, pop_front}
use mini_drop.Server.HealthCheck.{
  AgentState, second, offer, new_health, touch, heartbeat, elapsed_sec, scan_agent, scan_agents,
  offline_scan,
}
use mini_drop.ApiServer.Agents.Audit.{is_online}
use mini_drop.System.Mirror.{
  Binding, deliver, routed, Event, beats, scans, registers, happens, after,
}
use mini_drop.System.Mirror.Agreement.{from_start, tables_agree}
use mini_drop.Tests.Agents.{plain, empty_db}
use mini_drop.Tests.Data.{bare, ip, health_request}

-- Reads the two bodies about this agent.
abbrev reader : Binding
reader = record {
  read_register = λ body.
      if body == agent_json "worker" ip "0.1.0"
      then some (record { hostname = "worker"; ip_addr = ip; version = "0.1.0" })
      else none;
  read_offline = λ body.
      if body == offline_json "" ip then some (record { hostname = ""; ip_addr = ip }) else none;
}

-- One heartbeat, and a scan 40 seconds later; then the agent is started again, but does not beat yet.
abbrev silent_events : List Event
silent_events = beats 0 5 (health_request ip) ∷ scans (40 * second) 6 ∷ []

abbrev started_again : List Event
started_again =
    beats 0 5 (health_request ip)
    ∷ scans (40 * second) 6
    ∷ registers 7 (record {
      uid = "agent-001";
      host_name = "worker";
      ip_addr = ip;
      agent_version = "0.1.0";
      environment = "";
    })
    ∷ scans (50 * second) 8
    ∷ []

abbrev offline : AgentState
offline = record { last_seen = 0; online = false }

tables_agree_example :
    is_online
      (plain.agent (from_start bare reader plain new_control empty_db silent_events).tables ip)
    ≡ false
unfolding agent_json offline_json after happens heartbeat touch offline_scan scan_agents scan_agent
    elapsed_sec new_health lookup insert get_or
tables_agree_example =
    tables_agree bare reader plain new_control empty_db silent_events ip offline
      ((refl, refl), (tt, tt)) refl

-- The server takes this agent for offline, and the apiserver for online.
started_again_shown :
    is_online
      (plain.agent (from_start bare reader plain new_control empty_db started_again).tables ip)
    ≡ true
unfolding agent_json offline_json after happens heartbeat touch offline_scan scan_agents scan_agent
    elapsed_sec new_health lookup insert get_or register_agent notify_apiserver get_env
    notify_heartbeat notify_offline post_json deliver routed register_agent_internal
    register_agent_offline save_agent execute_all offer pop_task_for_agent pop_front new_control
started_again_shown = refl
