-- ===== src/System/Mirror.antt =====
-- drop_server's table of agents and the apiserver's: the posts of HealthCheckService.cpp and of
-- InitAgentInfoService.cpp arrive at the
-- handlers of apiserver/server/agent.go. How gin reads a JSON body is a parameter.
pub mod Posts
pub mod Keys
pub mod Steps
pub mod Agreement
use Prim.Native.String.{◌++◌}
use mini_drop.Base.{ℕ, String, true, ◌==◌, string_eq, if◌then◌else◌, Option, List, [], ◌∷◌}
use mini_drop.Proto.Rpc.{HealthCheckRequest, RegisterAgentRequest}
use mini_drop.Server.Init.{register_agent}
use mini_drop.Common.Effect.{Effect, log, post}
use mini_drop.Server.Apiserver.{get_env}
use mini_drop.Server.Control.{ControlService}
use mini_drop.Server.HealthCheck.{HealthCheckService, heartbeat, offline_scan}
use mini_drop.ApiServer.Agents.{
  RegisterReq, OfflineReq, register_agent_internal, register_agent_offline,
}
use mini_drop.ApiServer.Agents.Audit.{AgentTables}
use mini_drop.ApiServer.Agents.Audit.History.{execute_all, found}

-- `ShouldBindJSON` for the two requests.
pub record Binding : Type 0 where
  pub read_register : String → Option RegisterReq
  pub read_offline : String → Option OfflineReq

module _ (lib : Binding) (base : String) (db : AgentTables) where
  -- A request for an URL of the apiserver; the database takes what it is told.
  unfoldable pub routed : ℕ → String → String → db.Db → db.Db
  routed now url body d =
      if url == base ++ "/internal/agent-register"
      then execute_all db
          (register_agent_internal now (found db d (lib.read_register body)) true ""
            (lib.read_register body)).0
          d
      else if url == base ++ "/internal/agent-offline"
      then execute_all db (register_agent_offline true "" (lib.read_offline body)).0 d
      else d

  unfoldable pub deliver : ℕ → List Effect → db.Db → db.Db
  deliver now [] d = d
  deliver now (log level text ∷ effects) d = deliver now effects d
  deliver now (post url body ∷ effects) d = deliver now effects (routed now url body d)

-- What happens: a heartbeat, or a round of the scan, at a reading of the server's clock and one of the
-- apiserver's; or a registration, which the table of drop_server takes no part in.
pub data Event : Type 0 where
  beats : ℕ → ℕ → HealthCheckRequest → Event
  scans : ℕ → ℕ → Event
  registers : ℕ → RegisterAgentRequest → Event

pub record Both (Db : Type 0) : Type 0 where
  pub health : HealthCheckService
  pub control : ControlService
  pub tables : Db

module _ (env : String → Option String) (lib : Binding) (db : AgentTables) where
  -- `APISERVER_URL` is the apiserver's address.
  abbrev pub base_url : String
  base_url = get_env env "APISERVER_URL" "http://localhost:8191"

  unfoldable pub happens : Both db.Db → Event → Both db.Db
  unfolding deliver
  happens s (beats now received request) =
      let reply = heartbeat env now s.health s.control request in
      record {
        health = reply.state.0;
        control = reply.state.1;
        tables = deliver lib base_url db received reply.effects s.tables;
      }
  happens s (scans now received) =
      let scanned = offline_scan env now s.health in
      record s { health = scanned.0; tables = deliver lib base_url db received scanned.1 s.tables }
  happens s (registers received request) =
      let effects = (register_agent env request).effects in
      record s { tables = deliver lib base_url db received effects s.tables }

  unfoldable pub after : Both db.Db → List Event → Both db.Db
  unfolding happens
  after s [] = s
  after s (e ∷ events) = after (happens s e) events
