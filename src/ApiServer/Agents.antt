-- ===== src/ApiServer/Agents.antt =====
-- apiserver/server/agent.go and heartbeat_watchdog.go: the table of the agents and the audit log, as
-- drop_server's posts and the watchdog change them. What the code asks of the database is a list of
-- statements.
pub mod Audit
use mathlib.Core.Option
use mathlib.Core.List.{◌++◌}
use mini_drop.Base.{
  ℕ, ◌+◌, String, Bool, true, false, not, ◌&&◌, ltb, ◌==◌, string_eq, if◌then◌else◌, Option, none,
  some, List, [], ◌∷◌, ◌≡◌,
}
use mini_drop.ApiServer.Tasks.{Answer, server_error}

-- The columns that the code sets; `last_seen` in nanoseconds.
pub record AgentInfo : Type 0 where
  pub hostname : String
  pub ip_addr : String
  pub online : Bool
  pub version : String
  pub last_seen : ℕ

pub record AgentAuditLog : Type 0 where
  pub ip_addr : String
  pub hostname : String
  pub event : String
  pub detail : String

-- An update of the row that was read goes by its `id`; `ip_addr` is unique and never changed, so it names
-- the row as well.
pub data Statement : Type 0 where
  creates_agent : AgentInfo → Statement
  updates_agent : String → String → String → ℕ → Statement
  sets_offline : String → Statement
  creates_log : AgentAuditLog → Statement

pub record RegisterReq : Type 0 where
  pub hostname : String
  pub ip_addr : String
  pub version : String

pub record OfflineReq : Type 0 where
  pub hostname : String
  pub ip_addr : String

abbrev pub accepted : Answer
accepted = record { http = 200; code = 0; text = "" }

abbrev pub bad_request : String → Answer
bad_request reason = record { http = 400; code = 4000001; text = reason }

abbrev pub was_offline : Option AgentInfo → Bool
was_offline none = true
was_offline (some agent) = not agent.online

abbrev pub online_log : RegisterReq → AgentAuditLog
online_log req = record {
  ip_addr = req.ip_addr;
  hostname = req.hostname;
  event = "online";
  detail = "agent registered/recovered";
}

-- The row of the agent: created, if the database takes it, or updated.
unfoldable pub save_agent : ℕ → Option AgentInfo → Bool → RegisterReq → Option (List Statement)
save_agent now none created req =
    if not created
    then none
    else some (
        creates_agent (record {
          hostname = req.hostname;
          ip_addr = req.ip_addr;
          online = true;
          version = req.version;
          last_seen = now;
        })
        ∷ [])
save_agent now (some agent) created req =
    some (updates_agent req.ip_addr req.hostname req.version now ∷ [])

abbrev pub after_save : Bool → RegisterReq → Option (List Statement) → List Statement × Answer
after_save offline req none = ([], server_error 500 "db error")
after_save offline req (some saved) =
    (saved ++ (if offline then creates_log (online_log req) ∷ [] else []), accepted)

-- `RegisterAgentInternal`. The request is `none` where it cannot be bound, with the reason; `agent` is what
-- the query finds, and `created` whether the database takes a new row.
unfoldable pub register_agent_internal :
    ℕ → Option AgentInfo → Bool → String → Option RegisterReq → List Statement × Answer
unfolding save_agent
register_agent_internal now agent created reason none = ([], bad_request reason)
register_agent_internal now agent created reason (some req) =
    after_save (was_offline agent) req (save_agent now agent created req)

-- `RegisterAgentOffline`, where `updated` is whether the update is carried out.
unfoldable pub register_agent_offline : Bool → String → Option OfflineReq → List Statement × Answer
register_agent_offline updated reason none = ([], bad_request reason)
register_agent_offline updated reason (some req) =
    if not updated then ([], server_error 500 "db error") else (
      sets_offline req.ip_addr
          ∷ creates_log (record {
            ip_addr = req.ip_addr;
            hostname = req.hostname;
            event = "offline";
            detail = "no heartbeat for over 30s (reported by drop_server)";
          })
          ∷ [],
      accepted,
    )

-- The loop of `markStaleAgentsOffline` over what its query finds.
unfoldable pub mark_stale : List AgentInfo → List Statement
mark_stale [] = []
mark_stale (agent ∷ agents) =
    sets_offline agent.ip_addr
    ∷ creates_log (record {
      ip_addr = agent.ip_addr;
      hostname = agent.hostname;
      event = "offline";
      detail = "no heartbeat for over 30s";
    })
    ∷ mark_stale agents

-- The query may fail.
unfoldable pub mark_stale_agents_offline : Option (List AgentInfo) → List Statement
unfolding mark_stale
mark_stale_agents_offline none = []
mark_stale_agents_offline (some agents) = mark_stale agents
