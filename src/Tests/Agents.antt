-- ===== src/Tests/Agents.antt =====
-- The theorems about the apiserver's table of agents at concrete inputs.
use mathlib.Core.List.{◌++◌}
use mini_drop.Base.{String, string_eq, true, false, Option, none, some, List, [], ◌∷◌, ◌≡◌, refl}
use mini_drop.ApiServer.Agents.{AgentInfo, AgentAuditLog, RegisterReq}
use mini_drop.ApiServer.Agents.Audit.{
  AgentTables, row_after, entry_of, is_online, logged_online, no_repeat,
}
use mini_drop.ApiServer.Agents.Audit.History.{
  Event, registers, reports_offline, scans, after, execute_all, audit_log-Faithful,
}
use mini_drop.ApiServer.Agents.Audit.Race.{raced, race_loses_entry}

-- Tables that are their rows and entries.
abbrev pub plain : AgentTables
plain = record {
  Db = (String → Option AgentInfo) × List AgentAuditLog;
  agent = λ d ip. d.0 ip;
  entries = λ d. d.1;
  execute = λ st d. (λ ip. row_after st ip (d.0 ip), d.1 ++ entry_of st);
  agent-execute = λ st d ip. refl;
  entries-execute = λ st d. refl;
}

abbrev pub empty_db : (String → Option AgentInfo) × List AgentAuditLog
empty_db = (λ ip. none, [])

abbrev worker : RegisterReq
worker = record { hostname = "worker"; ip_addr = "10.0.0.1"; version = "0.1.0" }

abbrev known_worker : AgentInfo
known_worker = record {
  hostname = "worker";
  ip_addr = "10.0.0.1";
  online = true;
  version = "0.1.0";
  last_seen = 5;
}

-- Registered, heard again, found silent by both sides, and heard again.
abbrev agent_events : List Event
agent_events =
    registers 5 true "" (some worker)
    ∷ registers 1000000005 true "" (some worker)
    ∷ scans (some (known_worker ∷ []))
    ∷ reports_offline true "" (some (record { hostname = ""; ip_addr = "10.0.0.1" }))
    ∷ registers 60000000000 true "" (some worker)
    ∷ []

audit_log-Faithful_example :
    let d' = after plain empty_db agent_events in
    (is_online (plain.agent d' "10.0.0.1") ≡ logged_online "10.0.0.1" false (plain.entries d'))
    × ((new : List AgentAuditLog) × (plain.entries d' ≡ [] ++ new)
        × (no_repeat "10.0.0.1" false new ≡ true))
audit_log-Faithful_example = audit_log-Faithful plain "10.0.0.1" empty_db agent_events refl

abbrev known_db : (String → Option AgentInfo) × List AgentAuditLog
known_db = (λ ip. some known_worker, [])

race_loses_entry_example :
    let d' =
      execute_all plain (raced 40000000000 known_worker known_worker true "" worker) known_db in
    (is_online (plain.agent d' "10.0.0.1") ≡ true)
    × (logged_online "10.0.0.1" false (plain.entries d') ≡ false)
race_loses_entry_example =
    race_loses_entry plain known_db 40000000000 known_worker known_worker true "" worker refl refl
      refl
