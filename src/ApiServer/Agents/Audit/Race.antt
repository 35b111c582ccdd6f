-- ===== src/ApiServer/Agents/Audit/Race.antt =====
-- agent.go and heartbeat_watchdog.go: the watchdog in the middle of a registration, which reads the row
-- of the agent and writes it in two statements.
use mathlib.Core.List.{◌++◌}
use mini_drop.Base.{
  ℕ, String, Bool, true, false, string_eq, eq_iff, some, List, [], ◌∷◌, ◌≡◌, ap, ◌∙◌, arith,
}
use mini_drop.ApiServer.Agents.{
  AgentInfo, Statement, RegisterReq, save_agent, register_agent_internal, mark_stale,
  mark_stale_agents_offline,
}
use mini_drop.ApiServer.Agents.Audit.{AgentTables, rows_after, entries_of, is_online, logged_online}
use mini_drop.ApiServer.Agents.Audit.History.{
  execute_all, agent-execute_all, entries-execute_all, logged_online-append,
}

-- The watchdog's statements for an agent that its query found, and then those of a registration that had
-- read the row before.
abbrev pub raced : ℕ → AgentInfo → AgentInfo → Bool → String → RegisterReq → List Statement
raced now stale read created reason req =
    mark_stale_agents_offline (some (stale ∷ []))
    ++ (register_agent_internal now (some read) created reason (some req)).0

raced-online :
    (now : ℕ) (stale read : AgentInfo) (created : Bool) (reason : String) (req : RegisterReq)
    (b : Bool)
    → read.online ≡ true
    → stale.ip_addr ≡ req.ip_addr
    → (is_online (rows_after (raced now stale read created reason req) req.ip_addr (some read))
        ≡ true)
      × (logged_online req.ip_addr b (entries_of (raced now stale read created reason req)) ≡ false)
unfolding register_agent_internal save_agent mark_stale mark_stale_agents_offline
raced-online now stale read created reason req b online same =
    ground (arith, eq_iff stale.ip_addr req.ip_addr, eq_iff req.ip_addr req.ip_addr)

-- A registration reads that its agent is online; before it writes, the watchdog marks this agent as
-- offline. Afterwards the agent is online, and the last entry about it says that it is offline.
pub race_loses_entry :
    (db : AgentTables) (d : db.Db) (now : ℕ) (stale read : AgentInfo) (created : Bool)
    (reason : String) (req : RegisterReq)
    → db.agent d req.ip_addr ≡ some read
    → read.online ≡ true
    → stale.ip_addr ≡ req.ip_addr
    → let d' = execute_all db (raced now stale read created reason req) d in
      (is_online (db.agent d' req.ip_addr) ≡ true)
      × (logged_online req.ip_addr false (db.entries d') ≡ false)
race_loses_entry db d now stale read created reason req known online same =
    let sts = raced now stale read created reason req in
    let was = logged_online req.ip_addr false (db.entries d) in
    let (o, l) = raced-online now stale read created reason req was online same in
    (
      ap is_online (agent-execute_all db sts d req.ip_addr ∙ ap (rows_after sts req.ip_addr) known)
          ∙ o,
      ap (logged_online req.ip_addr false) (entries-execute_all db sts d)
          ∙ logged_online-append req.ip_addr false (db.entries d) (entries_of sts)
          ∙ l,
    )
