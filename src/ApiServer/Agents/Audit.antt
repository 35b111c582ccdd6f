-- ===== src/ApiServer/Agents/Audit.antt =====
-- agent.go and heartbeat_watchdog.go: the audit log against the table of the agents. The database is an
-- interface, with the laws of INSERT and UPDATE.
pub mod History
pub mod Race
use mathlib.Core.Option
use mathlib.Core.List.{◌++◌, append_assoc, append-nil}
use mini_drop.Base.{
  ℕ, String, Bool, true, false, not, ◌&&◌, ◌==◌, string_eq, eq_iff, if◌then◌else◌, Option, none,
  some, List, [], ◌∷◌, ◌≡◌, refl, sym, ap, ◌∙◌, arith,
}
use mini_drop.ApiServer.Agents.{
  AgentInfo, AgentAuditLog, Statement, creates_agent, updates_agent, sets_offline, creates_log,
  RegisterReq, OfflineReq, was_offline, online_log, save_agent, after_save, register_agent_internal,
  register_agent_offline, mark_stale, mark_stale_agents_offline,
}

abbrev renewed : String → String → ℕ → AgentInfo → AgentInfo
renewed hostname version now a = record a {
  hostname = hostname;
  online = true;
  version = version;
  last_seen = now;
}

abbrev gone : AgentInfo → AgentInfo
gone a = record a { online = false }

-- What a statement makes of the row of `ip`.
abbrev pub row_after : Statement → String → Option AgentInfo → Option AgentInfo
row_after (creates_agent a) ip o = if a.ip_addr == ip then some a else o
row_after (updates_agent key hostname version now) ip o =
    if key == ip then Option.map (renewed hostname version now) o else o
row_after (sets_offline key) ip o = if key == ip then Option.map gone o else o
row_after (creates_log e) ip o = o

-- What it adds to the log.
abbrev pub entry_of : Statement → List AgentAuditLog
entry_of (creates_log e) = e ∷ []
entry_of _ = []

-- Every statement is carried out. The log is read from the oldest entry on.
pub record AgentTables : Type 1 where
  pub Db : Type 0
  pub agent : Db → String → Option AgentInfo
  pub entries : Db → List AgentAuditLog
  pub execute : Statement → Db → Db
  pub agent-execute :
      (st : Statement) (d : Db) (ip : String)
      → agent (execute st d) ip ≡ row_after st ip (agent d ip)
  pub entries-execute :
      (st : Statement) (d : Db) → entries (execute st d) ≡ entries d ++ entry_of st

abbrev pub rows_after : List Statement → String → Option AgentInfo → Option AgentInfo
rows_after [] ip o = o
rows_after (st ∷ sts) ip o = rows_after sts ip (row_after st ip o)

abbrev pub entries_of : List Statement → List AgentAuditLog
entries_of [] = []
entries_of (st ∷ sts) = entry_of st ++ entries_of sts

abbrev pub is_online : Option AgentInfo → Bool
is_online none = false
is_online (some a) = a.online

-- By the entries, whether the agent is online, if it was (or not) before them.
abbrev pub logged_online : String → Bool → List AgentAuditLog → Bool
logged_online ip b [] = b
logged_online ip b (e ∷ es) =
    logged_online ip (if e.ip_addr == ip then e.event == "online" else b) es

-- No entry says of an agent that it came online when it was online already.
abbrev pub no_repeat : String → Bool → List AgentAuditLog → Bool
no_repeat ip b [] = true
no_repeat ip b (e ∷ es) =
    if e.ip_addr == ip
    then not (b && (e.event == "online")) && no_repeat ip (e.event == "online") es
    else no_repeat ip b es

-- The statements keep the log true to the row, and repeat nothing.
abbrev pub Faithful : String → Option AgentInfo → List Statement → Type 0
Faithful ip o sts =
    (is_online (rows_after sts ip o) ≡ logged_online ip (is_online o) (entries_of sts))
    × (no_repeat ip (is_online o) (entries_of sts) ≡ true)

mark_stale-Faithful :
    (agents : List AgentInfo) (ip : String) (o : Option AgentInfo)
    → Faithful ip o (mark_stale agents)
unfolding mark_stale
mark_stale-Faithful [] ip o = (refl, refl)
mark_stale-Faithful (a ∷ agents) ip none = ground (arith, mark_stale-Faithful agents ip none)
mark_stale-Faithful (a ∷ agents) ip (some r) = ground (
  arith,
  mark_stale-Faithful agents ip (some r),
  mark_stale-Faithful agents ip (some (record r { online = false })),
)

pub offline-Faithful :
    (updated : Bool) (reason : String) (req : Option OfflineReq) (ip : String)
    (o : Option AgentInfo)
    → Faithful ip o (register_agent_offline updated reason req).0
unfolding register_agent_offline
offline-Faithful updated reason none ip o = (refl, refl)
offline-Faithful updated reason (some req) ip none = ground arith
offline-Faithful updated reason (some req) ip (some r) = ground arith

-- The row that was read is `found`.
pub register-Faithful :
    (now : ℕ) (found : Option AgentInfo) (created : Bool) (reason : String) (req : RegisterReq)
    (ip : String) (o : Option AgentInfo)
    → (req.ip_addr ≡ ip → found ≡ o)
    → Faithful ip o (register_agent_internal now found created reason (some req)).0
unfolding register_agent_internal save_agent
register-Faithful now none created reason req ip none h = ground arith
register-Faithful now none created reason req ip (some r) h = ground (arith, eq_iff req.ip_addr ip)
register-Faithful now (some f) created reason req ip none h = ground (arith, eq_iff req.ip_addr ip)
register-Faithful now (some f) created reason req ip (some r) h =
    ground (arith, eq_iff req.ip_addr ip)

pub stale-Faithful :
    (agents : Option (List AgentInfo)) (ip : String) (o : Option AgentInfo)
    → Faithful ip o (mark_stale_agents_offline agents)
unfolding mark_stale_agents_offline
stale-Faithful none ip o = (refl, refl)
stale-Faithful (some agents) ip o = mark_stale-Faithful agents ip o
