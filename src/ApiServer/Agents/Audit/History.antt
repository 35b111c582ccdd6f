-- ===== src/ApiServer/Agents/Audit/History.antt =====
-- agent.go and heartbeat_watchdog.go: every history of the handlers and the watchdog, one after another.
use mathlib.Core.List.{◌++◌, append_assoc, append-nil}
use mini_drop.Base.{
  ℕ, String, Bool, true, false, ◌==◌, string_eq, if◌then◌else◌, Option, none, some, List, [], ◌∷◌,
  ◌≡◌, refl, sym, ap, ◌∙◌, arith,
}
use mini_drop.ApiServer.Agents.{
  AgentInfo, AgentAuditLog, Statement, RegisterReq, OfflineReq, register_agent_internal,
  register_agent_offline, mark_stale_agents_offline,
}
use mini_drop.ApiServer.Agents.Audit.{
  AgentTables, entry_of, rows_after, entries_of, is_online, logged_online, no_repeat, Faithful,
  register-Faithful, offline-Faithful, stale-Faithful,
}

-- A request that is handled to its end, or a round of the watchdog with what its query finds.
pub data Event : Type 0 where
  registers : ℕ → Bool → String → Option RegisterReq → Event
  reports_offline : Bool → String → Option OfflineReq → Event
  scans : Option (List AgentInfo) → Event

pub logged_online-append :
    (ip : String) (b : Bool) (es more : List AgentAuditLog)
    → logged_online ip b (es ++ more) ≡ logged_online ip (logged_online ip b es) more
logged_online-append ip b [] more = refl
logged_online-append ip b (e ∷ es) more =
    logged_online-append ip (if e.ip_addr == ip then e.event == "online" else b) es more

no_repeat-append :
    (ip : String) (b : Bool) (es more : List AgentAuditLog)
    → no_repeat ip b es ≡ true
    → no_repeat ip (logged_online ip b es) more ≡ true
    → no_repeat ip b (es ++ more) ≡ true
no_repeat-append ip b [] more h1 h2 = h2
no_repeat-append ip b (e ∷ es) more h1 h2 =
    ground (arith, no_repeat-append ip b es more, no_repeat-append ip (e.event == "online") es more)

module _ (db : AgentTables) where
  open db use {Db, agent, entries, execute, agent-execute, entries-execute}

  unfoldable pub execute_all : List Statement → Db → Db
  execute_all [] d = d
  execute_all (st ∷ sts) d = execute_all sts (execute st d)

  pub agent-execute_all :
      (sts : List Statement) (d : Db) (ip : String)
      → agent (execute_all sts d) ip ≡ rows_after sts ip (agent d ip)
  unfolding execute_all
  agent-execute_all [] d ip = refl
  agent-execute_all (st ∷ sts) d ip =
      agent-execute_all sts (execute st d) ip ∙ ap (rows_after sts ip) (agent-execute st d ip)

  pub entries-execute_all :
      (sts : List Statement) (d : Db) → entries (execute_all sts d) ≡ entries d ++ entries_of sts
  unfolding execute_all
  entries-execute_all [] d = sym (append-nil _)
  entries-execute_all (st ∷ sts) d =
      entries-execute_all sts (execute st d)
      ∙ ap (λ es. es ++ entries_of sts) (entries-execute st d)
      ∙ append_assoc (entries d) (entry_of st) (entries_of sts)

  -- The row of the agent that a request is about.
  abbrev pub found : Db → Option RegisterReq → Option AgentInfo
  found d none = none
  found d (some req) = agent d req.ip_addr

  abbrev pub statements : Db → Event → List Statement
  statements d (registers now created reason req) =
      (register_agent_internal now (found d req) created reason req).0
  statements d (reports_offline updated reason req) = (register_agent_offline updated reason req).0
  statements d (scans agents) = mark_stale_agents_offline agents

  unfoldable pub after : Db → List Event → Db
  unfolding execute_all
  after d [] = d
  after d (e ∷ events) = after (execute_all (statements d e) d) events

  statements-Faithful :
      (d : Db) (e : Event) (ip : String) → Faithful ip (agent d ip) (statements d e)
  unfolding register_agent_internal
  statements-Faithful d (registers now created reason none) ip = (refl, refl)
  statements-Faithful d (registers now created reason (some req)) ip =
      register-Faithful now (agent d req.ip_addr) created reason req ip (agent d ip)
        (λ h. ap (agent d) h)
  statements-Faithful d (reports_offline updated reason req) ip =
      offline-Faithful updated reason req ip (agent d ip)
  statements-Faithful d (scans agents) ip = stale-Faithful agents ip (agent d ip)

  -- From one state to another, what the log gains is true to the row of `ip`, and repeats nothing.
  abbrev Gains : String → Db → Db → Type 0
  Gains ip d d' =
      (new : List AgentAuditLog) × (entries d' ≡ entries d ++ new)
      × (is_online (agent d' ip) ≡ logged_online ip (is_online (agent d ip)) new)
      × (no_repeat ip (is_online (agent d ip)) new ≡ true)

  execute_all-Gains :
      (ip : String) (d : Db) (sts : List Statement)
      → Faithful ip (agent d ip) sts
      → Gains ip d (execute_all sts d)
  execute_all-Gains ip d sts h = (
    entries_of sts,
    entries-execute_all sts d,
    ap is_online (agent-execute_all sts d ip) ∙ h.0,
    h.1,
  )

  Gains-trans : (ip : String) (d d1 d2 : Db) → Gains ip d d1 → Gains ip d1 d2 → Gains ip d d2
  Gains-trans ip d d1 d2 (new1, e1, o1, n1) (new2, e2, o2, n2) =
      let was = is_online (agent d ip) in
      (
        new1 ++ new2,
        e2 ∙ ap (λ es. es ++ new2) e1 ∙ append_assoc (entries d) new1 new2,
        o2 ∙ ap (λ b. logged_online ip b new2) o1 ∙ sym (logged_online-append ip was new1 new2),
        no_repeat-append ip was new1 new2 n1 (ap (λ b. no_repeat ip b new2) (sym o1) ∙ n2),
      )

  after-Gains : (ip : String) (d : Db) (events : List Event) → Gains ip d (after d events)
  unfolding after
  after-Gains ip d [] = ([], sym (append-nil _), refl, refl)
  after-Gains ip d (e ∷ events) =
      let d1 = execute_all (statements d e) d in
      Gains-trans ip d d1 (after d1 events)
        (execute_all-Gains ip d (statements d e) (statements-Faithful d e ip))
        (after-Gains ip d1 events)

  -- Whatever the handlers and the watchdog are called with, one after another, if the log was true to the
  -- table for an agent: it is so afterwards, that is, the agent is online exactly if the last entry about
  -- it says so; and among the new entries none says that it came online when it was online already.
  pub audit_log-Faithful :
      (ip : String) (d : Db) (events : List Event)
      → is_online (agent d ip) ≡ logged_online ip false (entries d)
      → (is_online (agent (after d events) ip) ≡ logged_online ip false (entries (after d events)))
        × ((new : List AgentAuditLog) × (entries (after d events) ≡ entries d ++ new)
            × (no_repeat ip (is_online (agent d ip)) new ≡ true))
  audit_log-Faithful ip d events h =
      let (new, e, o, n) = after-Gains ip d events in
      (
        o
            ∙ ap (λ b. logged_online ip b new) h
            ∙ sym (logged_online-append ip false (entries d) new)
            ∙ ap (logged_online ip false) (sym e),
        (new, e, n),
      )
