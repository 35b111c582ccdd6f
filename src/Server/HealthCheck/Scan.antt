-- ===== src/Server/HealthCheck/Scan.antt =====
-- `OfflineScanLoop` against the rule that it carries out, and the record of each agent.
use mathlib.Core.Option
use mathlib.Core.List.{◌++◌ as append}
use mini_drop.Base.{
  ℕ, ◌+◌, ◌*◌, String, Bool, true, false, not, ◌&&◌, leb, ◌==◌, string_eq, if◌then◌else◌, Option,
  none, some, List, [], ◌∷◌, ◌≡◌, refl, arith, inl, inr, Bool-cases,
}
use mini_drop.Base.Dict.{Dict, lookup, get_or, lookup-insert}
use mini_drop.Proto.Rpc.{HealthCheckRequest}
use mini_drop.Common.Log.{info}
use mini_drop.Common.Effect.{Effect, log}
use mini_drop.Server.Apiserver.{notify_offline}
use mini_drop.Server.HealthCheck.{
  AgentState, HealthCheckService, second, offline_text, recovered_text, elapsed_sec, scan_agent,
  scan_agents, offline_scan, touch,
}

-- An agent is overdue when 31 whole seconds have passed since its last heartbeat.
abbrev pub is_overdue : ℕ → AgentState → Bool
is_overdue now state = leb (state.last_seen + 31 * second) now

abbrev pub goes_offline : ℕ → AgentState → Bool
goes_offline now state = state.online && is_overdue now state

-- Whether an entry of the table marks its agent offline; an agent that was never seen is not.
abbrev pub is_offline : Option AgentState → Bool
is_offline none = false
is_offline (some state) = not state.online

abbrev pub marked : ℕ → AgentState → AgentState
marked now state = record state { online = state.online && not (is_overdue now state) }

-- The audit line and the post for an agent that goes offline.
abbrev pub notices : (String → Option String) → ℕ → Dict String AgentState → List Effect
notices env now [] = []
notices env now ((ip, state) ∷ agents) =
    append
      (if goes_offline now state
        then log info (offline_text ip (elapsed_sec now state)) ∷ notify_offline env "" ip
        else [])
      (notices env now agents)

abbrev pub mark_all : ℕ → Dict String AgentState → Dict String AgentState
mark_all now [] = []
mark_all now ((ip, state) ∷ agents) = (ip, marked now state) ∷ mark_all now agents

module _ (env : String → Option String) where
  scan_agent_lem :
      (now : ℕ) (ip : String) (state : AgentState)
      → scan_agent env now ip state ≡ (
        marked now state,
        if goes_offline now state
            then log info (offline_text ip (elapsed_sec now state)) ∷ notify_offline env "" ip
            else [],
      )
  unfolding scan_agent elapsed_sec
  scan_agent_lem now ip state = ground arith

  scan_agents_lem :
      (now : ℕ) (agents : Dict String AgentState)
      → scan_agents env now agents ≡ (mark_all now agents, notices env now agents)
  unfolding scan_agents
  scan_agents_lem now [] = refl
  scan_agents_lem now ((ip, state) ∷ agents) =
      rw (scan_agent_lem now ip state, scan_agents_lem now agents)

  -- One round of the scan marks offline exactly the online agents whose last heartbeat is 31 seconds
  -- old or older, and no other field of any agent changes; for each of these, and for no other agent,
  -- it writes one audit line and posts to the apiserver, in the order of the table.
  pub offline_scan_lem :
      (now : ℕ) (s : HealthCheckService)
      → offline_scan env now s
        ≡ (record { agents = mark_all now s.agents }, notices env now s.agents)
  unfolding offline_scan
  offline_scan_lem now s = rw (scan_agents_lem now s.agents)

pub lookup-mark_all :
    (now : ℕ) (ip : String) (agents : Dict String AgentState)
    → lookup ip (mark_all now agents) ≡ Option.map (marked now) (lookup ip agents)
unfolding lookup
lookup-mark_all now ip [] = refl
lookup-mark_all now ip ((j, state) ∷ agents) = elim (Bool-cases (j == ip)) [
  | inl same ↦ rw same
  | inr other ↦ rw other (lookup-mark_all now ip agents)
]

pub lookup-touch :
    (s : HealthCheckService) (now : ℕ) (q : HealthCheckRequest) (ip : String)
    → lookup ip (touch s now q).0.agents ≡ (
        if q.ip_addr == ip
        then some (record { last_seen = now; online = true })
        else lookup ip s.agents)
unfolding touch
lookup-touch s now q ip = lookup-insert q.ip_addr ip _ s.agents

-- A heartbeat writes the recovery line exactly if the agent was marked offline.
pub touch-recovery :
    (s : HealthCheckService) (now : ℕ) (q : HealthCheckRequest)
    → (touch s now q).1 ≡ (
        if is_offline (lookup q.ip_addr s.agents)
        then log info (recovered_text q.ip_addr q.host_name) ∷ []
        else [])
unfolding touch get_or
touch-recovery s now q = ground arith
