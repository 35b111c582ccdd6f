-- ===== src/System/Mirror/Steps.antt =====
-- HealthCheckService.cpp and InitAgentInfoService.cpp against apiserver/server/agent.go: what each event does
-- to the table of the apiserver.
use Prim.Native.String.{◌++◌ as text_append}
use mathlib.Core.List.{◌++◌}
use mini_drop.Base.{
  ℕ, String, true, ◌&&◌, ◌==◌, string_eq, if◌then◌else◌, Option, none, some, [], ◌∷◌, ◌≡◌, refl, ap,
  ◌∙◌, arith, Bool-cases, inl, inr,
}
use mini_drop.Base.Dict.{Dict}
use mini_drop.Proto.Hotmethod.{TaskDesc}
use mini_drop.Proto.Rpc.{HealthCheckRequest, RegisterAgentRequest}
use mini_drop.Server.Init.{register_agent}
use mini_drop.Server.Apiserver.{
  agent_json, offline_json, post_json, notify_heartbeat, notify_offline, notify_apiserver,
}
use mini_drop.Server.Control.{pop_task_for_agent}
use mini_drop.Server.HealthCheck.{AgentState, HealthCheckService, touch, offer, heartbeat}
use mini_drop.Server.HealthCheck.Scan.{goes_offline, notices}
use mini_drop.ApiServer.Agents.Audit.{AgentTables}
use mini_drop.System.Mirror.{
  Binding, routed, deliver, Event, beats, scans, registers, Both, base_url, happens,
}
use mini_drop.System.Mirror.Posts.{shown, routed-register, routed-offline, deliver-append}
use mini_drop.System.Mirror.Keys.{stays, IsRead, AllRead}

module _ (env : String → Option String) (lib : Binding) (db : AgentTables) where
  unfoldable pub base : String
  base = base_url env lib db

  pub deliver-notices :
      (received now : ℕ) (m : Dict String AgentState) (d : db.Db) (ip : String)
      → AllRead lib m
      → shown lib base db (deliver lib base db received (notices env now m) d) ip
        ≡ (shown lib base db d ip && stays now m ip)
  unfolding deliver base notify_offline post_json
  deliver-notices received now [] d ip h = ground arith
  deliver-notices received now ((k, st) ∷ m) d ip h = elim (Bool-cases (goes_offline now st)) [
    | inl goes ↦
        let body = offline_json "" k in
        let d1 = routed lib base db received (text_append base "/internal/agent-offline") body d in
        let off = routed-offline lib base db received body d _ ip h.0 in
        rw goes (
          deliver-notices received now m d1 ip h.1
          ∙ ap (λ b. b && stays now m ip) off
          ∙ ground arith)
    | inr keeps ↦ rw keeps (deliver-notices received now m d ip h.1 ∙ ground arith)
  ]

  deliver-touch :
      (received now : ℕ) (s : HealthCheckService) (q : HealthCheckRequest) (d : db.Db)
      → deliver lib base db received (touch s now q).1 d ≡ d
  unfolding deliver touch
  deliver-touch received now s q d = ground arith

  deliver-offer :
      (received : ℕ) (ip : String) (o : Option TaskDesc) (d : db.Db)
      → deliver lib base db received (offer ip o).1 d ≡ d
  unfolding deliver offer
  deliver-offer received ip none d = refl
  deliver-offer received ip (some task) d = refl

  -- Both bodies that name this agent are read as they are meant.
  abbrev pub IsReadable : Event → Type 0
  IsReadable (beats now received q) =
      (lib.read_register (agent_json q.host_name q.ip_addr q.agent_version)
        ≡ some (record { hostname = q.host_name; ip_addr = q.ip_addr; version = q.agent_version }))
      × IsRead lib q.ip_addr
  IsReadable (scans now received) = Unit
  IsReadable (registers received q) =
      lib.read_register (agent_json q.host_name q.ip_addr q.agent_version)
      ≡ some (record { hostname = q.host_name; ip_addr = q.ip_addr; version = q.agent_version })

  pub beat-shown :
      (now received : ℕ) (q : HealthCheckRequest) (s : Both db.Db) (ip : String)
      → IsReadable (beats now received q)
      → shown lib base db (happens env lib db s (beats now received q)).tables ip
        ≡ (if q.ip_addr == ip then true else shown lib base db s.tables ip)
  unfolding happens heartbeat deliver base notify_heartbeat post_json
  beat-shown now received q s ip h =
      let body = agent_json q.host_name q.ip_addr q.agent_version in
      let url = text_append base "/internal/agent-register" in
      let offered = (offer q.ip_addr (pop_task_for_agent s.control q.ip_addr).0).1 in
      let audit = (touch s.health now q).1 in
      let rest = notify_heartbeat env q.host_name q.ip_addr q.agent_version ++ offered in
      ap (λ d. shown lib base db d ip)
        (deliver-append lib base db received audit rest s.tables
          ∙ ap (deliver lib base db received rest) (deliver-touch received now s.health q s.tables)
          ∙ deliver-offer received q.ip_addr (pop_task_for_agent s.control q.ip_addr).0
              (routed lib base db received url body s.tables))
      ∙ routed-register lib base db received body s.tables _ ip h.0

  pub register-shown :
      (received : ℕ) (q : RegisterAgentRequest) (s : Both db.Db) (ip : String)
      → IsReadable (registers received q)
      → shown lib base db (happens env lib db s (registers received q)).tables ip
        ≡ (if q.ip_addr == ip then true else shown lib base db s.tables ip)
  unfolding happens register_agent notify_apiserver deliver base
  register-shown received q s ip h =
      let body = agent_json q.host_name q.ip_addr q.agent_version in
      routed-register lib base db received body s.tables _ ip h
