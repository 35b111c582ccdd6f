-- ===== src/System/Mirror/Posts.antt =====
-- HealthCheckService.cpp against apiserver/server/agent.go: what the posts of a heartbeat and of a scan do
-- to the table of the apiserver.
use Prim.Native.String.{◌++◌ as text_append}
use text.Mathlib.TextLemmas.{append_cancel_left}
use mathlib.Core.List.{◌++◌}
use mini_drop.Base.{
  ℕ, String, Bool, true, false, ◌==◌, string_eq, eq_iff, if◌then◌else◌, Option, none, some, List,
  [], ◌∷◌, ◌≡◌, refl, sym, ap, ◌∙◌, subst, arith,
}
use mini_drop.Common.Effect.{Effect, log, post}
use mini_drop.ApiServer.Agents.{
  AgentInfo, RegisterReq, OfflineReq, save_agent, register_agent_internal, register_agent_offline,
}
use mini_drop.ApiServer.Agents.Audit.{AgentTables, rows_after, is_online}
use mini_drop.ApiServer.Agents.Audit.History.{execute_all, found, agent-execute_all}
use mini_drop.System.Mirror.{Binding, routed, deliver}

register-is_online :
    (now : ℕ) (found : Option AgentInfo) (reason : String) (req : RegisterReq) (ip : String)
    (o : Option AgentInfo)
    → (req.ip_addr ≡ ip → found ≡ o)
    → is_online (rows_after (register_agent_internal now found true reason (some req)).0 ip o)
      ≡ (if req.ip_addr == ip then true else is_online o)
unfolding register_agent_internal save_agent
register-is_online now none reason req ip none h = ground arith
register-is_online now none reason req ip (some r) h = ground (arith, eq_iff req.ip_addr ip)
register-is_online now (some f) reason req ip none h = ground (arith, eq_iff req.ip_addr ip)
register-is_online now (some f) reason req ip (some r) h = ground (arith, eq_iff req.ip_addr ip)

offline-is_online :
    (reason : String) (req : OfflineReq) (ip : String) (o : Option AgentInfo)
    → is_online (rows_after (register_agent_offline true reason (some req)).0 ip o)
      ≡ (if req.ip_addr == ip then false else is_online o)
unfolding register_agent_offline
offline-is_online reason req ip none = ground arith
offline-is_online reason req ip (some r) = ground arith

module _ (lib : Binding) (base : String) (db : AgentTables) where
  abbrev pub shown : db.Db → String → Bool
  shown d ip = is_online (db.agent d ip)

  registered :
      (now : ℕ) (d : db.Db) (req : RegisterReq) (ip : String)
      → shown
          (execute_all db
            (register_agent_internal now (db.agent d req.ip_addr) true "" (some req)).0
            d)
          ip
        ≡ (if req.ip_addr == ip then true else shown d ip)
  registered now d req ip =
      let known = db.agent d req.ip_addr in
      ap is_online
        (agent-execute_all db (register_agent_internal now known true "" (some req)).0 d ip)
      ∙ register-is_online now known "" req ip (db.agent d ip) (λ h. ap (db.agent d) h)

  reported :
      (d : db.Db) (req : OfflineReq) (ip : String)
      → shown (execute_all db (register_agent_offline true "" (some req)).0 d) ip
        ≡ (if req.ip_addr == ip then false else shown d ip)
  reported d req ip =
      ap is_online (agent-execute_all db (register_agent_offline true "" (some req)).0 d ip)
      ∙ offline-is_online "" req ip (db.agent d ip)

  other_route :
      (text_append base "/internal/agent-offline" == text_append base "/internal/agent-register")
      ≡ false
  other_route = ground (
    arith,
    eq_iff (text_append base "/internal/agent-offline")
        (text_append base "/internal/agent-register"),
    append_cancel_left base "/internal/agent-offline" "/internal/agent-register",
    eq_iff "/internal/agent-offline" "/internal/agent-register",
  )

  pub routed-register :
      (now : ℕ) (body : String) (d : db.Db) (req : RegisterReq) (ip : String)
      → lib.read_register body ≡ some req
      → shown (routed lib base db now (text_append base "/internal/agent-register") body d) ip
        ≡ (if req.ip_addr == ip then true else shown d ip)
  unfolding routed
  routed-register now body d req ip read =
      let url = text_append base "/internal/agent-register" in
      rw ((eq_iff url url).1 refl) (
        subst
          (λ o.
            shown (execute_all db (register_agent_internal now (found db d o) true "" o).0 d) ip
            ≡ (if req.ip_addr == ip then true else shown d ip))
          (sym read) (registered now d req ip))

  pub routed-offline :
      (now : ℕ) (body : String) (d : db.Db) (req : OfflineReq) (ip : String)
      → lib.read_offline body ≡ some req
      → shown (routed lib base db now (text_append base "/internal/agent-offline") body d) ip
        ≡ (if req.ip_addr == ip then false else shown d ip)
  unfolding routed
  routed-offline now body d req ip read =
      let url = text_append base "/internal/agent-offline" in
      rw (other_route, (eq_iff url url).1 refl)
        (subst
          (λ o.
            shown (execute_all db (register_agent_offline true "" o).0 d) ip
            ≡ (if req.ip_addr == ip then false else shown d ip))
          (sym read) (reported d req ip))

  pub deliver-append :
      (now : ℕ) (es more : List Effect) (d : db.Db)
      → deliver lib base db now (es ++ more) d
        ≡ deliver lib base db now more (deliver lib base db now es d)
  unfolding deliver
  deliver-append now [] more d = refl
  deliver-append now (log level text ∷ es) more d = deliver-append now es more d
  deliver-append now (post url body ∷ es) more d =
      deliver-append now es more (routed lib base db now url body d)
