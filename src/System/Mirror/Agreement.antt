-- ===== src/System/Mirror/Agreement.antt =====
-- HealthCheckService.cpp, InitAgentInfoService.cpp and apiserver/server/agent.go: the two tables about the agents
-- that beat.
use mathlib.Core.Option
use mini_drop.Base.{
  ℕ, String, Bool, true, false, not, ◌&&◌, ◌==◌, string_eq, if◌then◌else◌, Option, none, some, List,
  [], ◌∷◌, All, ◌≡◌, refl, sym, ap, ◌∙◌, subst, arith, Bool-cases, inl, inr,
}
use mini_drop.Base.Dict.{lookup}
use mini_drop.Proto.Rpc.{HealthCheckRequest, RegisterAgentRequest}
use mini_drop.Server.Control.{ControlService}
use mini_drop.Server.HealthCheck.{AgentState, new_health, touch, heartbeat}
use mini_drop.Server.HealthCheck.Scan.{
  goes_offline, marked, notices, offline_scan_lem, lookup-mark_all, lookup-touch,
}
use mini_drop.ApiServer.Agents.Audit.{AgentTables, is_online}
use mini_drop.System.Mirror.{Binding, deliver, Event, beats, scans, registers, Both, happens, after}
use mini_drop.System.Mirror.Posts.{shown}
use mini_drop.System.Mirror.Steps.{base, IsReadable, deliver-notices, beat-shown, register-shown}
use mini_drop.System.Mirror.Keys.{
  stays-some, Distinct, Distinct-insert, Distinct-mark_all, AllRead, AllRead-insert,
  AllRead-mark_all,
}

-- Whether an agent has registered since its last heartbeat, where `late` says so of the time before.
abbrev pub noted : Event → String → Bool → Bool
noted (beats now received q) ip late = if q.ip_addr == ip then false else late
noted (scans now received) ip late = late
noted (registers received q) ip late = if q.ip_addr == ip then true else late

abbrev pub is_late : List Event → String → Bool → Bool
is_late [] ip late = late
is_late (e ∷ events) ip late = is_late events ip (noted e ip late)

-- The tables say the same of an agent; or, if it is late, it is online in the apiserver's if it is in the
-- server's.
abbrev pub Mirrors : Bool → Bool → Bool → Type 0
Mirrors false in_server in_table = in_table ≡ in_server
Mirrors true in_server in_table = (in_server && in_table) ≡ in_server

Mirrors-online : (late in_server : Bool) → Mirrors late true true × Mirrors true in_server true
Mirrors-online true in_server = (refl, ground arith)
Mirrors-online false in_server = (refl, ground arith)

Mirrors-scan :
    (late : Bool) (now : ℕ) (st : AgentState) (in_table : Bool)
    → Mirrors late st.online in_table
    → Mirrors late (marked now st).online (in_table && not (goes_offline now st))
Mirrors-scan true now st in_table h = ground arith
Mirrors-scan false now st in_table h = ground arith

module _ (env : String → Option String) (lib : Binding) (db : AgentTables) where
  shown_in : Both db.Db → String → Bool
  shown_in s ip = shown lib (base env lib db) db s.tables ip

  -- `late` says which agents have registered since their last heartbeat.
  record Agrees (late : String → Bool) (s : Both db.Db) : Type 0 where
    distinct : Distinct s.health.agents
    read : AllRead lib s.health.agents
    same :
        (ip : String) (st : AgentState)
        → lookup ip s.health.agents ≡ some st
        → Mirrors (late ip) st.online (shown_in s ip)

  beat-Agrees :
      (now received : ℕ) (q : HealthCheckRequest) (late : String → Bool) (s : Both db.Db)
      → IsReadable env lib db (beats now received q)
      → Agrees late s
      → Agrees
          (λ ip. noted (beats now received q) ip (late ip))
          (happens env lib db s (beats now received q))
  unfolding happens heartbeat touch shown_in
  beat-Agrees now received q late s h a = record {
    distinct = Distinct-insert q.ip_addr _ s.health.agents a.distinct;
    read = AllRead-insert lib q.ip_addr _ s.health.agents h.1 a.read;
    same = λ ip st known.
        let e = lookup-touch s.health now q ip in
        let now_shown = beat-shown env lib db now received q s ip h in
        elim (Bool-cases (q.ip_addr == ip)) [
          | inl this ↦
              let seen : some (record { last_seen = now; online = true }) ≡ some st =
                rw (← known, e, this) refl in
              let online : st.online ≡ true = ground (arith, seen) in
              rw (this) (now_shown ∙ rw (this, online) refl)
          | inr other ↦
              let seen : lookup ip s.health.agents ≡ some st = rw (← known, e, other) refl in
              let kept = now_shown ∙ ap (λ b. if b then true else shown_in s ip) other in
              rw other (subst (Mirrors (late ip) st.online) (sym kept) (a.same ip st seen))
        ];
  }

  after_notices : ℕ → ℕ → Both db.Db → String → Bool
  after_notices now received s ip =
      let posts = notices env now s.health.agents in
      shown lib (base env lib db) db (deliver lib (base env lib db) db received posts s.tables) ip

  scan-same :
      (now received : ℕ) (late : String → Bool) (s : Both db.Db) (ip : String)
      (o : Option AgentState) (st : AgentState)
      → Agrees late s
      → lookup ip s.health.agents ≡ o
      → Option.map (marked now) o ≡ some st
      → Mirrors (late ip) st.online (after_notices now received s ip)
  unfolding shown_in after_notices
  scan-same now received late s ip none st a before h = absurd (cc h)
  scan-same now received late s ip (some old) st a before h =
      let seen : marked now old ≡ st = ground (arith, h) in
      let kept =
        deliver-notices env lib db received now s.health.agents s.tables ip a.read
        ∙ ap (λ b. shown_in s ip && b) (stays-some now s.health.agents ip old a.distinct before) in
      subst (λ x. Mirrors (late ip) x.online (after_notices now received s ip)) seen
        (subst (Mirrors (late ip) (marked now old).online) (sym kept)
          (Mirrors-scan (late ip) now old (shown_in s ip) (a.same ip old before)))

  scan-Agrees :
      (now received : ℕ) (late : String → Bool) (s : Both db.Db)
      → Agrees late s
      → Agrees late (happens env lib db s (scans now received))
  unfolding happens shown_in after_notices base
  scan-Agrees now received late s a =
      subst
        (λ scanned. Agrees late (record s {
          health = scanned.0;
          tables = deliver lib (base env lib db) db received scanned.1 s.tables;
        }))
        (sym (offline_scan_lem env now s.health))
        (record {
          distinct = Distinct-mark_all now s.health.agents a.distinct;
          read = AllRead-mark_all lib now s.health.agents a.read;
          same = λ ip st known.
              scan-same now received late s ip (lookup ip s.health.agents) st a refl
                (sym (lookup-mark_all now ip s.health.agents) ∙ known);
        })

  register-Agrees :
      (received : ℕ) (q : RegisterAgentRequest) (late : String → Bool) (s : Both db.Db)
      → IsReadable env lib db (registers received q)
      → Agrees late s
      → Agrees
          (λ ip. noted (registers received q) ip (late ip))
          (happens env lib db s (registers received q))
  unfolding happens shown_in
  register-Agrees received q late s h a = record {
    distinct = a.distinct;
    read = a.read;
    same = λ ip st known.
        let now_shown = register-shown env lib db received q s ip h in
        elim (Bool-cases (q.ip_addr == ip)) [
          | inl this ↦
              let kept = now_shown ∙ ap (λ b. if b then true else shown_in s ip) this in
              rw this (subst (Mirrors true st.online) (sym kept) (Mirrors-online true st.online).1)
          | inr other ↦
              let kept = now_shown ∙ ap (λ b. if b then true else shown_in s ip) other in
              rw other (subst (Mirrors (late ip) st.online) (sym kept) (a.same ip st known))
        ];
  }

  after-Agrees :
      (late : String → Bool) (s : Both db.Db) (events : List Event)
      → All (IsReadable env lib db) events
      → Agrees late s
      → Agrees (λ ip. is_late events ip (late ip)) (after env lib db s events)
  unfolding after
  after-Agrees late s [] h a = a
  after-Agrees late s (beats now received q ∷ events) h a =
      after-Agrees (λ ip. noted (beats now received q) ip (late ip))
        (happens env lib db s (beats now received q)) events h.1
        (beat-Agrees now received q late s h.0 a)
  after-Agrees late s (scans now received ∷ events) h a =
      after-Agrees late (happens env lib db s (scans now received)) events h.1
        (scan-Agrees now received late s a)
  after-Agrees late s (registers received q ∷ events) h a =
      after-Agrees (λ ip. noted (registers received q) ip (late ip))
        (happens env lib db s (registers received q)) events h.1
        (register-Agrees received q late s h.0 a)

  -- A server that has just been started, with any tables of the apiserver, after these events.
  abbrev pub from_start : ControlService → db.Db → List Event → Both db.Db
  from_start control d events =
      after env lib db (record { health = new_health; control = control; tables = d }) events

  -- From a server that knows no agent on, with any tables of the apiserver: after any heartbeats, scans and
  -- registrations whose posts get through in their order and whose bodies are read as they are meant, every
  -- agent that the server knows is online in the apiserver's table exactly if it is in the server's; but if
  -- it has registered since its last heartbeat, it may be online in the apiserver's alone.
  pub tables_agree :
      (control : ControlService) (d : db.Db) (events : List Event) (ip : String) (st : AgentState)
      → All (IsReadable env lib db) events
      → lookup ip (from_start control d events).health.agents ≡ some st
      → Mirrors
          (is_late events ip false)
          st.online
          (is_online (db.agent (from_start control d events).tables ip))
  unfolding new_health lookup shown_in
  tables_agree control d events ip st h =
      let a =
        after-Agrees (λ ip. false) (record { health = new_health; control = control; tables = d })
          events h (record { distinct = tt; read = tt; same = λ j st' known. absurd (cc known) }) in
      a.same ip st
