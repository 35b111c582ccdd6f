-- ===== src/Server/DropServer/Presence.antt =====
-- What the server believes of an agent after any calls: its last heartbeat decides.

use mini_drop.Base.{
  ℕ, ◌+◌, ◌*◌, String, Bool, true, ◌&&◌, ltb, string_eq, eq_iff, Option, some, List, [], ◌∷◌, ◌≡◌,
  ap, ◌∙◌, arith,
}
use mini_drop.Base.Dict.{lookup}
use mini_drop.Proto.Rpc.{HealthCheckRequest}
use mini_drop.Server.HealthCheck.{second, heartbeat}
use mini_drop.Server.HealthCheck.Scan.{offline_scan_lem, lookup-mark_all, lookup-touch}
use mini_drop.Server.DropServer.{DropServer, Call, creates, beats, scans, step, serve}
use mini_drop.Server.DropServer.Drain.{beat_of, beats_of}

abbrev pub in_time_call : ℕ → Call → Bool
in_time_call t (scans now) = ltb now (t + 31 * second)
in_time_call t _ = true

-- No scan of the sequence comes 31 seconds after `t` or later.
abbrev pub in_time : ℕ → List Call → Bool
in_time t [] = true
in_time t (c ∷ calls) = in_time_call t c && in_time t calls

module _ (env : String → Option String) where
  presence_step :
      (s : DropServer) (c : Call) (ip : String) (t : ℕ) (b : Bool)
      → lookup ip s.health.agents ≡ some (record { last_seen = t; online = b })
      → beat_of ip c ≡ 0
      → lookup ip (step env s c).server.health.agents
        ≡ some (record { last_seen = t; online = b && in_time_call t c })
  unfolding step heartbeat
  presence_step s (beats now q) ip t b known quiet = ground (arith, lookup-touch s.health now q ip)
  presence_step s (scans now) ip t b known quiet =
      rw (offline_scan_lem env now s.health, lookup-mark_all now ip s.health.agents, known)
        (ground arith)
  presence_step s (creates q) ip t b known quiet = ground arith
  presence_step s _ ip t b known quiet = ground arith

  presence_from :
      (s : DropServer) (calls : List Call) (ip : String) (t : ℕ) (b : Bool)
      → lookup ip s.health.agents ≡ some (record { last_seen = t; online = b })
      → beats_of ip calls ≡ 0
      → lookup ip (serve env s calls).health.agents
        ≡ some (record { last_seen = t; online = b && in_time t calls })
  unfolding serve
  presence_from s [] ip t b known quiet = ground arith
  presence_from s (c ∷ calls) ip t b known quiet =
      presence_from (step env s c).server calls ip t (b && in_time_call t c)
        (presence_step s c ip t b known (omega arith)) (omega arith)
      ∙ ap (λ o. some (record { last_seen = t; online = o })) (ground arith)

  -- From an agent's last heartbeat, at time `t`, on: the server remembers `t`, and takes the agent
  -- for online exactly if no scan has come 31 seconds after `t` or later. So a heartbeat brings an
  -- agent online whatever was before, no agent is given up earlier, and the first late scan does it.
  pub presence :
      (s : DropServer) (t : ℕ) (q : HealthCheckRequest) (calls : List Call)
      → beats_of q.ip_addr calls ≡ 0
      → lookup q.ip_addr (serve env s (beats t q ∷ calls)).health.agents
        ≡ some (record { last_seen = t; online = in_time t calls })
  unfolding serve step heartbeat
  presence s t q calls quiet =
      presence_from (step env s (beats t q)).server calls q.ip_addr t true
        (ground (arith, lookup-touch s.health t q q.ip_addr, eq_iff q.ip_addr q.ip_addr)) quiet
