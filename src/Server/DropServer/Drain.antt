-- ===== src/Server/DropServer/Drain.antt =====
-- Heartbeats empty a queue: each takes one task as long as there is one.
use Prim.Native.Nat.{min}
use mathlib.Core.List.{◌++◌, append-nil, head?}
use mini_drop.Base.{
  ℕ, ◌+◌, ◌-◌, ◌≤◌, String, ◌==◌, string_eq, eq_iff, if◌then◌else◌, Option, List, [], ◌∷◌, ◌≡◌,
  refl, sym, ap, ◌∙◌, inl, inr, length, length-append, arith, Bool-cases,
}
use mini_drop.Proto.Hotmethod.{TaskDesc}
use mini_drop.Proto.Rpc.{HealthCheckRequest}
use mini_drop.Server.Control.{pop_task_for_agent}
use mini_drop.Server.Control.Queue.{queued, to_list, pop_task_for_agent-head}
use mini_drop.Server.HealthCheck.{heartbeat}
use mini_drop.Server.DropServer.{DropServer, Call, creates, beats, step, serve, responses}
use mini_drop.Server.DropServer.Delivery.{
  put_in, created_for, taken_out, delivered_to, offered, offered-offer, step-queue, delivery,
}

abbrev pub beat_of : String → Call → ℕ
beat_of ip (beats now q) = if q.ip_addr == ip then 1 else 0
beat_of ip _ = 0

-- How many heartbeats of an agent a sequence holds.
abbrev pub beats_of : String → List Call → ℕ
beats_of ip [] = 0
beats_of ip (c ∷ calls) = beat_of ip c + beats_of ip calls

length-to_list-head : (xs : List TaskDesc) → length (to_list (head? xs)) ≡ min 1 (length xs)
length-to_list-head [] = omega arith
length-to_list-head (x ∷ xs) = omega arith

nil_of_length : (xs : List TaskDesc) → length xs ≤ 0 → xs ≡ []
nil_of_length [] h = refl
nil_of_length (x ∷ xs) h = absurd (omega arith)

module _ (env : String → Option String) where
  pub length-taken_beat :
      (s : DropServer) (now : ℕ) (q : HealthCheckRequest) (ip : String)
      → length (
          if q.ip_addr == ip then offered (heartbeat env now s.health s.control q).response else [])
        ≡ min (if q.ip_addr == ip then 1 else 0) (length (queued ip s.control))
  unfolding heartbeat
  length-taken_beat s now q ip = elim (Bool-cases (q.ip_addr == ip)) [
    | inl same ↦
        rw
          (
            same,
            offered-offer q.ip_addr (pop_task_for_agent s.control q.ip_addr).0,
            pop_task_for_agent-head,
            (eq_iff q.ip_addr ip).0 same,
          )
          (length-to_list-head (queued ip s.control))
    | inr other ↦ rw other (omega arith)
  ]

  length-taken_out :
      (s : DropServer) (c : Call) (ip : String)
      → length (taken_out ip (c, (step env s c).response))
        ≡ min (beat_of ip c) (length (queued ip s.control))
  unfolding step
  length-taken_out s (beats now q) ip = unfold offered in length-taken_beat s now q ip
  length-taken_out s (creates q) ip = omega arith
  length-taken_out s _ ip = omega arith

  length-queued-step :
      (s : DropServer) (c : Call) (ip : String)
      → min (beat_of ip c) (length (queued ip s.control))
          + length (queued ip (step env s c).server.control)
        ≡ length (queued ip s.control) + length (put_in ip c)
  length-queued-step s c ip = omega (
    arith,
    ap length (step-queue env s c ip),
    length-append (taken_out ip (c, (step env s c).response))
        (queued ip (step env s c).server.control),
    length-append (queued ip s.control) (put_in ip c),
    length-taken_out s c ip,
  )

  length-queued-serve :
      (s : DropServer) (calls : List Call) (ip : String)
      → length (created_for ip calls) ≡ 0
      → length (queued ip (serve env s calls).control)
        ≡ length (queued ip s.control) - beats_of ip calls
  unfolding serve
  length-queued-serve s [] ip h = omega arith
  length-queued-serve s (c ∷ calls) ip h =
      let parts = length-append (put_in ip c) (created_for ip calls) in
      omega (
        arith,
        parts,
        length-queued-step s c ip,
        length-queued-serve (step env s c).server calls ip (omega (arith, parts)),
      )

  -- With no new task for an agent, as many heartbeats as it has tasks waiting deliver them all, in
  -- their order, whatever other calls come between; and its queue is then empty.
  drain :
      (s : DropServer) (calls : List Call) (ip : String)
      → created_for ip calls ≡ []
      → length (queued ip s.control) ≤ beats_of ip calls
      → (delivered_to ip (responses env s calls) ≡ queued ip s.control)
        × (queued ip (serve env s calls).control ≡ [])
  drain s calls ip h k =
      let empty =
        nil_of_length (queued ip (serve env s calls).control)
          (omega (arith, length-queued-serve s calls ip (ap length h))) in
      let whole = delivery env s calls ip in
      (
        sym (append-nil _)
            ∙ sym (ap (◌++◌ (delivered_to ip (responses env s calls))) empty)
            ∙ whole
            ∙ ap (◌++◌ (queued ip s.control)) h
            ∙ append-nil _,
        empty,
      )
