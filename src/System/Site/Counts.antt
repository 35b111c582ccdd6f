-- ===== src/System/Site/Counts.antt =====
-- HealthCheckChannel.cpp and ControlService.cpp together: how many tasks a step moves.
use Prim.Native.Nat.{min}
use mathlib.Core.List.{◌++◌, append-nil}
use mini_drop.Base.{
  ℕ, ◌+◌, ◌≤◌, String, Option, string_eq, eq_iff, if◌then◌else◌, List, [], ◌∷◌, ◌≡◌, refl, sym, ap,
  ◌∙◌, subst, length, length-append, arith,
}
use mini_drop.Proto.Hotmethod.{TaskDesc}
use mini_drop.Server.Control.Queue.{queued}
use mini_drop.Server.DropServer.Delivery.{offered}
use mini_drop.Server.DropServer.Drain.{length-taken_beat}
use mini_drop.Agent.HealthCheckChannel.{Channel, request, pop_task, take_front, is_ready}
use mini_drop.Agent.HealthCheckChannel.Queue.{task_of}
use mini_drop.System.Site.{Site, Event, beats_answered, answer_to, happens, after}
use mini_drop.System.Site.Tasks.{
  created, executed, waiting, IsAnswered, receive-offered, beat-queue, happens-ip_addr,
  tasks_conserved,
}

pub popped-length :
    (c : Channel) (tasks : List TaskDesc)
    → c.task_queue ≡ tasks
    → length (task_of (pop_task c).0) ≡ min 1 (length tasks)
unfolding pop_task take_front is_ready
popped-length c [] e = ground arith
popped-length c (task ∷ tasks) e = ground arith

module _ (env : String → Option String) where
  -- One event that creates no task for the agent.
  pub length-executed :
      (s : Site) (e : Event)
      → IsAnswered s.channel.ip_addr e
      → created s.channel.ip_addr e ≡ []
      → length (executed s e) + length (waiting (happens env s e)) ≡ length (waiting s)
  unfolding after
  length-executed s e h none_new =
      let t = happens env s e in
      let kept : executed s e ++ waiting t ≡ waiting s =
        ap (λ xs. xs ++ waiting t) (sym (append-nil (executed s e)))
        ∙ tasks_conserved env s (e ∷ []) (h, tt)
        ∙ ap (λ xs. waiting s ++ (xs ++ [])) none_new
        ∙ append-nil (waiting s) in
      omega (arith, ap length kept, length-append (executed s e) (waiting t))

  length-offered :
      (s : Site) (now : ℕ)
      → length (offered (answer_to env s now))
        ≡ min 1 (length (queued s.channel.ip_addr s.server.control))
  unfolding request
  length-offered s now =
      let ip = s.channel.ip_addr in
      subst
        (λ b.
          length (if b then offered (answer_to env s now) else [])
          ≡ min (if b then 1 else 0) (length (queued ip s.server.control)))
        ((eq_iff ip ip).1 refl) (length-taken_beat env s.server now (request s.channel) ip)

  pub beaten-queue :
      (s : Site) (now : ℕ)
      → min 1 (length (waiting (happens env s (beats_answered now))))
        ≤ length (happens env s (beats_answered now)).channel.task_queue
  unfolding happens
  beaten-queue s now =
      let t = happens env s (beats_answered now) in
      let left = queued s.channel.ip_addr t.server.control in
      let same_address : waiting t ≡ t.channel.task_queue ++ left =
        ap (λ ip. t.channel.task_queue ++ queued ip t.server.control)
          (happens-ip_addr env s (beats_answered now)) in
      omega (
        arith,
        ap length same_address,
        length-append t.channel.task_queue left,
        ap length (receive-offered s.channel (answer_to env s now)),
        length-append s.channel.task_queue (offered (answer_to env s now)),
        length-offered s now,
        ap length (beat-queue env s now),
        length-append (offered (answer_to env s now)) left,
      )
