-- ===== src/System/Site/Tasks.antt =====
-- HealthCheckChannel.cpp and ControlService.cpp together: the way of a task from `CreateTask` over the
-- queue of the server and that of the agent to the worker.
use mathlib.Core.List.{◌++◌, append_assoc, append-nil, Sublistᴰ}
use mathlib.Core.List.Sublistᴰ
use mini_drop.Base.{
  ℕ, String, Option, string_eq, eq_iff, if◌then◌else◌, List, [], ◌∷◌, ◌≡◌, refl, sym, ap, ◌∙◌,
  subst, All, append_step, sublist_step, arith,
}
use mini_drop.Proto.Hotmethod.{TaskDesc}
use mini_drop.Proto.Rpc.{ok, HealthCheckResponse}
use mini_drop.Server.HealthCheck.{heartbeat}
use mini_drop.Server.Control.Queue.{queued}
use mini_drop.Server.DropServer.Drain.{beat_of}
use mini_drop.Server.DropServer.{
  creates, fetches, stats, notifies, collects, registers, configures, scans, beats, step,
}
use mini_drop.Server.DropServer.Delivery.{put_in, taken_out, offered, step-queue, heartbeat-queue}
use mini_drop.Agent.HealthCheckChannel.{
  Channel, start, stop, request, receive, pop_task, take_front,
}
use mini_drop.Agent.HealthCheckChannel.Queue.{task_of, pop_task-queue, receive-queue}
use mini_drop.System.Site.{
  Site, Event, serves, beats_answered, beats_unanswered, beats_unsent, pops, starts, stops,
  answer_to, after_beat, happens, after,
}

-- The task that the event creates for the agent with address `ip`.
abbrev pub created : String → Event → List TaskDesc
created ip (serves c) = put_in ip c
created ip _ = []

abbrev pub all_created : String → List Event → List TaskDesc
all_created ip [] = []
all_created ip (e ∷ events) = created ip e ++ all_created ip events

-- The task that the worker gets from `PopTask`, and then executes.
abbrev pub executed : Site → Event → List TaskDesc
executed s pops = task_of (pop_task s.channel).0
executed s _ = []

-- The tasks on their way: in the queue of the agent, then in the queue of the server for it.
abbrev pub waiting : Site → List TaskDesc
waiting s = s.channel.task_queue ++ queued s.channel.ip_addr s.server.control

pub receive-offered :
    (c : Channel) (resp : HealthCheckResponse)
    → (receive c ok resp).0.task_queue ≡ c.task_queue ++ offered resp
unfolding offered
receive-offered c resp = receive-queue c resp

-- Every heartbeat of the agent is answered or does not reach the server, and nobody else beats with its
-- address.
abbrev pub IsAnswered : String → Event → Type 0
IsAnswered ip (serves c) = beat_of ip c ≡ 0
IsAnswered ip (beats_unanswered now message) = ⊥
IsAnswered ip _ = Unit

module _ (env : String → Option String) where
  abbrev pub all_executed : Site → List Event → List TaskDesc
  all_executed s [] = []
  all_executed s (e ∷ events) = executed s e ++ all_executed (happens env s e) events

  -- The task that leaves the queue of the server and does not arrive at the agent.
  abbrev pub lost : Site → Event → List TaskDesc
  lost s (serves c) = taken_out s.channel.ip_addr (c, (step env s.server c).response)
  lost s (beats_unanswered now message) = offered (answer_to env s now)
  lost s _ = []

  pub beat-queue :
      (s : Site) (now : ℕ)
      → let ip = s.channel.ip_addr in
        offered (answer_to env s now) ++ queued ip (after_beat env s now).control
        ≡ queued ip s.server.control
  unfolding step request
  beat-queue s now =
      let ip = s.channel.ip_addr in
      let r = heartbeat env now s.server.health s.server.control (request s.channel) in
      subst
        (λ b.
          (if b then offered r.response else []) ++ queued ip r.state.1
          ≡ queued ip s.server.control)
        ((eq_iff ip ip).1 refl) (heartbeat-queue env s.server now (request s.channel) ip)

  pub happens-ip_addr :
      (s : Site) (e : Event) → (happens env s e).channel.ip_addr ≡ s.channel.ip_addr
  unfolding happens
  happens-ip_addr s (serves c) = refl
  happens-ip_addr s (beats_answered now) = unfold receive in ground arith
  happens-ip_addr s (beats_unanswered now message) = unfold receive in refl
  happens-ip_addr s (beats_unsent message) = unfold receive in refl
  happens-ip_addr s pops = unfold pop_task take_front in ground arith
  happens-ip_addr s starts = unfold start in refl
  happens-ip_addr s stops = unfold stop in refl

  moves :
      (s : Site) (e : Event)
      → let t = happens env s e in
        let ip = s.channel.ip_addr in
        executed s e ++ (t.channel.task_queue ++ (lost s e ++ queued ip t.server.control))
        ≡ s.channel.task_queue ++ (queued ip s.server.control ++ created ip e)
  unfolding happens
  moves s (serves c) = ap (◌++◌ s.channel.task_queue) (step-queue env s.server c s.channel.ip_addr)
  moves s (beats_answered now) =
      let q = s.channel.task_queue in
      let out = offered (answer_to env s now) in
      ap (λ xs. xs ++ queued s.channel.ip_addr (after_beat env s now).control)
        (receive-offered s.channel (answer_to env s now))
      ∙ append_assoc q out _
      ∙ ap (◌++◌ q) (beat-queue s now ∙ sym (append-nil _))
  moves s (beats_unanswered now message) =
      unfold receive in ap (◌++◌ s.channel.task_queue) (beat-queue s now ∙ sym (append-nil _))
  moves s (beats_unsent message) =
      unfold receive in ap (◌++◌ s.channel.task_queue) (sym (append-nil _))
  moves s pops =
      let out = task_of (pop_task s.channel).0 in
      sym (append_assoc out _ _)
      ∙ ap (λ xs. xs ++ queued s.channel.ip_addr s.server.control) (pop_task-queue s.channel)
      ∙ ap (◌++◌ s.channel.task_queue) (sym (append-nil _))
  moves s starts = unfold start in ap (◌++◌ s.channel.task_queue) (sym (append-nil _))
  moves s stops = unfold stop in ap (◌++◌ s.channel.task_queue) (sym (append-nil _))

  moves_waiting :
      (s : Site) (e : Event)
      → let t = happens env s e in
        executed s e
          ++ (t.channel.task_queue ++ (lost s e ++ queued t.channel.ip_addr t.server.control))
        ≡ waiting s ++ created s.channel.ip_addr e
  moves_waiting s e =
      subst
        (λ ip.
          executed s e
            ++ ((happens env s e).channel.task_queue
                ++ (lost s e ++ queued ip (happens env s e).server.control))
          ≡ waiting s ++ created s.channel.ip_addr e)
        (sym (happens-ip_addr s e)) (moves s e ∙ sym (append_assoc s.channel.task_queue _ _))

  -- One step: what is executed or still waits was waiting before or is created by the step.
  step_sublist :
      (s : Site) (e : Event)
      → Sublistᴰ
          (executed s e ++ waiting (happens env s e))
          (waiting s ++ created s.channel.ip_addr e)
  step_sublist s e =
      subst (Sublistᴰ (executed s e ++ waiting (happens env s e))) (moves_waiting s e) (
        Sublistᴰ.append (Sublistᴰ.refl (executed s e)) (
          Sublistᴰ.append (Sublistᴰ.refl (happens env s e).channel.task_queue)
            (Sublistᴰ.append (Sublistᴰ.nil-sublist (lost s e)) (Sublistᴰ.refl _))))

  -- Whatever happens, answers that are lost and agents with the same address included: the tasks that
  -- the worker executes, followed by those still waiting in either queue, are in this order among the
  -- tasks that waited before, followed by those created for the agent since. So no task is executed more
  -- often than it was created, or before one that was created earlier, or by another agent.
  pub tasks_in_order :
      (s : Site) (events : List Event)
      → Sublistᴰ
          (all_executed s events ++ waiting (after env s events))
          (waiting s ++ all_created s.channel.ip_addr events)
  unfolding after
  tasks_in_order s [] = subst (Sublistᴰ (waiting s)) (sym (append-nil _)) (Sublistᴰ.refl _)
  tasks_in_order s (e ∷ events) =
      let t = happens env s e in
      sublist_step (executed s e) (all_executed t events) _ (waiting t) _ (waiting s) _
        (subst
          (λ ip.
            Sublistᴰ (all_executed t events ++ waiting (after env t events))
              (waiting t ++ all_created ip events))
          (happens-ip_addr s e) (tasks_in_order t events))
        (step_sublist s e)

  lost-IsAnswered : (s : Site) (e : Event) → IsAnswered s.channel.ip_addr e → lost s e ≡ []
  unfolding step
  lost-IsAnswered s (serves (beats now q)) h = ground arith
  lost-IsAnswered s (serves (creates q)) h = refl
  lost-IsAnswered s (serves (fetches q)) h = refl
  lost-IsAnswered s (serves (stats q)) h = refl
  lost-IsAnswered s (serves (notifies q)) h = refl
  lost-IsAnswered s (serves (collects q)) h = refl
  lost-IsAnswered s (serves (registers q)) h = refl
  lost-IsAnswered s (serves (configures q)) h = refl
  lost-IsAnswered s (serves (scans now)) h = refl
  lost-IsAnswered s (beats_answered now) h = refl
  lost-IsAnswered s (beats_unanswered now message) h = absurd h
  lost-IsAnswered s (beats_unsent message) h = refl
  lost-IsAnswered s pops h = refl
  lost-IsAnswered s starts h = refl
  lost-IsAnswered s stops h = refl

  -- If no answer is lost and nobody else beats with the agent's address, nothing is missing: the tasks
  -- that the worker executes, followed by those still waiting in either queue, are exactly those that
  -- waited before, followed by those created for the agent since, in this order.
  pub tasks_conserved :
      (s : Site) (events : List Event)
      → All (IsAnswered s.channel.ip_addr) events
      → all_executed s events ++ waiting (after env s events)
        ≡ waiting s ++ all_created s.channel.ip_addr events
  unfolding after
  tasks_conserved s [] h = sym (append-nil _)
  tasks_conserved s (e ∷ events) h =
      let t = happens env s e in
      append_step (executed s e) (all_executed t events) _ (waiting t) _ (waiting s) _
        (subst
          (λ ip.
            All (IsAnswered ip) events
            → all_executed t events ++ waiting (after env t events)
              ≡ waiting t ++ all_created ip events)
          (happens-ip_addr s e) (tasks_conserved t events) h.1)
        (ap
            (λ l.
              executed s e
              ++ (t.channel.task_queue ++ (l ++ queued t.channel.ip_addr t.server.control)))
            (sym (lost-IsAnswered s e h.0))
          ∙ moves_waiting s e)
