-- ===== src/System/Site/Loss.antt =====
-- HealthCheckService.cpp, `Do`, against HealthCheckChannel.cpp, `Run`: the task of an answer that does
-- not arrive.
use mathlib.Core.List.{◌++◌, Sublistᴰ, head?}
use mini_drop.Base.{ℕ, String, Option, List, [], ◌∷◌, ◌≡◌, sym, ap, ◌∙◌, subst}
use mini_drop.Proto.Hotmethod.{TaskDesc}
use mini_drop.Server.HealthCheck.{heartbeat}
use mini_drop.Server.Control.{pop_task_for_agent}
use mini_drop.Server.Control.Queue.{queued, to_list, pop_task_for_agent-head}
use mini_drop.Server.DropServer.Delivery.{offered, offered-offer}
use mini_drop.Agent.HealthCheckChannel.{request, receive}
use mini_drop.System.Site.{Site, Event, beats_unanswered, answer_to, happens, after}
use mini_drop.System.Site.Tasks.{
  waiting, all_created, all_executed, beat-queue, happens-ip_addr, tasks_in_order,
}

tail_of_cons :
    (out xs rest : List TaskDesc) (task : TaskDesc)
    → out ≡ task ∷ []
    → out ++ xs ≡ task ∷ rest
    → xs ≡ rest
tail_of_cons out xs rest task h e =
    let two : task ∷ xs ≡ task ∷ rest = ap (λ o. o ++ xs) (sym h) ∙ e in cc

module _ (env : String → Option String) where
  offered-answer_to :
      (s : Site) (now : ℕ)
      → offered (answer_to env s now) ≡ to_list (head? (queued s.channel.ip_addr s.server.control))
  unfolding heartbeat request
  offered-answer_to s now =
      offered-offer s.channel.ip_addr (pop_task_for_agent s.server.control s.channel.ip_addr).0
      ∙ ap to_list (pop_task_for_agent-head s.server.control s.channel.ip_addr)

  waiting-unanswered :
      (s : Site) (now : ℕ) (message : String) (task : TaskDesc) (rest : List TaskDesc)
      → queued s.channel.ip_addr s.server.control ≡ task ∷ rest
      → waiting (happens env s (beats_unanswered now message)) ≡ s.channel.task_queue ++ rest
  unfolding happens receive
  waiting-unanswered s now message task rest h = ap (◌++◌ s.channel.task_queue) (
      tail_of_cons _ _ rest task (offered-answer_to s now ∙ ap (λ xs. to_list (head? xs)) h)
        (beat-queue env s now ∙ h))

  -- A task waits at the front of the agent's queue on the server, and the answer to the agent's next
  -- heartbeat does not arrive. Then, whatever happens afterwards, all that the worker executes and all
  -- that waits is, in this order, among the other tasks that waited and those created later: the task
  -- itself is gone, and neither side keeps it.
  pub unanswered_loses_task :
      (s : Site) (now : ℕ) (message : String) (task : TaskDesc) (rest : List TaskDesc)
      (events : List Event)
      → queued s.channel.ip_addr s.server.control ≡ task ∷ rest
      → let all_events = beats_unanswered now message ∷ events in
        Sublistᴰ
          (all_executed env s all_events ++ waiting (after env s all_events))
          ((s.channel.task_queue ++ rest) ++ all_created s.channel.ip_addr events)
  unfolding after
  unanswered_loses_task s now message task rest events h =
      let t = happens env s (beats_unanswered now message) in
      subst
        (λ xs.
          Sublistᴰ (all_executed env t events ++ waiting (after env t events))
            (xs ++ all_created s.channel.ip_addr events))
        (waiting-unanswered s now message task rest h)
        (subst
          (λ ip.
            Sublistᴰ (all_executed env t events ++ waiting (after env t events))
              (waiting t ++ all_created ip events))
          (happens-ip_addr env s (beats_unanswered now message)) (tasks_in_order env t events))
