-- ===== src/System/Request/Served.antt =====
-- CreateTask of apiserver/server/task.go, the queues of drop_server and of the agent, and the agent's worker: a
-- request of a user until perf is started.
use mathlib.Core.List.{◌++◌}
use mini_drop.Base.{
  ℕ, suc, ◌≤◌, false, String, string_eq, Option, List, [], ◌∷◌, ◌≡◌, refl, ap, ◌∙◌, All, length,
  length-append, arith,
}
use mini_drop.Proto.Rpc.{CreateTaskRequest}
use mini_drop.Common.Perf.{child}
use mini_drop.Common.Perf.Timeout.{IsSteady}
use mini_drop.Common.CosClient.{CosClient}
use mini_drop.Agent.HotmethodChannel.{Surroundings}
use mini_drop.Server.DropServer.{creates}
use mini_drop.ApiServer.Tasks.{Dispatch, CreateTaskReq}
use mini_drop.System.Site.{Site, Event, serves, happens, after}
use mini_drop.System.Site.Tasks.{all_executed, waiting, IsAnswered, tasks_conserved}
use mini_drop.System.Site.Rounds.{turns, CreatesNone, turns_execute}
use mini_drop.System.Request.{creation, dispatched, RunsAsAsked, creation-perf_commands}
use mini_drop.System.Request.Lost.{put_in-creates}

module _ (env : String → Option String) (s : Site) where
  queued_last :
      (q : CreateTaskRequest)
      → q.target_ip ≡ s.channel.ip_addr
      → waiting (happens env s (serves (creates q))) ≡ waiting s ++ (q.task_desc ∷ [])
  unfolding after
  queued_last q mine =
      tasks_conserved env s (serves (creates q) ∷ []) (refl, tt)
      ∙ ap (λ xs. waiting s ++ (xs ++ [])) (put_in-creates s.channel.ip_addr q mine)

  executed_last :
      (q : CreateTaskRequest) (events : List Event)
      → q.target_ip ≡ s.channel.ip_addr
      → All (IsAnswered s.channel.ip_addr) events
      → All (CreatesNone env s.channel.ip_addr) events
      → suc (length (waiting s)) ≤ turns false events
      → all_executed env s (serves (creates q) ∷ events) ≡ waiting s ++ (q.task_desc ∷ [])
  unfolding happens
  executed_last q events mine h none_new enough =
      let t = happens env s (serves (creates q)) in
      let more = queued_last q mine in
      let fits : length (waiting t) ≤ turns false events =
        omega (arith, enough, ap length more, length-append (waiting s) (q.task_desc ∷ [])) in
      (turns_execute env t events h none_new fits).0 ∙ more

  -- A user's request, whose call CreateTask reaches drop_server: if every heartbeat that the server serves for
  -- the agent's address is this agent's and its answer arrives, no other task is created for it, and the
  -- worker asks for a task, each time with a heartbeat since the time before, more often than there were tasks
  -- waiting: then it executes these and last the user's. If the agent can start a child and has a steady
  -- clock, that execution comes to its end, and Perf::Record starts one command in it, perf on the user's process
  -- with the user's rate, duration and call graph, or 99, 30 and dwarf where they were left open, into the task's
  -- directory.
  pub request_is_run :
      (tid uid user_name params : String) (dispatch : Dispatch) (given : CreateTaskReq)
      (q : CreateTaskRequest) (events : List Event) (agent : Surroundings) (cos : CosClient) (c : ℕ)
      → dispatched (creation tid uid user_name params dispatch given) ≡ q ∷ []
      → given.target_ip ≡ s.channel.ip_addr
      → All (IsAnswered s.channel.ip_addr) events
      → All (CreatesNone env s.channel.ip_addr) events
      → suc (length (waiting s)) ≤ turns false events
      → agent.os.fork ≡ child c
      → IsSteady agent.os
      → (all_executed env s (serves (creates q) ∷ events) ≡ waiting s ++ (q.task_desc ∷ []))
        × RunsAsAsked tid given agent cos q.task_desc
  request_is_run tid uid user_name params dispatch given q events agent cos c sent mine h none_new
        enough forked steady =
      let (target, runs) =
        creation-perf_commands tid uid user_name params dispatch given q agent cos c sent forked
          steady in
      (executed_last q events (target ∙ mine) h none_new enough, runs)
