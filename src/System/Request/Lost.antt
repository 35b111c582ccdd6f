-- ===== src/System/Request/Lost.antt =====
-- CreateTask of apiserver/server/task.go where drop_server gets the call and its answer is lost, as after the
-- timeout of the call.
use mathlib.Core.List.{◌++◌}
use mini_drop.Base.{
  String, false, string_eq, eq_iff, Option, some, List, [], ◌∷◌, ◌≡◌, refl, ap, ◌∙◌, All, arith,
}
use mini_drop.Proto.Rpc.{CreateTaskRequest}
use mini_drop.Server.DropServer.{creates}
use mini_drop.Server.DropServer.Delivery.{put_in}
use mini_drop.ApiServer.Tasks.{
  with_defaults, Row, CreateTaskReq, call_failed, failed_status, create_task, dispatch_task,
}
use mini_drop.ApiServer.Table.{TaskTable, execute_all}
use mini_drop.ApiServer.Table.Creation.{is_watched, create_task-status}
use mini_drop.System.Site.{Site, Event, serves, after}
use mini_drop.System.Site.Tasks.{all_executed, waiting, all_created, IsAnswered, tasks_conserved}
use mini_drop.System.Request.{request_of, creation, dispatched}

pub put_in-creates :
    (ip : String) (q : CreateTaskRequest)
    → q.target_ip ≡ ip
    → put_in ip (creates q) ≡ q.task_desc ∷ []
put_in-creates ip q h = ground (arith, eq_iff q.target_ip ip)

sends :
    (tid uid user_name params err : String) (given : CreateTaskReq)
    → dispatched (creation tid uid user_name params (call_failed err) given)
      ≡ request_of tid given ∷ []
unfolding create_task dispatch_task with_defaults
sends tid uid user_name params err given = refl

module _ (env : String → Option String) (s : Site) (db : TaskTable) (t : db.Table) where
  -- If the call of drop_server fails for the apiserver although drop_server has served it: the task is failed
  -- in the table and nobody watches it; but, if every heartbeat that the server serves for the agent's address
  -- is this agent's and its answer arrives, the tasks that the agent executes followed by those still waiting
  -- are those that waited before, this task, and those created for the agent since, in this order.
  pub failed_call_runs :
      (tid uid user_name params err : String) (given : CreateTaskReq) (events : List Event)
      → given.target_ip ≡ s.channel.ip_addr
      → All (IsAnswered s.channel.ip_addr) events
      → let acts = creation tid uid user_name params (call_failed err) given in
        let q = request_of tid given in
        let all_events = serves (creates q) ∷ events in
        ((r : Row) × (db.row (execute_all db acts t) tid ≡ some r) × (r.status ≡ failed_status))
        × (is_watched acts ≡ false)
        × (dispatched acts ≡ q ∷ [])
        × (all_executed env s all_events ++ waiting (after env s all_events)
            ≡ waiting s ++ (q.task_desc ∷ all_created s.channel.ip_addr events))
  failed_call_runs tid uid user_name params err given events ip answered =
      let q = request_of tid given in
      let (row, watched) =
        create_task-status tid uid user_name params given db t (call_failed err) "" in
      (
        row,
        watched,
        sends tid uid user_name params err given,
        tasks_conserved env s (serves (creates q) ∷ events) (refl, answered)
            ∙ ap (λ xs. waiting s ++ (xs ++ all_created s.channel.ip_addr events))
                (put_in-creates s.channel.ip_addr q ip),
      )
