-- ===== src/System.antt =====
-- Server and agent together: a task's run on the agent, its report, and the apiserver's question.
pub mod Site
pub mod Verdict
pub mod Request
pub mod Handover
pub mod Mirror
use mini_drop.Base.{
  String, true, string_eq, eq_iff, if◌then◌else◌, some, ◌≡◌, ◌↔◌, ap, subst, arith,
}
use mini_drop.Base.Dict.{lookup, insert, lookup-insert_self}
use mini_drop.Proto.Hotmethod.{TaskDesc, TaskResult}
use mini_drop.Common.Perf.{PerfResult}
use mini_drop.Common.CosClient.{CosClient}
use mini_drop.Server.Hotmethod.{HotmethodService, notify_result, get_result}
use mini_drop.Server.Control.{ControlService, answer, fetch_data}
use mini_drop.Agent.HotmethodChannel.{Surroundings, cos_key, finish}
use mini_drop.Agent.HotmethodChannel.Reports.{IsUploaded, IsTold, finish_iff, finish-IsAbout}

fetch_data-notify_result :
    (s : HotmethodService) (c : ControlService) (r : TaskResult) (id : String)
    → r.task_id ≡ id
    → (fetch_data (notify_result s r).state c (record { task_id = id })).response ≡ answer (some r)
unfolding fetch_data get_result notify_result
fetch_data-notify_result s c r id h = ap answer (
    subst (λ k. lookup k (insert r.task_id r s.results) ≡ some r) h
      (lookup-insert_self r.task_id r s.results))

answer_iff :
    (task : TaskDesc) (r : TaskResult)
    → IsTold task r
    → (((answer (some r)).success ≡ true) ↔ (r.error_message ≡ ""))
      × ((answer (some r)).cos_key ≡ (if (answer (some r)).success then cos_key task else ""))
unfolding answer
answer_iff task r told = ground (arith, eq_iff r.error_message "")

answered_iff :
    (s : HotmethodService) (c : ControlService) (task : TaskDesc) (r : TaskResult)
    → r.task_id ≡ task.task_id
    → IsTold task r
    → let answered =
        (fetch_data (notify_result s r).state c (record { task_id = task.task_id })).response in
      ((answered.success ≡ true) ↔ (r.error_message ≡ ""))
      × (answered.cos_key ≡ (if answered.success then cos_key task else ""))
answered_iff s c task r h told =
    rw (fetch_data-notify_result s c r task.task_id h) (answer_iff task r told)

-- Once the agent's report of a task has reached the server, `FetchData` for that task answers success
-- exactly if perf succeeded and the data were uploaded, and gives the key of the upload then and none
-- otherwise; whatever the server had stored before.
pub fetch_data-finish :
    (env : Surroundings) (cos : CosClient) (task : TaskDesc) (perf : PerfResult)
    (s : HotmethodService) (c : ControlService)
    → let r = (finish env cos task perf).0 in
      let answered =
        (fetch_data (notify_result s r).state c (record { task_id = task.task_id })).response in
      ((answered.success ≡ true) ↔ IsUploaded env cos task perf)
      × (answered.cos_key ≡ (if answered.success then cos_key task else ""))
fetch_data-finish env cos task perf s c =
    let (told_error, told_key) = finish_iff env cos task perf in
    let about = finish-IsAbout env cos task perf in
    let answered = answered_iff s c task (finish env cos task perf).0 about.names_task told_key in
    ground (arith, answered, told_error)
