-- ===== src/System/Request/Decided.antt =====
-- A request of a user from ExecTask of the agent over NotifyResult and FetchData of drop_server to the task's row:
-- HotmethodChannel.cpp, HotmethodService.cpp, ControlService.cpp and apiserver/server/task.go.
use mathlib.Core.List.{◌++◌}
use Prim.Native.String.{◌++◌ as text_append}
use mini_drop.Base.{
  Bool, true, false, String, ◌==◌, string_eq, eq_iff, if◌then◌else◌, Option, some, List, [], ◌∷◌,
  ◌≡◌, ◌↔◌, refl, ap, ◌∙◌,
}
use mini_drop.Base.Int.{ℤ}
use mini_drop.Proto.Hotmethod.{TaskResult}
use mini_drop.Common.Perf.{PerfResult, Action}
use mini_drop.Common.Perf.Timeout.{IsSteady}
use mini_drop.Common.CosClient.{CosClient}
use mini_drop.Agent.HotmethodChannel.{Surroundings, cos_key, finish, exec_task}
use mini_drop.Agent.HotmethodChannel
use mini_drop.Agent.HotmethodChannel.Reports.{
  perf_of, notified, IsUploaded, finish_iff, exec_task-reports,
}
use mini_drop.Server.Control.{fetch_data}
use mini_drop.Server.DropServer.{new_server, Call, notifies, serve}
use mini_drop.ApiServer.Tasks.{
  Row, CreateTaskReq, runs, sets_done, sets_status, task_desc, done_status, failed_status,
  analysis_running,
}
use mini_drop.ApiServer.Table.{row_after_all}
use mini_drop.ApiServer.Watcher.{trigger_analysis}
use mini_drop.ApiServer.Watcher.Ending.{launched, analyzer_argv}
use mini_drop.System.Verdict.Ending.{conclude-finish}
use mini_drop.System.Handover.{watcher_acts, acts_at}
use mini_drop.System.Request.{request_of}

-- The row of a task that has been decided.
abbrev pub decided : String → Row → TaskResult → Row
decided tid row r =
    if r.error_message == ""
    then record row {
      status = done_status;
      status_info = "collection complete";
      cos_key = text_append tid "/perf.data";
      analysis_status = analysis_running;
    }
    else record row {
      status = failed_status;
      status_info = text_append "agent failure: " r.error_message;
    }

row-decided :
    (tid python script : String) (task_type : ℤ) (row : Row) (r : TaskResult) (told : Bool)
    → (r.error_message == "") ≡ told
    → row_after_all
        (if told
          then runs (sets_done tid (text_append tid "/perf.data"))
            ∷ trigger_analysis python script tid task_type
          else runs (sets_status tid failed_status (text_append "agent failure: " r.error_message))
            ∷ [])
        tid
        (some row)
      ≡ some (decided tid row r)
unfolding trigger_analysis
row-decided tid python script task_type row r true e = rw ((eq_iff tid tid).1 refl, e) refl
row-decided tid python script task_type row r false e = rw ((eq_iff tid tid).1 refl, e) refl

-- The commands that the watcher starts for a task that has been decided.
abbrev pub started : String → String → String → ℤ → TaskResult → List (List String)
started python script tid task_type r =
    if r.error_message == "" then analyzer_argv python script tid task_type ∷ [] else []

launched-started :
    (tid python script key : String) (task_type : ℤ) (r : TaskResult) (told : Bool)
    → (r.error_message == "") ≡ told
    → launched (
        if told
        then runs (sets_done tid key) ∷ trigger_analysis python script tid task_type
        else runs (sets_status tid failed_status (text_append "agent failure: " r.error_message))
          ∷ [])
      ≡ started python script tid task_type r
unfolding trigger_analysis
launched-started tid python script key task_type r true e = rw e refl
launched-started tid python script key task_type r false e = rw e refl

-- A user's request, where the agent's clock is steady: its execution comes to its end and makes one report.
-- Once that has reached drop_server, whatever was called before, the watcher's next answer of FetchData decides
-- the task: it is done, with the key of its perf.data, its analysis is marked as running, and the analyzer is
-- started, once, for this task and its type; or it has failed with the error message of the report, and nothing is
-- started. The report has no error message exactly if perf succeeded and both mc commands exited with 0.
pub request_is_decided :
    (env : String → Option String) (calls : List Call) (tid : String) (given : CreateTaskReq)
    (agent : Surroundings) (cos : CosClient) (python script : String) (task_type : ℤ) (row : Row)
    → IsSteady agent.os
    → let task = (request_of tid given).task_desc in
      (acts : List HotmethodChannel.Act) × (perf : PerfResult × List Action) × (r : TaskResult)
      × (exec_task agent cos task ≡ some acts)
      × (perf_of agent task ≡ some perf)
      × (notified acts ≡ r ∷ [])
      × ((r.error_message ≡ "") ↔ IsUploaded agent cos task perf.0)
      × (let s = serve env new_server (calls ++ (notifies r ∷ [])) in
          let resp = (fetch_data s.hotmethod s.control (record { task_id = tid })).response in
          let acts = acts_at python script tid task_type resp in
          (row_after_all acts tid (some row) ≡ some (decided tid row r))
          × (launched acts ≡ started python script tid task_type r))
unfolding task_desc
request_is_decided env calls tid given agent cos python script task_type row steady =
    let task = (request_of tid given).task_desc in
    let (acts, perf, ran, recorded, reports, _) = exec_task-reports agent cos task steady in
    let r = (finish agent cos task perf.0).0 in
    let analysis = trigger_analysis python script tid task_type in
    let concluded = conclude-finish env calls agent cos task perf.0 analysis in
    (
      acts,
      perf,
      r,
      ran,
      recorded,
      reports,
      (finish_iff agent cos task perf.0).0,
      (
        ap (λ o. row_after_all (watcher_acts o) tid (some row)) concluded
            ∙ row-decided tid python script task_type row r (r.error_message == "") refl,
        ap (λ o. launched (watcher_acts o)) concluded
            ∙ launched-started tid python script (cos_key task) task_type r (r.error_message == "")
                refl,
      ),
    )
