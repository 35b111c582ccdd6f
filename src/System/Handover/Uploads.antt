-- ===== src/System/Handover/Uploads.antt =====
-- From the agent's ExecTask over drop_server and the apiserver's watcher to the poll worker: which tasks the
-- worker takes up.
use mathlib.Core.List.{◌++◌}
use Prim.Native.String.{◌++◌ as text_append}
use mini_drop.Base.{
  ltb, String, Bool, true, false, ◌==◌, string_eq, eq_iff, if◌then◌else◌, Option, some, List, [],
  ◌∷◌, ◌≡◌, ◌↔◌, refl, ap, ◌∙◌, arith,
}
use mini_drop.Base.Int.{ℤ}
use mini_drop.Proto.Hotmethod.{TaskDesc}
use mini_drop.Common.Perf.{PerfResult}
use mini_drop.Common.CosClient.{CosClient}
use mini_drop.Agent.HotmethodChannel.{Surroundings, cos_key, finish}
use mini_drop.Agent.HotmethodChannel.Reports.{IsUploaded, finish_iff}
use mini_drop.Server.Control.{fetch_data}
use mini_drop.Server.DropServer.{new_server, Call, notifies, serve}
use mini_drop.ApiServer.Tasks.{Row, Act, runs, sets_done, sets_status, failed_status}
use mini_drop.ApiServer.Table.{row_after_all}
use mini_drop.ApiServer.Watcher.{trigger_analysis, analysis_ended}
use mini_drop.System.Verdict.Ending.{conclude-finish}
use mini_drop.System.Handover.{row_waits, runs_launched, watcher_acts, acts_at}

-- The acts of a watcher that cannot run the analyzer: if it starts it, the run fails.
abbrev pub without_analyzer : String → List Act → List Act
without_analyzer tid acts =
    if ltb 0 (runs_launched acts) then acts ++ analysis_ended tid true else acts

waits_when :
    (python script tid key message : String) (task_type : ℤ) (r : Row) (uploaded : Bool)
    → row_waits (
        row_after_all
          (without_analyzer tid (
            if uploaded
            then runs (sets_done tid key) ∷ trigger_analysis python script tid task_type
            else runs (sets_status tid failed_status message) ∷ []))
          tid
          (some r))
      ≡ uploaded
unfolding trigger_analysis analysis_ended
waits_when python script tid key message task_type r true = rw ((eq_iff tid tid).1 refl) refl
waits_when python script tid key message task_type r false = rw ((eq_iff tid tid).1 refl) refl

-- Where the apiserver cannot run the analyzer: once the agent's report of a task has reached drop_server,
-- whatever that was called with before, the watcher's next answer of FetchData leaves the task waiting for
-- the poll worker exactly if perf succeeded and both mc commands exited with 0.
pub finish-waits :
    (env : String → Option String) (calls : List Call) (agent : Surroundings) (cos : CosClient)
    (task : TaskDesc) (perf : PerfResult) (python script : String) (task_type : ℤ) (row : Row)
    → let report = (finish agent cos task perf).0 in
      let s = serve env new_server (calls ++ (notifies report ∷ [])) in
      let resp = (fetch_data s.hotmethod s.control (record { task_id = task.task_id })).response in
      let acts = acts_at python script task.task_id task_type resp in
      (row_waits (row_after_all (without_analyzer task.task_id acts) task.task_id (some row))
        ≡ true)
      ↔ IsUploaded agent cos task perf
finish-waits env calls agent cos task perf python script task_type row =
    let report = (finish agent cos task perf).0 in
    let analysis = trigger_analysis python script task.task_id task_type in
    let waits_by : List Act → Bool = λ acts.
      row_waits (row_after_all (without_analyzer task.task_id acts) task.task_id (some row)) in
    let s = serve env new_server (calls ++ (notifies report ∷ [])) in
    let resp = (fetch_data s.hotmethod s.control (record { task_id = task.task_id })).response in
    let answered : waits_by (acts_at python script task.task_id task_type resp)
        ≡ (report.error_message == "") =
      ap (λ o. waits_by (watcher_acts o)) (conclude-finish env calls agent cos task perf analysis)
      ∙ waits_when python script task.task_id (cos_key task)
          (text_append "agent failure: " report.error_message) task_type row
          (report.error_message == "") in
    ground (arith, answered, eq_iff report.error_message "", (finish_iff agent cos task perf).0)
