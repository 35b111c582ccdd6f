-- ===== src/System/Verdict.antt =====
-- apiserver/server/task.go, startCollectionWatcher, against drop/server: what the watcher makes of the
-- answers of `FetchData`.
pub mod Ending
use Prim.Native.String.{◌++◌}
use mini_drop.Base.{
  String, ◌==◌, string_eq, eq_iff, if◌then◌else◌, Option, none, some, List, [], ◌∷◌, ◌≡◌, ◌≢◌, refl,
  sym, ap, ◌∙◌, arith, true, false,
}
use mini_drop.Proto.Rpc.{FetchDataRequest}
use mini_drop.Server.Control.{fetch_data}
use mini_drop.Server.DropServer.{new_server, Call, serve}
use mini_drop.Server.DropServer.Status.{
  TaskStatus, unreported, failed_with, uploaded_to, status_after, describe, fetch_data-status_after,
}
use mini_drop.ApiServer.Tasks.{Act, runs, sets_done, sets_status, failed_status}
use mini_drop.ApiServer.Watcher.{conclude, still_running}

-- A report that the watcher can tell from no report: an upload has a key, and a failure has a message
-- of its own.
abbrev pub IsClear : TaskStatus → Type 0
IsClear unreported = Unit
IsClear (failed_with message) = (message ≢ "") × (message ≢ still_running)
IsClear (uploaded_to key) = key ≢ ""

-- The verdict on a status.
abbrev pub verdict : List Act → String → TaskStatus → Option (List Act)
verdict analysis tid unreported = none
verdict analysis tid (failed_with message) =
    some (runs (sets_status tid failed_status ("agent failure: " ++ message)) ∷ [])
verdict analysis tid (uploaded_to key) = some (runs (sets_done tid key) ∷ analysis)

conclude-describe :
    (analysis : List Act) (tid : String) (status : TaskStatus)
    → IsClear status
    → conclude analysis tid (some (describe status)) ≡ verdict analysis tid status
unfolding conclude
conclude-describe analysis tid unreported h = refl
conclude-describe analysis tid (failed_with message) h =
    ground (arith, eq_iff message "", eq_iff message still_running)
conclude-describe analysis tid (uploaded_to key) h = ground (arith, eq_iff key "")

-- After any calls of drop_server, if the last report of the task is clear (or there is none): the watcher goes on while there is no report,
-- marks the task as done with the key of the last report if that announces an upload, and as failed with
-- its message otherwise.
pub conclude-fetch_data :
    (env : String → Option String) (calls : List Call) (analysis : List Act) (tid : String)
    → IsClear (status_after tid unreported calls)
    → let s = serve env new_server calls in
      conclude analysis tid
        (some (fetch_data s.hotmethod s.control (record { task_id = tid })).response)
      ≡ verdict analysis tid (status_after tid unreported calls)
conclude-fetch_data env calls analysis tid h =
    ap (λ resp. conclude analysis tid (some resp))
      (fetch_data-status_after env calls (record { task_id = tid }))
    ∙ conclude-describe analysis tid (status_after tid unreported calls) h
