-- ===== src/ApiServer/Tasks/Existing.antt =====
-- apiserver/server/task.go: RetryTask and DeleteTask.
use Prim.Native.String.{◌++◌}
use mini_drop.Base.{
  ℕ, String, Bool, not, string_eq, eqb, if◌then◌else◌, Option, none, some, List, [], ◌∷◌,
}
use mini_drop.ApiServer.Tasks.{
  Row, Act, runs, inserts, removes, Answer, ok_with, server_error, pending_status, analysis_pending,
}

-- `RetryTask`, where `old` is the row that the database finds.
unfoldable pub retry_task : String → String → String → Bool → Option Row → List Act × Answer
retry_task tid new_tid uid created none =
    ([], record { http = 404; code = 4040001; text = "original task not found" })
retry_task tid new_tid uid created (some old) =
    if not created then ([], server_error 500 "db error") else (
      runs (
            inserts (record old {
              tid = new_tid;
              name = old.name ++ " (retry)";
              status = pending_status;
              status_info = "retried from " ++ tid;
              analysis_status = analysis_pending;
              cos_key = "";
              uid = uid;
            }))
          ∷ [],
      ok_with new_tid,
    )

-- `DeleteTask`, where `affected` is the number of rows that the database reports, if it reports no error.
unfoldable pub delete_task : String → String → Option ℕ → List Act × Answer
delete_task tid uid none = ([], server_error 500 "db error")
delete_task tid uid (some affected) = (
  runs (removes tid uid) ∷ [],
  if eqb affected 0
      then record { http = 404; code = 4040001; text = "task not found or no permission" }
      else ok_with tid,
)
