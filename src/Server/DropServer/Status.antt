-- ===== src/Server/DropServer/Status.antt =====
-- The status of a task as the apiserver sees it: `FetchData` against a specification that knows no
-- table, only the last report.
use mini_drop.Base.{
  String, ◌==◌, string_eq, if◌then◌else◌, Option, none, some, List, [], ◌∷◌, ◌≡◌, refl, ap, ◌∙◌,
  arith, true, false,
}
use mini_drop.Base.Dict.{lookup, lookup-insert}
use mini_drop.Proto.Hotmethod.{TaskResult}
use mini_drop.Proto.Rpc.{FetchDataRequest, FetchDataResponse}
use mini_drop.Server.Hotmethod.{HotmethodService, collect, notify_result, get_result}
use mini_drop.Server.Control.{answer, fetch_data}
use mini_drop.Server.DropServer.{DropServer, new_server, Call, creates, notifies, step, serve}

-- What is known of a task.
pub data TaskStatus : Type 0 where
  unreported : TaskStatus
  failed_with : String → TaskStatus
  uploaded_to : String → TaskStatus

-- A report with no error message announces an upload.
abbrev pub reported : TaskResult → TaskStatus
reported r = if r.error_message == "" then uploaded_to r.cos_key else failed_with r.error_message

-- The status after a sequence of calls: that of the last report under this id.
abbrev pub status_after : String → TaskStatus → List Call → TaskStatus
status_after id status [] = status
status_after id status (notifies r ∷ calls) =
    status_after id (if r.task_id == id then reported r else status) calls
status_after id status (_ ∷ calls) = status_after id status calls

-- The answer of the protocol for each status.
abbrev pub describe : TaskStatus → FetchDataResponse
describe unreported = record {
  success = false;
  cos_key = "";
  error_message = "task not done yet or not found";
}
describe (failed_with message) = record { success = false; cos_key = ""; error_message = message }
describe (uploaded_to key) = record { success = true; cos_key = key; error_message = "" }

abbrev pub status_of : Option TaskResult → TaskStatus
status_of none = unreported
status_of (some r) = reported r

answer_lem : (o : Option TaskResult) → answer o ≡ describe (status_of o)
unfolding answer
answer_lem none = refl
answer_lem (some r) = ground arith

status-notify_result :
    (s : HotmethodService) (r : TaskResult) (id : String)
    → status_of (get_result (notify_result s r).state id)
      ≡ (if r.task_id == id then reported r else status_of (get_result s id))
unfolding get_result notify_result
status-notify_result s r id = ground (arith, lookup-insert r.task_id id r s.results)

module _ (env : String → Option String) where
  status-serve :
      (s : DropServer) (calls : List Call) (id : String)
      → status_of (get_result (serve env s calls).hotmethod id)
        ≡ status_after id (status_of (get_result s.hotmethod id)) calls
  unfolding serve step collect
  status-serve s [] id = refl
  status-serve s (notifies r ∷ calls) id =
      rw (← status-notify_result s.hotmethod r id)
        (status-serve (step env s (notifies r)).server calls id)
  status-serve s (creates q ∷ calls) id = status-serve (step env s (creates q)).server calls id
  status-serve s (c ∷ calls) id = status-serve (step env s c).server calls id

  -- After any calls, `FetchData` answers by the last report made under the task's id, and says so
  -- when there was none: success and the key exactly if that report carried no error message, and
  -- otherwise that message.
  pub fetch_data-status_after :
      (calls : List Call) (request : FetchDataRequest)
      → let s = serve env new_server calls in
        (fetch_data s.hotmethod s.control request).response
        ≡ describe (status_after request.task_id unreported calls)
  unfolding fetch_data new_server get_result lookup
  fetch_data-status_after calls request =
      answer_lem (get_result (serve env new_server calls).hotmethod request.task_id)
      ∙ ap describe (status-serve new_server calls request.task_id)
