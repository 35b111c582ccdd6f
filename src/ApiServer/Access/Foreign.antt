-- ===== src/ApiServer/Access/Foreign.antt =====
-- apiserver/server: the handlers and the watcher on rows that are not theirs.
use mini_drop.Base.{
  String, Bool, true, false, string_eq, Option, none, some, List, [], ◌∷◌, ◌≡◌, ◌≢◌, refl, arith,
  Bool-cases, inl, inr,
}
use mini_drop.ApiServer.Tasks.{
  Row, CreateTaskReq, Dispatch, no_client, call_failed, answered, new_row, dispatch_task,
  create_task,
}
use mini_drop.ApiServer.Table.{AllStatements}
use mini_drop.ApiServer.Watcher.Statements.{HoldsOfUpdates}
use mini_drop.ApiServer.Tasks.Existing.{retry_task, delete_task}
use mini_drop.ApiServer.Access.{Identity}
use mini_drop.ApiServer.Access.Routes.{
  Request, creates, retries, deletes, lists, gets, own, is_free, handle,
}
use mini_drop.ApiServer.Access.Rows.{Spares}

is_free-own :
    (tid uid : String) (rows : List Row)
    → is_free tid rows ≡ true
    → is_free tid (own uid rows) ≡ true
is_free-own tid uid [] h = refl
is_free-own tid uid (r ∷ rows) h = ground (arith, is_free-own tid uid rows)

create_task-AllStatements :
    (uid : String) (mine : List Row) (tid owner user_name params : String) (created : Bool)
    (dispatch : Dispatch) (reason : String) (given : Option CreateTaskReq)
    → owner ≢ uid
    → (created ≡ true → is_free tid mine ≡ true)
    → AllStatements
        (Spares uid mine)
        (create_task tid owner user_name params created dispatch reason given).0
unfolding create_task dispatch_task new_row
create_task-AllStatements uid mine tid owner user_name params created dispatch reason none o free =
    tt
create_task-AllStatements uid mine tid owner user_name params false dispatch reason (some given) o
      free =
    tt
create_task-AllStatements uid mine tid owner user_name params true no_client reason (some given) o
      free =
    (o, tt)
create_task-AllStatements uid mine tid owner user_name params true (call_failed err) reason
      (some given) o free =
    (o, (free refl, tt))
create_task-AllStatements uid mine tid owner user_name params true (answered resp) reason
      (some given) o free =
    elim (Bool-cases resp.success) [
      | inl good ↦ rw good (o, (free refl, tt))
      | inr bad ↦ rw bad (o, (free refl, tt))
    ]

retry_task-AllStatements :
    (uid : String) (mine : List Row) (tid new_tid owner : String) (created : Bool)
    (old : Option Row)
    → owner ≢ uid
    → AllStatements (Spares uid mine) (retry_task tid new_tid owner created old).0
unfolding retry_task
retry_task-AllStatements uid mine tid new_tid owner created none o = tt
retry_task-AllStatements uid mine tid new_tid owner false (some old) o = tt
retry_task-AllStatements uid mine tid new_tid owner true (some old) o = (o, tt)

pub handle-AllStatements :
    (uid : String) (who : Identity) (request : Request) (rows : List Row)
    → who.uid ≢ uid
    → AllStatements (Spares uid (own uid rows)) (handle who request rows).0
unfolding handle delete_task
handle-AllStatements uid who (creates tid params accepted dispatch reason given) rows o =
    create_task-AllStatements uid (own uid rows) tid who.uid who.user_name params _ dispatch reason
      given o (λ e. is_free-own tid uid rows (ground arith))
handle-AllStatements uid who (retries tid new_tid accepted) rows o =
    retry_task-AllStatements uid (own uid rows) tid new_tid who.uid _ _ o
handle-AllStatements uid who (deletes tid false) rows o = tt
handle-AllStatements uid who (deletes tid true) rows o = (o, tt)
handle-AllStatements uid who (lists reached) rows o = tt
handle-AllStatements uid who (gets tid reached) rows o = tt

pub updates-Spares :
    (uid : String) (mine : List Row) (tid : String)
    → is_free tid mine ≡ true
    → HoldsOfUpdates (Spares uid mine) tid
updates-Spares uid mine tid h = record {
  on_status = λ status info. h;
  on_move = λ from to info. h;
  on_done = λ cos_key. h;
  on_analysis = λ analysis. h;
}
