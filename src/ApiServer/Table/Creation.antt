-- ===== src/ApiServer/Table/Creation.antt =====
-- apiserver/server/task.go, CreateTask and RetryTask: the row that they leave, and whether the task is
-- handed to drop_server.

use Prim.Native.String.{◌++◌ as text_append}
use mini_drop.Base.{
  ℕ, String, eqb, Bool, true, false, ◌==◌, string_eq, eq_iff, if◌then◌else◌, Option, some, List, [],
  ◌∷◌, ◌≡◌, ◌≢◌, refl, sym, subst, ◌∙◌, arith, Bool-cases, inl, inr,
}
use mini_drop.ApiServer.Tasks.{
  Row, Act, dispatches, watches, CreateTaskReq, Dispatch, no_client, call_failed, answered,
  create_task, dispatch_task, new_row, with_defaults, pending_status, analysis_pending,
  running_status, failed_status,
}
use mini_drop.ApiServer.Tasks.Existing.{retry_task}
use mini_drop.ApiServer.Table.{TaskTable, row_after_all, execute_all, row-execute_all}

-- The status of a task after its creation.
abbrev pub status_for : Dispatch → ℕ
status_for no_client = pending_status
status_for (call_failed err) = failed_status
status_for (answered resp) = if resp.success then running_status else failed_status

-- Whether drop_server was asked, and whether a watcher was started.
abbrev pub is_dispatched : List Act → Bool
is_dispatched [] = false
is_dispatched (dispatches q ∷ acts) = true
is_dispatched (_ ∷ acts) = is_dispatched acts

abbrev pub is_watched : List Act → Bool
is_watched [] = false
is_watched (watches tid task_type duration ∷ acts) = true
is_watched (_ ∷ acts) = is_watched acts

module _ (tid uid user_name params : String) (given : CreateTaskReq) where
  fresh : Row
  fresh = new_row tid uid user_name params (with_defaults given)

  same : (tid == tid) ≡ true
  same = (eq_iff tid tid).1 refl

  created_row :
      (dispatch : Dispatch) (reason : String) (o : Option Row)
      → (r : Row) × (row_after_all
            (create_task tid uid user_name params true dispatch reason (some given)).0
            tid
            o
          ≡ some r)
        × (r.status ≡ status_for dispatch)
  unfolding create_task new_row dispatch_task fresh
  created_row no_client reason o = (fresh, rw same refl, refl)
  created_row (call_failed err) reason o = (
    record fresh {
      status = failed_status;
      status_info = text_append "dispatch to drop_server failed: " err;
    },
    rw same refl,
    refl,
  )
  created_row (answered resp) reason o = elim (Bool-cases resp.success) [
    | inl accepted ↦ (
      record fresh {
        status = running_status;
        status_info = text_append "dispatched to agent at " given.target_ip;
      },
      rw (accepted, same) refl,
      rw accepted refl,
    )
    | inr refused ↦ (
      record fresh {
        status = failed_status;
        status_info = text_append "drop_server rejected: " resp.message;
      },
      rw (refused, same) refl,
      rw refused refl,
    )
  ]

  watched_if_running :
      (dispatch : Dispatch) (reason : String)
      → is_watched (create_task tid uid user_name params true dispatch reason (some given)).0
        ≡ eqb (status_for dispatch) running_status
  unfolding create_task dispatch_task
  watched_if_running no_client reason = refl
  watched_if_running (call_failed err) reason = refl
  watched_if_running (answered resp) reason = ground arith

  -- If the request can be bound and the database takes the row: afterwards the task is pending without a
  -- client for drop_server, running if drop_server accepted it, and failed otherwise; and a watcher is
  -- started for it exactly if it is running.
  pub create_task-status :
      (db : TaskTable) (t : db.Table) (dispatch : Dispatch) (reason : String)
      → let acts = (create_task tid uid user_name params true dispatch reason (some given)).0 in
        ((r : Row) × (db.row (execute_all db acts t) tid ≡ some r)
          × (r.status ≡ status_for dispatch))
        × (is_watched acts ≡ eqb (status_for dispatch) running_status)
  create_task-status db t dispatch reason =
      let acts = (create_task tid uid user_name params true dispatch reason (some given)).0 in
      let (r, e, status) = created_row dispatch reason (db.row t tid) in
      ((r, row-execute_all db acts t tid ∙ e, status), watched_if_running dispatch reason)

-- What a retry asks for, and for whom.
abbrev pub IsRetryOf : Row → String → Row → Type 0
IsRetryOf old uid new =
    (new.status ≡ pending_status)
    × (new.target_ip ≡ old.target_ip)
    × (new.task_type ≡ old.task_type)
    × (new.profiler_type ≡ old.profiler_type)
    × (new.request_params ≡ old.request_params)
    × (new.uid ≡ uid)

abbrev pub IsRetried :
    (db : TaskTable) → db.Table → String → String → String → Row → List Act → Type 0
IsRetried db t tid new_tid uid old acts =
    ((new : Row) × (db.row (execute_all db acts t) new_tid ≡ some new) × IsRetryOf old uid new)
    × (db.row (execute_all db acts t) tid ≡ some old)
    × (is_dispatched acts ≡ false)
    × (is_watched acts ≡ false)

retry_task-some :
    (db : TaskTable) (t : db.Table) (tid new_tid uid : String) (old : Row)
    → db.row t tid ≡ some old
    → new_tid ≢ tid
    → IsRetried db t tid new_tid uid old (retry_task tid new_tid uid true (some old)).0
unfolding retry_task
retry_task-some db t tid new_tid uid old known other =
    let acts = (retry_task tid new_tid uid true (some old)).0 in
    let e1 = row-execute_all db acts t new_tid in
    let e2 = row-execute_all db acts t tid in
    let same : (new_tid == new_tid) ≡ true = (eq_iff new_tid new_tid).1 refl in
    let differs : (new_tid == tid) ≡ false = ground (arith, eq_iff new_tid tid) in
    let new : Row = record old {
      tid = new_tid;
      name = text_append old.name " (retry)";
      status = pending_status;
      status_info = text_append "retried from " tid;
      analysis_status = analysis_pending;
      cos_key = "";
      uid = uid;
    } in
    (
      (new, e1 ∙ rw same refl, (refl, refl, refl, refl, refl, refl)),
      e2 ∙ rw (differs, known) refl,
      refl,
      refl,
    )

-- If the database takes the new row: it is pending, asks for the same profile of the same host for the
-- user who retries, and the old row is as before; but drop_server is not asked and no watcher is started.
pub retry_task-IsRetried :
    (db : TaskTable) (t : db.Table) (tid new_tid uid : String) (old : Row)
    → db.row t tid ≡ some old
    → new_tid ≢ tid
    → IsRetried db t tid new_tid uid old (retry_task tid new_tid uid true (db.row t tid)).0
retry_task-IsRetried db t tid new_tid uid old known other =
    subst (λ o. IsRetried db t tid new_tid uid old (retry_task tid new_tid uid true o).0)
      (sym known) (retry_task-some db t tid new_tid uid old known other)
