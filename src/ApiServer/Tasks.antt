-- ===== src/ApiServer/Tasks.antt =====
-- apiserver/server/task.go: CreateTask; the child Existing has RetryTask and DeleteTask. The database is
-- not part of the program: what the code asks of it is a list of statements. HTTP and the calls of
-- drop_server enter by their outcomes.
pub mod Existing
use Prim.Native.String.{◌++◌}
use mini_drop.Base.{
  ℕ, ◌+◌, ◌-◌, ◌%◌, ◌^◌, String, Bool, not, string_eq, eqb, if◌then◌else◌, Option, none, some, List,
  [], ◌∷◌,
}
use mini_drop.Base.Int.{ℤ, pos, negsuc}
use mini_drop.Proto.Hotmethod.{TaskDesc, no_task, no_argv}
use mini_drop.Proto.Rpc.{CreateTaskRequest, CreateTaskResponse}

abbrev pub pending_status : ℕ
pending_status = 0

abbrev pub running_status : ℕ
running_status = 1

abbrev pub uploading_status : ℕ
uploading_status = 2

abbrev pub done_status : ℕ
done_status = 3

abbrev pub failed_status : ℕ
failed_status = 4

abbrev pub analysis_pending : ℕ
analysis_pending = 0

abbrev pub analysis_running : ℕ
analysis_running = 1

abbrev pub analysis_failed : ℕ
analysis_failed = 3

-- The columns of `hotmethod_task` that the code sets after creation, and those that say what to run.
pub record Row : Type 0 where
  pub tid : String
  pub name : String
  pub task_type : ℤ
  pub profiler_type : ℤ
  pub target_ip : String
  pub request_params : String
  pub status : ℕ
  pub status_info : String
  pub analysis_status : ℕ
  pub cos_key : String
  pub uid : String
  pub user_name : String

-- An insertion, or an update of the row with a `tid`.
pub data Statement : Type 0 where
  inserts : Row → Statement
  sets_status : String → ℕ → String → Statement
  -- With `AND status = ?`.
  moves_status : String → ℕ → ℕ → String → Statement
  -- `end_time` stands for itself and is read nowhere.
  sets_done : String → String → Statement
  sets_analysis : String → ℕ → Statement
  -- The soft deletion, with `AND uid = ?`.
  removes : String → String → Statement

pub data Act : Type 0 where
  runs : Statement → Act
  -- The call `CreateTask` of drop_server.
  dispatches : CreateTaskRequest → Act
  -- The watcher is started for a task, its type and its duration.
  watches : String → ℤ → ℕ → Act
  -- The analyzer is started as a process.
  launches : List String → Act

-- A handler answers with an HTTP status, the code of the body, and the task's id or a message.
pub record Answer : Type 0 where
  pub http : ℕ
  pub code : ℕ
  pub text : String

abbrev pub ok_with : String → Answer
ok_with tid = record { http = 200; code = 0; text = tid }

abbrev pub server_error : ℕ → String → Answer
server_error http text = record { http = http; code = 5000001; text = text }

-- A conversion of a Go `int` to `uint32`.
abbrev pub to_u32 : ℤ → ℕ
to_u32 (pos n) = n % 2 ^ 32
to_u32 (negsuc n) = 2 ^ 32 - 1 - n % 2 ^ 32

-- The request after binding.
pub record CreateTaskReq : Type 0 where
  pub name : String
  pub task_type : ℤ
  pub profiler_type : ℤ
  pub target_ip : String
  pub pid : ℤ
  pub hz : ℕ  -- uint32
  pub duration : ℕ  -- uint64
  pub callgraph : String

unfoldable pub with_defaults : CreateTaskReq → CreateTaskReq
with_defaults req = record req {
  hz = if eqb req.hz 0 then 99 else req.hz;
  duration = if eqb req.duration 0 then 30 else req.duration;
}

unfoldable pub task_desc : String → CreateTaskReq → TaskDesc
task_desc tid req = record no_task {
  task_id = tid;
  task_type = to_u32 req.task_type;
  profiler_type = to_u32 req.profiler_type;
  sample_argv = record no_argv {
    hz = req.hz;
    duration = req.duration;
    pid = req.pid;
    callgraph = req.callgraph;
  };
  timeout_sec = (req.duration % 2 ^ 32 + 10) % 2 ^ 32;
}

-- `params` is the request as JSON.
unfoldable pub new_row : String → String → String → String → CreateTaskReq → Row
new_row tid uid user_name params req = record {
  tid = tid;
  name = req.name;
  task_type = req.task_type;
  profiler_type = req.profiler_type;
  target_ip = req.target_ip;
  request_params = params;
  status = pending_status;
  status_info = "task created, waiting to dispatch";
  analysis_status = analysis_pending;
  cos_key = "";
  uid = uid;
  user_name = user_name;
}

-- How the call of drop_server goes; `s.DropClient` may be nil.
pub data Dispatch : Type 0 where
  no_client : Dispatch
  call_failed : String → Dispatch
  answered : CreateTaskResponse → Dispatch

-- The part after the row has been written.
unfoldable pub dispatch_task : String → CreateTaskReq → Dispatch → List Act × Answer
unfolding task_desc
dispatch_task tid req no_client = ([], ok_with tid)
dispatch_task tid req (call_failed err) = (
  dispatches
        (record { target_ip = req.target_ip; service = "hotmethod"; task_desc = task_desc tid req })
      ∷ runs (sets_status tid failed_status ("dispatch to drop_server failed: " ++ err))
      ∷ [],
  server_error 502 "dispatch to drop_server failed",
)
dispatch_task tid req (answered resp) =
    let sent = dispatches (record {
      target_ip = req.target_ip;
      service = "hotmethod";
      task_desc = task_desc tid req;
    }) in
    if not resp.success
    then (
      sent ∷ runs (sets_status tid failed_status ("drop_server rejected: " ++ resp.message)) ∷ [],
      server_error 502 ("drop_server rejected: " ++ resp.message),
    )
    else (
      sent
          ∷ runs (sets_status tid running_status ("dispatched to agent at " ++ req.target_ip))
          ∷ watches tid req.task_type req.duration
          ∷ [],
      ok_with tid,
    )

abbrev pub then_do : Act → List Act × Answer → List Act × Answer
then_do act (acts, answer) = (act ∷ acts, answer)

-- `CreateTask`. The request is `none` where it cannot be bound, with the reason; `created` is whether the
-- database takes the row.
unfoldable pub create_task :
    String
    → String
    → String
    → String
    → Bool
    → Dispatch
    → String
    → Option CreateTaskReq
    → List Act × Answer
unfolding with_defaults new_row dispatch_task
create_task tid uid user_name params created dispatch reason none =
    ([], record { http = 400; code = 4000001; text = "invalid params: " ++ reason })
create_task tid uid user_name params created dispatch reason (some given) =
    let req = with_defaults given in
    if not created
    then ([], server_error 500 "db error")
    else then_do (runs (inserts (new_row tid uid user_name params req)))
        (dispatch_task tid req dispatch)
