-- ===== src/Agent/HotmethodChannel.antt =====
-- drop/agent/HotmethodChannel.h and .cpp: the worker. What a task meets outside is the record
-- `Surroundings`: whether the directory could be made, the two snapshots of the agent itself, the
-- system under `Perf::Record`, the outcome of `mc`, and the status of `NotifyResult`.
pub mod Reports
pub mod Parameters
use Prim.Native.String.{◌++◌}
use mathlib.Core.Option
use mathlib.Core.List.{◌++◌ as append}
use mini_drop.Base.{
  ℕ, String, Bool, true, false, ◌&&◌, not, eqb, if◌then◌else◌, Option, none, some, List, [], ◌∷◌,
  push_back,
}
use mini_drop.Base.Int.{ℤ}
use mini_drop.Base.Decimal.{to_string, to_string_ℤ}
use mini_drop.Proto.Hotmethod.{PidStats, TaskDesc, TaskResult, no_result}
use mini_drop.Proto.Rpc.{Status, ok, failed}
use mini_drop.Common.Log.{info, warn, error}
use mini_drop.Common.Effect.{Effect, log}
use mini_drop.Common.Perf.{PerfResult, Os, Action, wait_limit, record_perf}
use mini_drop.Common.CosClient.{CosClient, Child, init, put_file}
use mini_drop.Common.Process.{ProcessStats}

pub record Surroundings : Type 0 where
  pub work_dir_made : Bool
  pub pre_stat : ProcessStats
  pub post_stat : ProcessStats
  pub os : Os
  pub run : List String → Child
  pub notify_status : Status

-- What a task does: it logs, makes a directory, runs perf, and calls `NotifyResult`.
pub data Act : Type 0 where
  logs : List Effect → Act
  makes_dir : String → Act
  records : List Action → Act
  notifies : TaskResult → Act

pub record Sampling : Type 0 where
  pub hz : ℕ  -- uint32
  pub duration : ℕ  -- uint64
  pub timeout : ℕ  -- uint32

-- The values that the task leaves open are filled in.
unfoldable pub sampling : TaskDesc → Sampling
unfolding wait_limit
sampling task =
    let dur = if eqb task.sample_argv.duration 0 then 30 else task.sample_argv.duration in
    record {
      hz = if eqb task.sample_argv.hz 0 then 99 else task.sample_argv.hz;
      duration = dur;
      timeout = wait_limit dur task.timeout_sec;
    }

abbrev pub to_pid_stats : ProcessStats → PidStats
to_pid_stats p = record {
  pid = p.pid;
  cpu_percent = p.cpu_percent;
  rss_kb = p.rss_kb;
  read_kb = p.read_kb;
  write_kb = p.write_kb;
}

-- The result with both snapshots, before its outcome is known.
abbrev pub base_result : Surroundings → TaskDesc → TaskResult
base_result env task = record no_result {
  task_id = task.task_id;
  self_pstats = to_pid_stats env.pre_stat ∷ to_pid_stats env.post_stat ∷ [];
}

abbrev pub work_dir : TaskDesc → String
work_dir task = "/tmp/drop/" ++ task.task_id

abbrev pub perf_out : TaskDesc → String
perf_out task = work_dir task ++ "/perf.data"

abbrev pub cos_key : TaskDesc → String
cos_key task = task.task_id ++ "/perf.data"

unfoldable pub fail_with : TaskResult → String → TaskResult × List Effect
fail_with result message =
    (record result { error_message = message }, log error ("ExecTask: " ++ message) ∷ [])

-- After `PutFile`.
unfoldable pub after_put :
    TaskDesc → TaskResult → Option String × List Effect → TaskResult × List Effect
unfolding fail_with
after_put task result (some err, logged) =
    let (r, more) = fail_with result ("upload failed: " ++ err) in (r, append logged more)
after_put task result (none, logged) = (
  record result { cos_key = cos_key task },
  append logged (log info ("ExecTask: upload done, cos_key=" ++ cos_key task) ∷ []),
)

-- After `Init`.
unfoldable pub after_init :
    (List String → Child)
    → CosClient
    → TaskDesc
    → TaskResult
    → Option String × List Effect
    → TaskResult × List Effect
unfolding fail_with after_put
after_init run cos task result (some err, logged) =
    let (r, more) = fail_with result ("cos init failed: " ++ err) in (r, append logged more)
after_init run cos task result (none, logged) =
    let (r, more) = after_put task result (put_file run cos (perf_out task) (cos_key task)) in
    (r, append logged more)

-- The outcome: perf failed, or its data are uploaded.
unfoldable pub finish : Surroundings → CosClient → TaskDesc → PerfResult → TaskResult × List Effect
unfolding fail_with after_init
finish env cos task perf_result =
    if not perf_result.success
    then fail_with (base_result env task) ("perf failed: " ++ perf_result.error_msg)
    else after_init env.run cos task (base_result env task) (init env.run cos)

unfoldable pub notify_log : TaskDesc → Status → Effect
notify_log task (failed message) =
    log error
      ("ExecTask: NotifyResult RPC failed: " ++ (message ++ (" (task=" ++ (task.task_id ++ ")"))))
notify_log task ok = log info ("ExecTask: NotifyResult sent for task=" ++ task.task_id)

abbrev pub start_text : TaskDesc → String
start_text task =
    "ExecTask: perf record start, tid="
    ++ (task.task_id
        ++ (" pid="
            ++ (to_string_ℤ task.sample_argv.pid
                ++ (" hz="
                    ++ (to_string (sampling task).hz
                        ++ (" dur=" ++ (to_string (sampling task).duration ++ "s")))))))

-- All that `ExecTask` does, given what came of `Perf::Record`.
unfoldable pub acts_of : Surroundings → CosClient → TaskDesc → PerfResult × List Action → List Act
unfolding sampling finish notify_log
acts_of env cos task perf =
    let (result, logged) = finish env cos task perf.0 in
    makes_dir "/tmp/drop"
    ∷ makes_dir (work_dir task)
    ∷ logs (
        if env.work_dir_made
        then []
        else log warn ("ExecTask: mkdir " ++ (work_dir task ++ " failed (may already exist)")) ∷ [])
    ∷ logs (log info (start_text task) ∷ [])
    ∷ records perf.1
    ∷ logs logged
    ∷ notifies result
    ∷ logs (notify_log task env.notify_status ∷ [])
    ∷ []

-- `ExecTask`; `none` only where the fuel of `record_perf` runs out.
unfoldable pub exec_task : Surroundings → CosClient → TaskDesc → Option (List Act)
unfolding sampling acts_of
exec_task env cos task =
    let s = sampling task in
    Option.map (acts_of env cos task) (
      record_perf env.os task.sample_argv.pid s.hz s.duration s.timeout task.sample_argv.callgraph
        (perf_out task))
