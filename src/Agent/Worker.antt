-- ===== src/Agent/Worker.antt =====
-- drop/agent/HotmethodChannel.cpp: Start, Stop and Run, the thread that executes the tasks. `joinable` is
-- whether `worker_` holds a thread.
pub mod Shutdown
use Prim.Native.String.{◌++◌}
use mathlib.Core.List.{◌++◌ as append}
use mini_drop.Base.{String, Bool, true, false, ◌&&◌, not, Option, none, some, List, [], ◌∷◌}
use mini_drop.Proto.Hotmethod.{TaskDesc}
use mini_drop.Common.Log.{info, warn}
use mini_drop.Common.Effect.{Effect, log}
use mini_drop.Common.CosClient.{CosClient, Child, init, new_cos_client}
use mini_drop.Agent.HotmethodChannel.{Act, logs}

-- The members of `HotmethodChannel`; `hc_` and the stub are not part of the state.
pub record WorkerThread : Type 0 where
  pub server_addr : String
  pub minio_ep : String
  pub minio_ak : String
  pub minio_sk : String
  pub minio_bucket : String
  pub minio_ssl : Bool
  pub joinable : Bool
  pub running : Bool

-- The constructor.
unfoldable pub new_worker : String → String → String → String → String → Bool → WorkerThread
new_worker server_addr minio_ep minio_ak minio_sk minio_bucket minio_ssl = record {
  server_addr = server_addr;
  minio_ep = minio_ep;
  minio_ak = minio_ak;
  minio_sk = minio_sk;
  minio_bucket = minio_bucket;
  minio_ssl = minio_ssl;
  joinable = false;
  running = false;
}

-- `COSClient cos(minio_ep_, minio_ak_, minio_sk_, minio_bucket_, minio_ssl_)`, in `Start` and in
-- `ExecTask`.
unfoldable pub cos_of : WorkerThread → CosClient
unfolding new_cos_client
cos_of w = new_cos_client w.minio_ep w.minio_ak w.minio_sk w.minio_bucket w.minio_ssl

-- What `Start` logs of the alias: a failure does not keep the thread from starting.
abbrev pub alias_log : Option String → List Effect
alias_log none = []
alias_log (some message) =
    log warn (
      "HotmethodChannel: mc alias init failed: "
      ++ (message ++ " (upload will fail until mc is installed)"))
    ∷ []

unfoldable pub start_worker : (List String → Child) → WorkerThread → WorkerThread × List Effect
unfolding cos_of
start_worker run w =
    let (err, logged) = init run (cos_of w) in
    (
      record w { running = true; joinable = true },
      append logged (append (alias_log err) (log info "worker thread started" ∷ [])),
    )

-- `Stop` up to the end of `join`, and whether it joined.
unfoldable pub stop_worker : WorkerThread → WorkerThread × Bool
stop_worker w =
    let joins = w.running && w.joinable in
    (record w { running = false; joinable = w.joinable && not joins }, joins)

-- How a round of `Run` begins: the loop reads that `running_` is unset, or `PopTask` returns false, or it
-- returns true with a task.
pub data Round : Type 0 where
  unset : Round
  refused : Round
  got : TaskDesc → Round

abbrev pub exit_acts : List Act
exit_acts = logs (log info "HotmethodChannel::Run: exiting" ∷ []) ∷ []

-- The loop, where `exec` is what `ExecTask` does. With no round left the thread waits for the next.
unfoldable pub run_rounds : (TaskDesc → List Act) → List Round → List Act
run_rounds exec [] = []
run_rounds exec (unset ∷ rounds) = exit_acts
run_rounds exec (refused ∷ rounds) = exit_acts
run_rounds exec (got task ∷ rounds) =
    logs (log info ("HotmethodChannel: got task=" ++ task.task_id) ∷ [])
    ∷ append (exec task) (run_rounds exec rounds)

unfoldable pub run_worker : (TaskDesc → List Act) → List Round → List Act
unfolding run_rounds
run_worker exec rounds =
    logs (log info "HotmethodChannel::Run: waiting for tasks" ∷ []) ∷ run_rounds exec rounds
