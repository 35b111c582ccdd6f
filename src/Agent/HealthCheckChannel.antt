-- ===== src/Agent/HealthCheckChannel.antt =====
-- drop/agent/HealthCheckChannel.h and .cpp: the heartbeat thread and the queue of received tasks.
-- `joinable` is whether `worker_` holds a thread.
pub mod Queue
pub mod Shutdown
pub mod Beating
use Prim.Native.String.{◌++◌}
use mini_drop.Base.{
  ℕ, String, Bool, true, false, ◌&&◌, ◌||◌, not, if◌then◌else◌, Option, none, some, List, [], ◌∷◌,
  push_back,
}
use mini_drop.Proto.Hotmethod.{TaskDesc, no_stats}
use mini_drop.Proto.Rpc.{Status, ok, failed, HealthCheckRequest, HealthCheckResponse}
use mini_drop.Common.Log.{info, warn}
use mini_drop.Common.Effect.{Effect, log}

pub record Channel : Type 0 where
  pub server_addr : String
  pub host_name : String
  pub ip_addr : String
  pub uid : String
  pub agent_version : String
  pub joinable : Bool
  pub running : Bool
  pub task_queue : List TaskDesc

unfoldable pub new_channel : String → String → String → String → String → Channel
new_channel server_addr host_name ip_addr uid agent_version = record {
  server_addr = server_addr;
  host_name = host_name;
  ip_addr = ip_addr;
  uid = uid;
  agent_version = agent_version;
  joinable = false;
  running = false;
  task_queue = [];
}

unfoldable pub start : Channel → Channel
start c = record c { running = true; joinable = true }

-- `Stop` up to the end of `join`; whether it notified the waiting thread, and joined its own.
unfoldable pub stop : Channel → Channel × Bool
stop c =
    let notified = c.running && c.joinable in
    (record c { running = false; joinable = c.joinable && not notified }, notified)

unfoldable pub request : Channel → HealthCheckRequest
request c = record {
  host_name = c.host_name;
  ip_addr = c.ip_addr;
  uid = c.uid;
  agent_version = c.agent_version;
  self_pstats = no_stats;
  children_pstats = no_stats;
}

-- One round of `Run` after the call has returned: what is queued, and what is logged.
unfoldable pub receive : Channel → Status → HealthCheckResponse → Channel × List Effect
receive c (failed message) resp = (c, log warn ("heartbeat failed: " ++ message) ∷ [])
receive c ok resp =
    if resp.pending
    then (
      record c { task_queue = push_back c.task_queue resp.task_desc },
      log info ("received task: " ++ resp.task_desc.task_id) ∷ [],
    )
    else (c, [])

-- What the thread does: it calls `Do` with a deadline in milliseconds, logs, and sleeps.
pub data BeatAct : Type 0 where
  calls : HealthCheckRequest → ℕ → BeatAct
  notes : List Effect → BeatAct
  sleeps : ℕ → BeatAct

-- A round of `Run`: the loop reads that `running_` is unset, or the call of the round returns so.
pub data Beat : Type 0 where
  unset : Beat
  answered : Status → HealthCheckResponse → Beat

-- The loop. With no round left the thread is in the middle of its loop.
unfoldable pub run_beats : Channel → List Beat → Channel × List BeatAct
unfolding receive request
run_beats c [] = (c, [])
run_beats c (unset ∷ beats) = (c, notes (log info "heartbeat thread stopped" ∷ []) ∷ [])
run_beats c (answered status resp ∷ beats) =
    let received = receive c status resp in
    let rest = run_beats received.0 beats in
    (rest.0, calls (request c) 3000 ∷ notes received.1 ∷ sleeps 1000 ∷ rest.1)

unfoldable pub run_heartbeat : Channel → List Beat → Channel × List BeatAct
unfolding run_beats
run_heartbeat c beats =
    let done = run_beats c beats in
    (done.0, notes (log info ("heartbeat thread started, server=" ++ c.server_addr) ∷ []) ∷ done.1)

-- The condition that `PopTask` waits for.
abbrev is_empty : List TaskDesc → Bool
is_empty [] = true
is_empty (task ∷ tasks) = false

unfoldable pub is_ready : Channel → Bool
is_ready c = not (is_empty c.task_queue) || not c.running

-- How `PopTask` goes on: it waits, or returns false, or true with a task.
pub data Pop : Type 0 where
  waits : Pop
  stopped : Pop
  popped : TaskDesc → Pop

-- The part of `PopTask` after the wait.
unfoldable pub take_front : Channel → List TaskDesc → Pop × Channel
take_front c [] = (stopped, c)
take_front c (task ∷ tasks) = (popped task, record c { task_queue = tasks })

unfoldable pub pop_task : Channel → Pop × Channel
unfolding take_front is_ready
pop_task c = if is_ready c then take_front c c.task_queue else (waits, c)
