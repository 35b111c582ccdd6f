-- ===== src/Agent/Main/Joining.antt =====
-- drop/agent/main.cpp: the two threads of the agent until main has ended. `join` blocks for as long as the thread is
-- in its loop; a thread that is still joinable when its object goes would end the program by std::terminate.
use mini_drop.Base.{
  ℕ, ◌+◌, suc, String, Bool, true, false, ◌&&◌, ◌||◌, not, if◌then◌else◌, Option, none, some, List,
  [], ◌∷◌, ◌≡◌, refl, arith,
}
use mini_drop.Proto.Hotmethod.{TaskDesc}
use mini_drop.Common.CosClient.{Child}
use mini_drop.Proto.Rpc.{Status, RegisterAgentResponse}
use mini_drop.Agent.Config.{AgentConfig}
use mini_drop.Agent.HealthCheckChannel.{
  Channel, start, stop, Pop, waits, stopped, popped, pop_task, take_front, is_ready, new_channel,
}
use mini_drop.Agent.Worker.{WorkerThread, start_worker, stop_worker}
use mini_drop.Agent.Main.{
  Interface, Act, starts_heartbeat, starts_worker, waits_for_signal, stops_heartbeat, stops_worker,
  run_agent, get_host_name, get_local_ip, worker_of,
}

-- What main meets: the outcome of the commands; the tasks in the queue when it is told to end, and whether the
-- worker is in PopTask then, or executes a task.
pub record Meets : Type 0 where
  pub run : List String → Child
  pub queue : List TaskDesc
  pub in_pop_task : Bool

-- Both threads, how often Stop was called for each, and how often each was joined.
pub record AgentThreads : Type 0 where
  pub beating : Channel
  pub worker : WorkerThread
  pub heartbeat_stops : ℕ
  pub worker_stops : ℕ
  pub heartbeat_joins : ℕ
  pub worker_joins : ℕ

abbrev count : Bool → ℕ → ℕ
count joined n = if joined then suc n else n

abbrev still_waits : Pop → Bool
still_waits waits = true
still_waits stopped = false
still_waits (popped task) = false

-- Whether the worker leaves its loop, where its own `running_` is unset: it finds that after a task, but not
-- while it waits in PopTask, which looks at the `running_` of the other thread.
abbrev pub leaves : Meets → Channel → Bool
leaves meets c = not meets.in_pop_task || not (still_waits (pop_task c).0)

-- `none` where main waits in `join` for a thread that does not leave its loop.
abbrev pub after_act : Meets → Act → AgentThreads → Option AgentThreads
after_act meets (starts_heartbeat c) t = some (record t { beating = c })
after_act meets (starts_worker w) t = some (record t { worker = (start_worker meets.run w).0 })
after_act meets waits_for_signal t =
    some (record t { beating = record t.beating { task_queue = meets.queue } })
after_act meets stops_heartbeat t =
    let (c, joins) = stop t.beating in
    if joins && c.running
    then none
    else some (record t {
      beating = c;
      heartbeat_stops = suc t.heartbeat_stops;
      heartbeat_joins = count joins t.heartbeat_joins;
    })
after_act meets stops_worker t =
    let (w, joins) = stop_worker t.worker in
    if joins && not (leaves meets t.beating)
    then none
    else some (record t {
      worker = w;
      worker_stops = suc t.worker_stops;
      worker_joins = count joins t.worker_joins;
    })
after_act meets _ t = some t

abbrev pub after_acts : Meets → List Act → AgentThreads → Option AgentThreads
after_acts meets [] t = some t
after_acts meets (act ∷ acts) t = elim (after_act meets act t) [
  | none ↦ none
  | some next ↦ after_acts meets acts next
]

-- Each thread stopped twice and joined once.
abbrev pub IsOver : AgentThreads → AgentThreads → Type 0
IsOver before done =
    (done.heartbeat_stops ≡ before.heartbeat_stops + 2)
    × (done.worker_stops ≡ before.worker_stops + 2)
    × (done.heartbeat_joins ≡ before.heartbeat_joins + 1)
    × (done.worker_joins ≡ before.worker_joins + 1)
    × (done.beating.joinable ≡ false)
    × (done.worker.joinable ≡ false)

-- Both threads when main has ended.
abbrev threads_after :
    Option (List Interface)
    → Option String
    → AgentConfig
    → String
    → Meets
    → AgentThreads
    → AgentThreads
threads_after interfaces name cfg server_addr meets t =
    let ip_addr = get_local_ip interfaces in
    let new =
      new_channel server_addr (get_host_name name) ip_addr cfg.agent_uid cfg.agent_version in
    record {
      beating = record new { running = false; joinable = false; task_queue = meets.queue };
      worker = record (worker_of server_addr cfg.minio) { running = false; joinable = false };
      heartbeat_stops = suc (suc t.heartbeat_stops);
      worker_stops = suc (suc t.worker_stops);
      heartbeat_joins = suc t.heartbeat_joins;
      worker_joins = suc t.worker_joins;
    }

acts-threads_after :
    (interfaces : Option (List Interface)) (name : Option String) (status : Status)
    (resp : RegisterAgentResponse) (cfg : AgentConfig) (server_addr : String)
    (run : List String → Child) (t : AgentThreads) (in_pop_task : Bool) (queue : List TaskDesc)
    → let meets : Meets = record { run = run; queue = queue; in_pop_task = in_pop_task } in
      after_acts meets (run_agent interfaces name status resp cfg server_addr).0 t
      ≡ some (threads_after interfaces name cfg server_addr meets t)
unfolding run_agent start stop start_worker stop_worker pop_task take_front is_ready
acts-threads_after interfaces name status resp cfg server_addr run t false queue = refl
acts-threads_after interfaces name status resp cfg server_addr run t true [] = refl
acts-threads_after interfaces name status resp cfg server_addr run t true (task ∷ queue) = refl

-- Whatever the run meets, whichever tasks are queued when main is told to end, and whether the worker is in PopTask
-- then or executes a task: if no wake-up of PopTask is lost and the task comes to its end, no join waits for ever,
-- and main comes to its end. Stop
-- has then been called twice for each of the two threads, each was joined exactly once, and neither is joinable any
-- more.
pub run_agent-joins :
    (interfaces : Option (List Interface)) (name : Option String) (status : Status)
    (resp : RegisterAgentResponse) (cfg : AgentConfig) (server_addr : String) (meets : Meets)
    (t : AgentThreads)
    → (done : AgentThreads) × (after_acts meets
          (run_agent interfaces name status resp cfg server_addr).0
          t
        ≡ some done)
      × IsOver t done
run_agent-joins interfaces name status resp cfg server_addr meets t = (
  threads_after interfaces name cfg server_addr meets t,
  acts-threads_after interfaces name status resp cfg server_addr meets.run t meets.in_pop_task
      meets.queue,
  (omega arith, omega arith, omega arith, omega arith, refl, refl),
)
