-- ===== src/Tests/Agent.antt =====
-- The theorems about the agent at concrete inputs.
use mathlib.Core.List.{◌++◌}
use mini_drop.Base.{true, false, none, some, List, [], ◌∷◌, ◌≡◌, string_eq}
use mini_drop.Proto.Rpc.{ok, new_health_check, new_register_agent}
use mini_drop.Common.Log.{info}
use mini_drop.Common.Effect.{log}
use mini_drop.Common.Perf.{PerfResult, Action}
use mini_drop.Agent.Config.{AgentConfig}
use mini_drop.Agent.HealthCheckChannel.{Channel, stop}
use mini_drop.Agent.HealthCheckChannel.Queue.{
  Event, answered, pops, starts, stops, run, all_handed, queue_order,
}
use mini_drop.Agent.HealthCheckChannel.Shutdown.{
  Threads, Step, Reach, idle, hung, shutdown_can_hang,
}
use mini_drop.Agent.HotmethodChannel.{Act, logs, notifies, finish, exec_task}
use mini_drop.Agent.Worker.{new_worker, exit_acts, run_worker}
use mini_drop.Agent.Worker.Shutdown.{rounds, set_for, work, run_worker-stop}
use mini_drop.Agent.HotmethodChannel.Reports.{IsAbout, perf_of, notified, exec_task-reports}
use mini_drop.Agent.Main.{run_agent}
use mini_drop.Agent.Main.Joining.{Meets, AgentThreads, IsOver, after_acts, run_agent-joins}
use mini_drop.Common.CosClient.{exited}
use mini_drop.Tests.Data.{report, task, os-IsSteady, cos, surroundings}

exec_task-reports_example :
    (acts : List Act) × (perf : PerfResult × List Action) × (exec_task surroundings cos (task "t1")
      ≡ some acts)
    × (perf_of surroundings (task "t1") ≡ some perf)
    × (notified acts ≡ (finish surroundings cos (task "t1") perf.0).0 ∷ [])
    × IsAbout surroundings (task "t1") (finish surroundings cos (task "t1") perf.0).0
exec_task-reports_example = exec_task-reports surroundings cos (task "t1") os-IsSteady

abbrev channel : Channel
channel = record {
  server_addr = "drop_server:50051";
  host_name = "worker";
  ip_addr = "10.0.0.1";
  uid = "agent-001";
  agent_version = "0.1.0";
  joinable = false;
  running = false;
  task_queue = [];
}

abbrev events : List Event
events =
    starts
    ∷ answered ok (record new_health_check { pending = true; task_desc = task "t1" })
    ∷ stops
    ∷ pops
    ∷ pops
    ∷ []

queue_order_example : all_handed channel events ++ (run channel events).task_queue ≡ task "t1" ∷ []
queue_order_example = queue_order channel events

abbrev full : Channel
full = record channel { running = true; joinable = true; task_queue = task "a" ∷ task "b" ∷ [] }

run_worker-stop_example :
    run_worker (λ t. notifies report ∷ []) (rounds (set_for 1) (stop full).0)
    ≡ logs (log info "HotmethodChannel::Run: waiting for tasks" ∷ [])
      ∷ (work (λ t. notifies report ∷ []) (task "a" ∷ []) ++ exit_acts)
run_worker-stop_example = run_worker-stop (λ t. notifies report ∷ []) 1 full

shutdown_can_hang_example :
    Reach (idle channel) (hung channel) × ((t : Threads) → ¬ Step (hung channel) t)
shutdown_can_hang_example = shutdown_can_hang channel

abbrev config : AgentConfig
config = record {
  server_ips = "10.0.0.2:50051" ∷ [];
  agent_uid = "agent-001";
  agent_version = "0.1.0";
  minio = record {
    endpoint = "minio:9000";
    access_key = "k";
    secret_key = "s";
    bucket = "b";
    use_ssl = false;
  };
  log_level = "INFO";
}

abbrev no_threads : AgentThreads
no_threads = record {
  beating = channel;
  worker = new_worker "" "" "" "" "" false;
  heartbeat_stops = 0;
  worker_stops = 0;
  heartbeat_joins = 0;
  worker_joins = 0;
}

-- A task came in, and the worker waits for the next.
abbrev meets : Meets
meets = record { run = λ argv. exited 0; queue = task "t1" ∷ []; in_pop_task = true }

run_agent-joins_example :
    let acts = (run_agent none none ok new_register_agent config "10.0.0.2:50051").0 in
    (done : AgentThreads) × (after_acts meets acts no_threads ≡ some done) × IsOver no_threads done
run_agent-joins_example =
    run_agent-joins none none ok new_register_agent config "10.0.0.2:50051" meets no_threads
