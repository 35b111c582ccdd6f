-- ===== src/Tests/Data.antt =====
-- The concrete inputs of the tests.
use mini_drop.Base.{
  ℕ, suc, ◌*◌, String, true, false, string_eq, Option, none, refl, List, [], ◌∷◌, arith,
}
use mini_drop.Base.Int.{pos}
use mini_drop.Proto.Hotmethod.{TaskDesc, TaskResult, no_task, no_result, no_stats}
use mini_drop.Proto.Rpc.{HealthCheckRequest, ok}
use mini_drop.Server.DropServer.{Call, creates, beats, notifies}
use mini_drop.Common.Perf.{Os, child, Wait, running, exited}
use mini_drop.Common.Perf.Timeout.{IsSteady}
use mini_drop.Common.CosClient.{CosClient, Child}
use mini_drop.Common.CosClient
use mini_drop.Common.Process.{ProcessStats}
use mini_drop.Agent.HotmethodChannel.{Surroundings}
use mini_drop.ApiServer.Tasks.{Row, CreateTaskReq}
use mini_drop.ApiServer.Table.{TaskTable, row_after}

-- No variable is set.
abbrev pub bare : String → Option String
bare name = none

abbrev pub ip : String
ip = "10.0.0.1"

abbrev pub task : String → TaskDesc
task id = record no_task { task_id = id }

abbrev pub create : String → String → Call
create id target =
    creates (record { target_ip = target; service = "hotmethod"; task_desc = task id })

abbrev pub health_request : String → HealthCheckRequest
health_request address = record {
  host_name = "worker";
  ip_addr = address;
  uid = "agent-001";
  agent_version = "0.1.0";
  self_pstats = no_stats;
  children_pstats = no_stats;
}

abbrev pub beat_at : ℕ → String → Call
beat_at now address = beats now (health_request address)

abbrev pub report : TaskResult
report = record no_result { task_id = "t1"; cos_key = "t1/perf.data" }

-- Two tasks for one agent and one for another; the second agent gets its own.
abbrev pub busy_calls : List Call
busy_calls =
    create "t1" ip
    ∷ create "t2" ip
    ∷ create "t3" "10.0.0.2"
    ∷ beat_at 5 ip
    ∷ beat_at 6 "10.0.0.2"
    ∷ notifies report
    ∷ []

abbrev pub second : ℕ
second = 1000000000

-- A child that ends after three polls; the clock goes on by 200 ms with each.
abbrev pub three_polls : ℕ → Wait
three_polls i = elim i [ suc (suc (suc n)) ↦ exited 0 | _ ↦ running ]

abbrev pub os : Os
os = record { fork = child 42; poll = three_polls; start = 0; clock = λ i. 200 * i }

pub os-IsSteady : IsSteady os
os-IsSteady = record { begins = omega arith; sleeps = λ i. omega arith }

abbrev pub cos : CosClient
cos = record {
  endpoint = "minio:9000";
  access_key = "drop";
  secret_key = "dropdrop";
  bucket = "drop";
  use_ssl = false;
}

-- Every command succeeds.
abbrev pub good_run : List String → Child
good_run args = CosClient.exited 0

abbrev pub stats : ProcessStats
stats = record { pid = pos 7; rss_kb = 1; cpu_percent = 0; read_kb = 0; write_kb = 0 }

abbrev pub surroundings : Surroundings
surroundings = record {
  work_dir_made = true;
  pre_stat = stats;
  post_stat = stats;
  os = os;
  run = good_run;
  notify_status = ok;
}

-- A table that is its rows.
abbrev pub rows : TaskTable
rows = record {
  Table = String → Option Row;
  row = λ t tid. t tid;
  execute = λ st t tid. row_after st tid (t tid);
  row-execute = λ st t tid. refl;
}

-- The rate and the duration are left open.
abbrev pub asked : CreateTaskReq
asked = record {
  name = "profile";
  task_type = pos 0;
  profiler_type = pos 0;
  target_ip = "10.0.0.1";
  pid = pos 7;
  hz = 0;
  duration = 0;
  callgraph = "fp";
}
