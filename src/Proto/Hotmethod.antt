-- ===== src/Proto/Hotmethod.antt =====
-- common.proto and hotmethod.proto: statistics, files, credentials, tasks and their results.
use mini_drop.Base.{ℕ, String, Bool, false, List, []}
use mini_drop.Base.Int.{ℤ, pos}

-- The bit pattern of a `float`.
abbrev pub Float32 : Type 0
Float32 = ℕ

pub record PidStats : Type 0 where
  pub pid : ℤ
  pub cpu_percent : Float32
  pub rss_kb : ℕ
  pub read_kb : ℕ
  pub write_kb : ℕ

pub record File : Type 0 where
  pub filename : String
  pub content : List ℕ

pub record CosConfig : Type 0 where
  pub endpoint : String
  pub bucket : String
  pub access_key : String
  pub secret_key : String
  pub use_ssl : Bool

pub record RecordArgv : Type 0 where
  pub hz : ℕ  -- uint32
  pub duration : ℕ  -- uint64
  pub pid : ℤ
  pub callgraph : String
  pub subprocess : Bool
  pub event : String

pub record TaskDesc : Type 0 where
  pub task_id : String
  pub task_type : ℕ
  pub profiler_type : ℕ
  pub sample_argv : RecordArgv
  pub container_name : String
  pub container_type : ℕ
  pub timeout_sec : ℕ  -- uint32
  pub cos_config : CosConfig
  pub script_content : String

pub record Target : Type 0 where
  pub task_id : String
  pub task_desc : TaskDesc

pub record TaskResult : Type 0 where
  pub task_id : String
  pub error_message : String
  pub file : File
  pub cos_key : String
  pub self_pstats : List PidStats
  pub children_pstats : List PidStats

abbrev pub no_stats : PidStats
no_stats = record { pid = pos 0; cpu_percent = 0; rss_kb = 0; read_kb = 0; write_kb = 0 }

abbrev pub no_cos_config : CosConfig
no_cos_config = record {
  endpoint = "";
  bucket = "";
  access_key = "";
  secret_key = "";
  use_ssl = false;
}

abbrev pub no_argv : RecordArgv
no_argv = record {
  hz = 0;
  duration = 0;
  pid = pos 0;
  callgraph = "";
  subprocess = false;
  event = "";
}

-- A freshly constructed `TaskDesc`.
abbrev pub no_task : TaskDesc
no_task = record {
  task_id = "";
  task_type = 0;
  profiler_type = 0;
  sample_argv = no_argv;
  container_name = "";
  container_type = 0;
  timeout_sec = 0;
  cos_config = no_cos_config;
  script_content = "";
}

-- A freshly constructed `TaskResult`.
abbrev pub no_result : TaskResult
no_result = record {
  task_id = "";
  error_message = "";
  file = record { filename = ""; content = [] };
  cos_key = "";
  self_pstats = [];
  children_pstats = [];
}
