-- ===== src/Proto/Rpc.antt =====
-- healthcheck.proto, control.proto and init.proto: the requests and responses of the calls.
use mini_drop.Base.{ℕ, String, Bool, false}
use mini_drop.Proto.Hotmethod.{Float32, PidStats, CosConfig, TaskDesc, no_task, no_cos_config}

-- What the code observes of a `grpc::Status`: `ok()` and `error_message()`.
pub data Status : Type 0 where
  ok : Status
  failed : String → Status

pub record HealthCheckRequest : Type 0 where
  pub host_name : String
  pub ip_addr : String
  pub uid : String
  pub agent_version : String
  pub self_pstats : PidStats
  pub children_pstats : PidStats

pub data ServingStatus : Type 0 where
  unknown serving not_serving : ServingStatus

pub record HealthCheckResponse : Type 0 where
  pub status : ServingStatus
  pub pending : Bool
  pub task_desc : TaskDesc

pub record CreateTaskRequest : Type 0 where
  pub target_ip : String
  pub service : String
  pub task_desc : TaskDesc

pub record CreateTaskResponse : Type 0 where
  pub success : Bool
  pub message : String

pub record FetchDataRequest : Type 0 where
  pub task_id : String

pub record FetchDataResponse : Type 0 where
  pub success : Bool
  pub cos_key : String
  pub error_message : String

pub record StatAgentRequest : Type 0 where
  pub ip_addr : String

pub record StatAgentResponse : Type 0 where
  pub online : Bool
  pub cpu_percent : Float32
  pub rss_kb : ℕ
  pub last_heartbeat : String

pub record RegisterAgentRequest : Type 0 where
  pub host_name : String
  pub ip_addr : String
  pub uid : String
  pub agent_version : String
  pub environment : String

pub record RegisterAgentResponse : Type 0 where
  pub success : Bool
  pub message : String

pub record FetchConfigRequest : Type 0 where
  pub uid : String

pub record FetchConfigResponse : Type 0 where
  pub success : Bool
  pub cos_config : CosConfig
  pub message : String

-- The responses as the framework hands them to a handler.
abbrev pub new_health_check : HealthCheckResponse
new_health_check = record { status = unknown; pending = false; task_desc = no_task }

abbrev pub new_create_task : CreateTaskResponse
new_create_task = record { success = false; message = "" }

abbrev pub new_fetch_data : FetchDataResponse
new_fetch_data = record { success = false; cos_key = ""; error_message = "" }

abbrev pub new_stat_agent : StatAgentResponse
new_stat_agent = record { online = false; cpu_percent = 0; rss_kb = 0; last_heartbeat = "" }

abbrev pub new_register_agent : RegisterAgentResponse
new_register_agent = record { success = false; message = "" }

abbrev pub new_fetch_config : FetchConfigResponse
new_fetch_config = record { success = false; cos_config = no_cos_config; message = "" }
