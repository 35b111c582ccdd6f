-- ===== src/Agent/Main.antt =====
-- drop/agent/main.cpp: the agent's own address and name, its registration, and the order in which the
-- threads are started and stopped.
pub mod LocalIp
pub mod Order
pub mod Joining
use Prim.Native.String.{◌++◌}
use mathlib.Core.Option
use mathlib.Core.List.{◌++◌ as append}
use mini_drop.Base.{
  ℕ, String, Bool, true, false, ◌==◌, string_eq, ◌||◌, not, if◌then◌else◌, Option, none, some, List,
  [], ◌∷◌,
}
use mini_drop.Proto.Rpc.{Status, ok, failed, RegisterAgentRequest, RegisterAgentResponse}
use mini_drop.Common.Log.{Log, init, info, warn}
use mini_drop.Common.Effect.{Effect, log}
use mini_drop.Agent.Config.{Result, LoadError, AgentConfig, MinioConfig, JsonLib, load_config}
use mini_drop.Agent.Config
use mini_drop.Agent.Worker.{WorkerThread, new_worker}
use mini_drop.Agent.HealthCheckChannel.{Channel, new_channel, start}

-- What `ifa_addr` is: null, of another family, or an IPv4 address, given as `inet_ntop` writes it.
pub data Address : Type 0 where
  no_address : Address
  other_family : Address
  ipv4 : String → Address

pub record Interface : Type 0 where
  pub name : String
  pub address : Address

-- The loop of `GetLocalIP` over the interfaces.
unfoldable pub first_ipv4 : List Interface → String
first_ipv4 [] = "127.0.0.1"
first_ipv4 (i ∷ interfaces) = elim i.address [
  | no_address ↦ first_ipv4 interfaces
  | other_family ↦ first_ipv4 interfaces
  | ipv4 text ↦ if i.name == "lo" then first_ipv4 interfaces else text
]

-- `none` where `getifaddrs` fails.
unfoldable pub get_local_ip : Option (List Interface) → String
unfolding first_ipv4
get_local_ip none = "127.0.0.1"
get_local_ip (some interfaces) = first_ipv4 interfaces

unfoldable pub get_host_name : Option String → String
get_host_name none = "unknown"
get_host_name (some name) = name

unfoldable pub register_request : AgentConfig → String → String → RegisterAgentRequest
register_request cfg host_name ip_addr = record {
  host_name = host_name;
  ip_addr = ip_addr;
  uid = cfg.agent_uid;
  agent_version = cfg.agent_version;
  environment = "";
}

abbrev pub status_text : Status → String
status_text ok = ""
status_text (failed message) = message

abbrev pub is_ok : Status → Bool
is_ok ok = true
is_ok (failed message) = false

-- What `RegisterToServer` logs, given the answer of the call.
unfoldable pub register_log : String → Status → RegisterAgentResponse → Effect
register_log server_addr status resp =
    if not (is_ok status) || not resp.success
    then log warn ("agent registration failed, will rely on heartbeat: " ++ status_text status)
    else log info ("agent registered with server " ++ server_addr)

-- The steps of `main`, in their order.
pub data Act : Type 0 where
  inits_log : Log → Act
  logs : Effect → Act
  registers : String → RegisterAgentRequest → Act
  starts_heartbeat : Channel → Act
  starts_worker : WorkerThread → Act
  waits_for_signal : Act
  stops_heartbeat stops_worker : Act

-- `RegisterToServer`.
unfoldable pub register_to_server :
    String → AgentConfig → String → String → Status → RegisterAgentResponse → List Act
unfolding register_request register_log
register_to_server server_addr cfg host_name ip_addr status resp =
    registers server_addr (register_request cfg host_name ip_addr)
    ∷ logs (register_log server_addr status resp)
    ∷ []

-- `server_ips[0]`; of an empty list the source would read past the end.
abbrev pub first_server : List String → Option String
first_server [] = none
first_server (ip ∷ ips) = some ip

-- `hmc`, from the fields of the configuration.
unfoldable pub worker_of : String → MinioConfig → WorkerThread
unfolding new_worker
worker_of server_addr minio =
    new_worker server_addr minio.endpoint minio.access_key minio.secret_key minio.bucket
      minio.use_ssl

-- The destructors, which call `Stop`; that of `hmc` comes first.
abbrev pub destroy_worker : List Act
destroy_worker = stops_worker ∷ []

abbrev pub destroy_heartbeat : List Act
destroy_heartbeat = stops_heartbeat ∷ []

-- `main` from the loaded configuration on: what it does, and the exit code.
unfoldable pub run_agent :
    Option (List Interface)
    → Option String
    → Status
    → RegisterAgentResponse
    → AgentConfig
    → String
    → List Act × ℕ
unfolding worker_of get_local_ip get_host_name register_to_server
run_agent interfaces name status resp cfg server_addr =
    let host_name = get_host_name name in
    let ip_addr = get_local_ip interfaces in
    (
      inits_log (init cfg.log_level)
          ∷ logs (log info ("drop_agent starting, uid=" ++ cfg.agent_uid))
          ∷ append (register_to_server server_addr cfg host_name ip_addr status resp) (
              starts_heartbeat
                (start (new_channel server_addr host_name ip_addr cfg.agent_uid cfg.agent_version))
              ∷ starts_worker (worker_of server_addr cfg.minio)
              ∷ logs (log info "drop_agent running (heartbeat + worker threads active)")
              ∷ waits_for_signal
              ∷ logs (log info "drop_agent shutting down")
              ∷ stops_heartbeat
              ∷ stops_worker
              ∷ append destroy_worker destroy_heartbeat),
      0,
    )

abbrev pub argument_or : String → List String → String
argument_or def [] = def
argument_or def (arg ∷ _) = arg

-- After `LoadConfig`; `none` where `main` would read past the end of the list.
unfoldable pub main_from :
    Option (List Interface)
    → Option String
    → Status
    → RegisterAgentResponse
    → Result AgentConfig
    → Option (List Act × ℕ)
unfolding run_agent
main_from interfaces name status resp (Config.thrown e) = some ([], 1)
main_from interfaces name status resp (Config.returned cfg) =
    Option.map (run_agent interfaces name status resp cfg) (first_server cfg.server_ips)

-- `main`, with the arguments after the program's name.
unfoldable pub agent_main :
    JsonLib
    → (String → Option String)
    → Option (List Interface)
    → Option String
    → Status
    → RegisterAgentResponse
    → List String
    → Option (List Act × ℕ)
unfolding main_from
agent_main lib files interfaces name status resp args =
    main_from interfaces name status resp
      (load_config lib files (argument_or "/etc/drop/config.json" args))
