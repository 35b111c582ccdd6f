-- ===== src/Server/DropServer.antt =====
-- drop/server/main.cpp: the services together. Each call of a client and each round of the scanning
-- thread is one step, in the order in which they take the mutexes; the two critical sections of a
-- heartbeat touch different services, so their interleavings with other calls add nothing.
pub mod Delivery
pub mod Drain
pub mod Presence
pub mod Status
use Prim.Native.String.{◌++◌}
use mathlib.Core.List.{◌++◌ as append}
use mini_drop.Base.{ℕ, String, Bool, true, false, if◌then◌else◌, Option, List, [], ◌∷◌}
use mini_drop.Proto.Hotmethod.{TaskResult, Target}
use mini_drop.Proto.Rpc.{
  HealthCheckRequest, HealthCheckResponse, CreateTaskRequest, CreateTaskResponse, FetchDataRequest,
  FetchDataResponse, StatAgentRequest, StatAgentResponse, RegisterAgentRequest,
  RegisterAgentResponse, FetchConfigRequest, FetchConfigResponse,
}
use mini_drop.Common.Log.{info, error}
use mini_drop.Common.Effect.{Effect, log}
use mini_drop.Server.Hotmethod.{HotmethodService, new_hotmethod, collect, notify_result}
use mini_drop.Server.Control.{ControlService, new_control, create_task, fetch_data, stat_agent}
use mini_drop.Server.HealthCheck.{HealthCheckService, new_health, heartbeat, offline_scan}
use mini_drop.Server.Init.{register_agent, fetch_config}

pub record DropServer : Type 0 where
  pub hotmethod : HotmethodService
  pub control : ControlService
  pub health : HealthCheckService

unfoldable pub new_server : DropServer
unfolding new_hotmethod new_control new_health
new_server = record { hotmethod = new_hotmethod; control = new_control; health = new_health }

pub data Call : Type 0 where
  creates : CreateTaskRequest → Call
  fetches : FetchDataRequest → Call
  stats : StatAgentRequest → Call
  beats : ℕ → HealthCheckRequest → Call
  notifies : TaskResult → Call
  collects : Target → Call
  registers : RegisterAgentRequest → Call
  configures : FetchConfigRequest → Call
  scans : ℕ → Call

pub data Response : Type 0 where
  created : CreateTaskResponse → Response
  fetched : FetchDataResponse → Response
  stat : StatAgentResponse → Response
  beat : HealthCheckResponse → Response
  registered : RegisterAgentResponse → Response
  configured : FetchConfigResponse → Response
  nothing : Response

pub record Outcome : Type 0 where
  pub server : DropServer
  pub response : Response
  pub effects : List Effect

unfoldable pub step : (String → Option String) → DropServer → Call → Outcome
step env s (creates q) =
    let r = create_task s.control q in
    record {
      server = record s { control = r.state };
      response = created r.response;
      effects = r.effects;
    }
step env s (fetches q) =
    let r = fetch_data s.hotmethod s.control q in
    record {
      server = record s { control = r.state };
      response = fetched r.response;
      effects = r.effects;
    }
step env s (stats q) =
    let r = stat_agent s.control q in
    record {
      server = record s { control = r.state };
      response = stat r.response;
      effects = r.effects;
    }
step env s (beats now q) =
    let r = heartbeat env now s.health s.control q in
    record {
      server = record s { health = r.state.0; control = r.state.1 };
      response = beat r.response;
      effects = r.effects;
    }
step env s (notifies q) =
    let r = notify_result s.hotmethod q in
    record { server = record s { hotmethod = r.state }; response = nothing; effects = r.effects }
step env s (collects q) =
    let r = collect s.hotmethod q in
    record { server = record s { hotmethod = r.state }; response = nothing; effects = r.effects }
step env s (registers q) =
    let r = register_agent env q in
    record { server = s; response = registered r.response; effects = r.effects }
step env s (configures q) =
    let r = fetch_config env q in
    record { server = s; response = configured r.response; effects = r.effects }
step env s (scans now) =
    let (health, effects) = offline_scan env now s.health in
    record { server = record s { health = health }; response = nothing; effects = effects }

-- The server after a sequence of calls.
unfoldable pub serve : (String → Option String) → DropServer → List Call → DropServer
serve env s [] = s
serve env s (c ∷ calls) = serve env (step env s c).server calls

-- What each call of the sequence was answered.
unfoldable pub responses :
    (String → Option String) → DropServer → List Call → List (Call × Response)
responses env s [] = []
responses env s (c ∷ calls) =
    (c, (step env s c).response) ∷ responses env (step env s c).server calls

-- All that the server logged and posted meanwhile.
unfoldable pub all_effects : (String → Option String) → DropServer → List Call → List Effect
all_effects env s [] = []
all_effects env s (c ∷ calls) =
    append (step env s c).effects (all_effects env (step env s c).server calls)

abbrev argument_or : String → List String → String
argument_or def [] = def
argument_or def (arg ∷ _) = arg

-- `main`, with the arguments after the program's name: the exit code, and what it logs until the
-- framework's `Wait` returns. `started` is whether `BuildAndStart` gave a server.
unfoldable pub server_main : List String → Bool → ℕ × List Effect
server_main args started =
    let listen_addr = argument_or "0.0.0.0:50051" args in
    let starting = log info ("drop_server starting, listen=" ++ listen_addr) in
    if started
    then (
      0,
      starting
          ∷ log info (
              "drop_server listening on "
              ++ (listen_addr ++ " (4 services: hotmethod, control, healthcheck, init)"))
          ∷ [],
    )
    else (1, starting ∷ log error ("failed to start grpc server on " ++ listen_addr) ∷ [])
