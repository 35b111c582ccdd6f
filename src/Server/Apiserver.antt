-- ===== src/Server/Apiserver.antt =====
-- The posts to the apiserver, HealthCheckService.cpp and InitAgentInfoService.cpp: each file has its
-- own copy of `GetEnv`. `getenv` of the C library is the argument `env`.
pub mod Requests
use Prim.Native.String.{◌++◌}
use mini_drop.Base.{String, ◌==◌, string_eq, if◌then◌else◌, Option, none, some, List, [], ◌∷◌}
use mini_drop.Common.Effect.{Effect, post}

-- An unset and an empty variable both give the default.
unfoldable pub get_env : (String → Option String) → String → String → String
get_env env name def = elim (env name) [ none ↦ def | some val ↦ if val == "" then def else val ]

unfoldable pub post_json : (String → Option String) → String → String → List Effect
unfolding get_env
post_json env path json =
    post (get_env env "APISERVER_URL" "http://localhost:8191" ++ path) json ∷ []

unfoldable pub agent_json : String → String → String → String
agent_json hostname ip_addr version =
    "{\"hostname\":\""
    ++ (hostname
        ++ ("\",\"ip_addr\":\"" ++ (ip_addr ++ ("\",\"version\":\"" ++ (version ++ "\"}")))))

unfoldable pub offline_json : String → String → String
offline_json hostname ip_addr =
    "{\"hostname\":\"" ++ (hostname ++ ("\",\"ip_addr\":\"" ++ (ip_addr ++ "\"}")))

unfoldable pub notify_heartbeat : (String → Option String) → String → String → String → List Effect
unfolding agent_json post_json
notify_heartbeat env hostname ip_addr version =
    post_json env "/internal/agent-register" (agent_json hostname ip_addr version)

unfoldable pub notify_offline : (String → Option String) → String → String → List Effect
unfolding offline_json post_json
notify_offline env hostname ip_addr =
    post_json env "/internal/agent-offline" (offline_json hostname ip_addr)

-- The registration of InitAgentInfoService.cpp, which builds the same request in a body of its own.
unfoldable pub notify_apiserver : (String → Option String) → String → String → String → List Effect
unfolding get_env agent_json
notify_apiserver env hostname ip_addr version =
    let base_url = get_env env "APISERVER_URL" "http://localhost:8191" in
    post (base_url ++ "/internal/agent-register") (agent_json hostname ip_addr version) ∷ []
