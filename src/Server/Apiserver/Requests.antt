-- ===== src/Server/Apiserver/Requests.antt =====
-- The requests to the apiserver: where they go and what they say.
use Prim.Native.String.{◌++◌}
use text.Mathlib.TextLemmas.{append_assoc}
use mini_drop.Base.{
  String, ◌==◌, string_eq, eq_iff, Option, ◌≡◌, ◌≢◌, refl, Option-cases, inl, inr, false, arith,
}
use mini_drop.Proto.Rpc.{FetchConfigRequest}
use mini_drop.Server.Apiserver.{get_env, agent_json, notify_heartbeat, notify_apiserver}
use mini_drop.Server.Init.{fetch_config}

-- A heartbeat and a registration send the apiserver the same request.
pub notify_heartbeat-notify_apiserver :
    (env : String → Option String) (hostname ip_addr version : String)
    → notify_heartbeat env hostname ip_addr version ≡ notify_apiserver env hostname ip_addr version
unfolding notify_heartbeat notify_apiserver
notify_heartbeat-notify_apiserver env hostname ip_addr version = refl

-- The texts go into the JSON unescaped: a host name that holds a quotation mark can stand for
-- another host name and another address. These two agents are announced by the same request.
pub agent_json_ambiguous :
    (hostname other ip_addr version : String)
    → agent_json (hostname ++ ("\",\"ip_addr\":\"" ++ other)) ip_addr version
      ≡ agent_json hostname (other ++ ("\",\"ip_addr\":\"" ++ ip_addr)) version
unfolding agent_json
agent_json_ambiguous hostname other ip_addr version = simp append_assoc

get_env-ne-empty :
    (env : String → Option String) (name def : String)
    → (def == "") ≡ false
    → get_env env name def ≢ ""
unfolding get_env
get_env-ne-empty env name def h e = elim (Option-cases (env name)) [
  | inl unset ↦ ground (arith, eq_iff def "")
  | inr (val, given) ↦ ground (arith, eq_iff def "", eq_iff val "")
]

-- Whatever the environment holds, an agent is given an endpoint, a bucket and both keys: none is empty.
pub fetch_config-ne-empty :
    (env : String → Option String) (request : FetchConfigRequest)
    → let cos = (fetch_config env request).response.cos_config in
      (cos.endpoint ≢ "") × (cos.bucket ≢ "") × (cos.access_key ≢ "") × (cos.secret_key ≢ "")
unfolding fetch_config
fetch_config-ne-empty env request = (
  get_env-ne-empty env "MINIO_ENDPOINT" "localhost:9000" refl,
  get_env-ne-empty env "MINIO_BUCKET" "drop" refl,
  get_env-ne-empty env "MINIO_ACCESS_KEY" "drop" refl,
  get_env-ne-empty env "MINIO_SECRET_KEY" "dropdrop" refl,
)
