-- ===== src/Server/Init.antt =====
-- drop/server/InitAgentInfoService.h and .cpp: registration, and the credentials of the object store.
-- The service has no state.
use Prim.Native.String.{◌++◌}
use mini_drop.Base.{String, true, false, Option, ◌∷◌, []}
use mini_drop.Proto.Rpc.{
  ok, RegisterAgentRequest, RegisterAgentResponse, new_register_agent, FetchConfigRequest,
  FetchConfigResponse, new_fetch_config,
}
use mini_drop.Common.Log.{info}
use mini_drop.Common.Effect.{log}
use mini_drop.Server.Reply.{Reply}
use mini_drop.Server.Apiserver.{get_env, notify_apiserver}

unfoldable pub register_agent :
    (String → Option String) → RegisterAgentRequest → Reply (Unit {0}) RegisterAgentResponse
unfolding notify_apiserver
register_agent env request = record {
  state = tt;
  status = ok;
  response = record new_register_agent { success = true };
  effects =
      log info (
        "agent registered: uid="
        ++ (request.uid
            ++ (" host="
                ++ (request.host_name
                    ++ (" ip=" ++ (request.ip_addr ++ (" version=" ++ request.agent_version)))))))
      ∷ notify_apiserver env request.host_name request.ip_addr request.agent_version;
}

unfoldable pub fetch_config :
    (String → Option String) → FetchConfigRequest → Reply (Unit {0}) FetchConfigResponse
unfolding get_env
fetch_config env request = record {
  state = tt;
  status = ok;
  response = record new_fetch_config {
    success = true;
    cos_config = record {
      endpoint = get_env env "MINIO_ENDPOINT" "localhost:9000";
      bucket = get_env env "MINIO_BUCKET" "drop";
      access_key = get_env env "MINIO_ACCESS_KEY" "drop";
      secret_key = get_env env "MINIO_SECRET_KEY" "dropdrop";
      use_ssl = false;
    };
  };
  effects = [];
}
