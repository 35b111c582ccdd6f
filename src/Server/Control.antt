-- ===== src/Server/Control.antt =====
-- drop/server/ControlService.h and .cpp: the tasks that wait for each agent, and the calls of the
-- apiserver. `hotmethod_svc_` is an argument of `fetch_data`.
pub mod Queue
pub mod Views
use Prim.Native.String.{◌++◌}
use mini_drop.Base.{
  String, Bool, true, false, ◌==◌, string_eq, if◌then◌else◌, Option, none, some, List, [], ◌∷◌,
  push_back,
}
use mini_drop.Base.Dict.{Dict, lookup, insert, get_or}
use mini_drop.Proto.Hotmethod.{TaskDesc, TaskResult}
use mini_drop.Proto.Rpc.{
  ok, CreateTaskRequest, CreateTaskResponse, new_create_task, FetchDataRequest, FetchDataResponse,
  new_fetch_data, StatAgentRequest, StatAgentResponse, new_stat_agent,
}
use mini_drop.Common.Log.{info}
use mini_drop.Common.Effect.{log}
use mini_drop.Server.Reply.{Reply}
use mini_drop.Server.Hotmethod.{HotmethodService, get_result}

-- By the target agent's IP address, oldest task first.
pub record ControlService : Type 0 where
  pub tasks : Dict String (List TaskDesc)

unfoldable pub new_control : ControlService
new_control = record { tasks = [] }

unfoldable pub create_task :
    ControlService → CreateTaskRequest → Reply ControlService CreateTaskResponse
unfolding get_or
create_task s request = record {
  state = record { tasks = insert ip (push_back (get_or ip [] s.tasks) request.task_desc) s.tasks };
  status = ok;
  response = record new_create_task { success = true };
  effects =
      log info ("task queued for agent " ++ (ip ++ (", task_id=" ++ request.task_desc.task_id)))
      ∷ [];
}
  where
    open request use {target_ip as ip}

-- The branches after `GetResult`.
unfoldable pub answer : Option TaskResult → FetchDataResponse
answer none = record new_fetch_data {
  success = false;
  error_message = "task not done yet or not found";
}
answer (some result) =
    if result.error_message == ""
    then record new_fetch_data { success = true; cos_key = result.cos_key }
    else record new_fetch_data { success = false; error_message = result.error_message }

unfoldable pub fetch_data :
    HotmethodService → ControlService → FetchDataRequest → Reply ControlService FetchDataResponse
unfolding answer get_result
fetch_data hotmethod_svc s request = record {
  state = s;
  status = ok;
  response = answer (get_result hotmethod_svc request.task_id);
  effects = [];
}

unfoldable pub stat_agent :
    ControlService → StatAgentRequest → Reply ControlService StatAgentResponse
stat_agent s request = record {
  state = s;
  status = ok;
  response = record new_stat_agent { online = false; last_heartbeat = "unknown" };
  effects = [];
}

-- `it == end()` and an empty deque give `false`; otherwise the front is taken off.
unfoldable pub pop_front :
    String → ControlService → Option (List TaskDesc) → Option TaskDesc × ControlService
pop_front ip s none = (none, s)
pop_front ip s (some []) = (none, s)
pop_front ip s (some (task ∷ rest)) = (some task, record { tasks = insert ip rest s.tasks })

unfoldable pub pop_task_for_agent : ControlService → String → Option TaskDesc × ControlService
unfolding pop_front
pop_task_for_agent s ip = pop_front ip s (lookup ip s.tasks)
