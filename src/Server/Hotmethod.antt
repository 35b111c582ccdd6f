-- ===== src/Server/Hotmethod.antt =====
-- drop/server/HotmethodService.h and .cpp: the results that the agents report, by task id.
use Prim.Native.String.{◌++◌}
use mini_drop.Base.{String, ◌==◌, string_eq, if◌then◌else◌, Option, [], ◌∷◌}
use mini_drop.Base.Dict.{Dict, lookup, insert}
use mini_drop.Proto.Hotmethod.{TaskResult, Target}
use mini_drop.Proto.Rpc.{ok}
use mini_drop.Common.Log.{info, warn}
use mini_drop.Common.Effect.{log}
use mini_drop.Server.Reply.{Reply}

pub record HotmethodService : Type 0 where
  pub results : Dict String TaskResult

unfoldable pub new_hotmethod : HotmethodService
new_hotmethod = record { results = [] }

unfoldable pub collect : HotmethodService → Target → Reply HotmethodService (Unit {0})
collect s request = record {
  state = s;
  status = ok;
  response = tt;
  effects = log info ("Hotmethod::Collect called for task_id=" ++ request.task_id) ∷ [];
}

unfoldable pub notify_result : HotmethodService → TaskResult → Reply HotmethodService (Unit {0})
notify_result s request = record {
  state = record { results = insert tid request s.results };
  status = ok;
  response = tt;
  effects =
      (if request.error_message == ""
        then log info ("NotifyResult: task=" ++ (tid ++ (" SUCCESS cos_key=" ++ request.cos_key)))
        else log warn ("NotifyResult: task=" ++ (tid ++ (" FAILED err=" ++ request.error_message))))
      ∷ [];
}
  where
    open request use {task_id as tid}

-- `none` for `false`.
unfoldable pub get_result : HotmethodService → String → Option TaskResult
get_result s task_id = lookup task_id s.results
