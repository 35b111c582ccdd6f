-- ===== src/Common/Effect.antt =====
-- What a handler does beside changing its state: log calls and posts to the apiserver.
use mini_drop.Base.{String}
use mini_drop.Common.Log.{Level}

pub data Effect : Type 0 where
  -- `Log::Debug`, `Info`, `Warn` or `Error`.
  log : Level → String → Effect
  -- `fork` and `execlp("curl", …)` with the endpoint and the JSON body. The code ignores its outcome.
  post : String → String → Effect
