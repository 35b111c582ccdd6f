-- ===== src/Server/Reply.antt =====
-- What a call of a service's handler gives: the service's state after it, the status and the
-- response that go back to the caller, and what it logged and posted.
use mini_drop.Base.{List}
use mini_drop.Proto.Rpc.{Status}
use mini_drop.Common.Effect.{Effect}

pub record Reply (S R : Type 0) : Type 0 where
  pub state : S
  pub status : Status
  pub response : R
  pub effects : List Effect
