-- ===== src/Server/Control/Views/Independence.antt =====
-- ControlService.cpp: calls for different agents, in either order.
use text.Mathlib.TextEquality.{IsScalar-prop}
use mathlib.Core.Quot
use mathlib.Core.Quot.{Quot, Quot-set}
use mini_drop.Base.{string_eq, eq_iff, Option, ◌≡◌, ◌≢◌, sym, arith}
use mini_drop.Proto.Hotmethod.{TaskDesc}
use mini_drop.Server.Control.{ControlService}
use mini_drop.Server.Control.Views.{
  Queues, SameQueues, Operation, agent_of, perform, queued-perform, given-perform, run,
}

-- Both operations, the first argument first: what they give, and the table afterwards.
abbrev pub both : Operation → Operation → Queues → Option TaskDesc × Option TaskDesc × Queues
both o p v = let first = run o v in let second = run p first.1 in (first.0, second.0, second.1)

-- The same two, the second argument first.
abbrev pub both_reversed :
    Operation → Operation → Queues → Option TaskDesc × Option TaskDesc × Queues
both_reversed o p v =
    let first = run p v in let second = run o first.1 in (second.0, first.0, second.1)

same_queues :
    (o p : Operation) (s : ControlService)
    → agent_of o ≢ agent_of p
    → SameQueues (perform p (perform o s).1).1 (perform o (perform p s).1).1
same_queues o p s other ip = ground (
  arith,
  queued-perform p (perform o s).1 ip,
  queued-perform o s ip,
  queued-perform o (perform p s).1 ip,
  queued-perform p s ip,
  eq_iff (agent_of o) ip,
  eq_iff (agent_of p) ip,
)

-- An operation for another agent does not change what is given.
given_same :
    (o p : Operation) (s : ControlService)
    → agent_of o ≢ agent_of p
    → (perform p (perform o s).1).0 ≡ (perform p s).0
given_same o p s other = ground (
  arith,
  given-perform p (perform o s).1,
  given-perform p s,
  queued-perform o s (agent_of p),
  eq_iff (agent_of o) (agent_of p),
)

both_set : IsSet (Option TaskDesc × Option TaskDesc × Queues)
both_set = hlevel (IsScalar-prop, Quot-set)

-- On the table of the queues, two calls for different agents, be they of the apiserver or of the agents'
-- heartbeats, give the same and leave the same in either order.
pub calls_commute :
    (o p : Operation) (v : Queues) → agent_of o ≢ agent_of p → both o p v ≡ both_reversed o p v
unfolding run
calls_commute o p v other =
    Quot.ind {β = λ v. both o p v ≡ both_reversed o p v} (λ v. both_set _ _)
      (λ s i. (
        sym (given_same p o s (λ e. other (sym e))) i,
        given_same o p s other i,
        Quot.sound (same_queues o p s other) i,
      ))
      v
