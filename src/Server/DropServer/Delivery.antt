-- ===== src/Server/DropServer/Delivery.antt =====
-- The server as a queue for each agent: what `CreateTask` puts in, the heartbeats take out.
use mathlib.Core.List.{◌++◌, append-nil}
use mini_drop.Base.{
  ℕ, String, Bool, true, false, ◌==◌, string_eq, if◌then◌else◌, Option, none, some, List, [], ◌∷◌,
  ◌≡◌, refl, sym, ◌∙◌, push_back, push_back-append_nil, append_step,
}
use mini_drop.Proto.Hotmethod.{TaskDesc}
use mini_drop.Proto.Rpc.{HealthCheckRequest, HealthCheckResponse}
use mini_drop.Server.Control.{fetch_data, stat_agent, pop_task_for_agent}
use mini_drop.Server.Control.Queue.{queued, to_list, queued-create_task, queued-pop_task_for_agent}
use mini_drop.Server.HealthCheck.{heartbeat, offer}
use mini_drop.Server.DropServer.{
  DropServer, Call, creates, fetches, stats, beats, notifies, collects, registers, configures,
  scans, Response, beat, step, serve, responses,
}

-- The task that a call puts into the queue of an agent.
abbrev pub put_in : String → Call → List TaskDesc
put_in ip (creates q) = if q.target_ip == ip then q.task_desc ∷ [] else []
put_in ip _ = []

-- The tasks created for an agent, in the order of the calls.
abbrev pub created_for : String → List Call → List TaskDesc
created_for ip [] = []
created_for ip (c ∷ calls) = put_in ip c ++ created_for ip calls

-- The task that an answered call hands to an agent.
abbrev pub taken_out : String → Call × Response → List TaskDesc
taken_out ip (beats now q, beat r) =
    if q.ip_addr == ip then (if r.pending then r.task_desc ∷ [] else []) else []
taken_out ip _ = []

-- The tasks delivered to an agent, in the order of its heartbeats.
abbrev pub delivered_to : String → List (Call × Response) → List TaskDesc
delivered_to ip [] = []
delivered_to ip (a ∷ answers) = taken_out ip a ++ delivered_to ip answers

-- The task that a response hands over.
unfoldable pub offered : HealthCheckResponse → List TaskDesc
offered r = if r.pending then r.task_desc ∷ [] else []

pub offered-offer :
    (ip : String) (task : Option TaskDesc) → offered (offer ip task).0 ≡ to_list task
unfolding offered offer
offered-offer ip none = refl
offered-offer ip (some task) = refl

push_back_if :
    (b : Bool) (xs : List TaskDesc) (task : TaskDesc)
    → (if b then push_back xs task else xs) ≡ xs ++ (if b then task ∷ [] else [])
push_back_if true xs task = push_back-append_nil xs task
push_back_if false xs task = sym (append-nil xs)

module _ (env : String → Option String) where
  pub heartbeat-queue :
      (s : DropServer) (now : ℕ) (q : HealthCheckRequest) (ip : String)
      → let r = heartbeat env now s.health s.control q in
        (if q.ip_addr == ip then offered r.response else []) ++ queued ip r.state.1
        ≡ queued ip s.control
  unfolding heartbeat
  heartbeat-queue s now q ip =
      rw (offered-offer q.ip_addr (pop_task_for_agent s.control q.ip_addr).0)
        (queued-pop_task_for_agent s.control q.ip_addr ip)

  pub step-queue :
      (s : DropServer) (c : Call) (ip : String)
      → taken_out ip (c, (step env s c).response) ++ queued ip (step env s c).server.control
        ≡ queued ip s.control ++ put_in ip c
  unfolding step
  step-queue s (creates q) ip =
      rw (queued-create_task s.control q ip) (push_back_if (q.target_ip == ip) _ q.task_desc)
  step-queue s (fetches q) ip = unfold fetch_data in sym (append-nil _)
  step-queue s (stats q) ip = unfold stat_agent in sym (append-nil _)
  step-queue s (beats now q) ip = unfold offered in heartbeat-queue s now q ip ∙ sym (append-nil _)
  step-queue s (notifies q) ip = sym (append-nil _)
  step-queue s (collects q) ip = sym (append-nil _)
  step-queue s (registers q) ip = sym (append-nil _)
  step-queue s (configures q) ip = sym (append-nil _)
  step-queue s (scans now) ip = sym (append-nil _)

  -- Whatever calls the server serves, in whatever order: the tasks delivered to an agent, followed
  -- by those that still wait for it, are those that waited before, followed by those created for it
  -- since. So each task is delivered at most once, to the agent that it was created for, in the
  -- order of creation, and none is lost or made up by the server.
  pub delivery :
      (s : DropServer) (calls : List Call) (ip : String)
      → delivered_to ip (responses env s calls) ++ queued ip (serve env s calls).control
        ≡ queued ip s.control ++ created_for ip calls
  unfolding responses serve
  delivery s [] ip = sym (append-nil _)
  delivery s (c ∷ calls) ip =
      let s' = (step env s c).server in
      append_step (taken_out ip (c, (step env s c).response)) _ _ (queued ip s'.control) _ _ _
        (delivery s' calls ip) (step-queue s c ip)
