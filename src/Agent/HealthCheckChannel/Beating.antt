-- ===== src/Agent/HealthCheckChannel/Beating.antt =====
-- HealthCheckChannel.cpp, `Run`: the heartbeats that are sent, and what their answers leave.
use mathlib.Core.List.{◌++◌, append_assoc, append-nil}
use mini_drop.Base.{ℕ, List, [], ◌∷◌, ◌≡◌, refl, sym, ap, ◌∙◌, subst, arith}
use mini_drop.Proto.Hotmethod.{TaskDesc}
use mini_drop.Proto.Rpc.{Status, ok, failed, HealthCheckRequest, HealthCheckResponse}
use mini_drop.Agent.HealthCheckChannel.{
  Channel, request, receive, BeatAct, calls, Beat, unset, answered, run_beats,
}
use mini_drop.Agent.HealthCheckChannel.Queue.{arrived, receive-queue}
use mini_drop.Agent.HealthCheckChannel.Queue

-- The rounds before the flag is found unset.
abbrev pub rounds_made : List Beat → List Beat
rounds_made [] = []
rounds_made (unset ∷ beats) = []
rounds_made (answered status resp ∷ beats) = answered status resp ∷ rounds_made beats

-- The requests that are sent, with their deadlines.
abbrev pub sent : List BeatAct → List (HealthCheckRequest × ℕ)
sent [] = []
sent (calls q deadline ∷ acts) = (q, deadline) ∷ sent acts
sent (_ ∷ acts) = sent acts

-- One for each round.
abbrev pub for_each : HealthCheckRequest → List Beat → List (HealthCheckRequest × ℕ)
for_each q [] = []
for_each q (b ∷ beats) = (q, 3000) ∷ for_each q beats

abbrev pub task_in : Beat → List TaskDesc
task_in unset = []
task_in (answered status resp) = arrived (Queue.answered status resp)

abbrev pub tasks_in : List Beat → List TaskDesc
tasks_in [] = []
tasks_in (b ∷ beats) = task_in b ++ tasks_in beats

request-receive :
    (c : Channel) (status : Status) (resp : HealthCheckResponse)
    → request (receive c status resp).0 ≡ request c
unfolding request receive
request-receive c ok resp = ground arith
request-receive c (failed message) resp = refl

receive-arrived :
    (c : Channel) (status : Status) (resp : HealthCheckResponse)
    → (receive c status resp).0.task_queue ≡ c.task_queue ++ task_in (answered status resp)
receive-arrived c ok resp = receive-queue c resp
receive-arrived c (failed message) resp = unfold receive in sym (append-nil _)

-- Whatever the answers are, failures of the call included: as long as the flag is set, each round sends
-- one heartbeat, always with the same identity and a deadline of 3 seconds.
pub run_beats-sent :
    (c : Channel) (beats : List Beat)
    → sent (run_beats c beats).1 ≡ for_each (request c) (rounds_made beats)
unfolding run_beats
run_beats-sent c [] = refl
run_beats-sent c (unset ∷ beats) = refl
run_beats-sent c (answered status resp ∷ beats) = ap (◌∷◌ (request c, 3000)) (
    subst (λ q. sent (run_beats (receive c status resp).0 beats).1 ≡ for_each q (rounds_made beats))
      (request-receive c status resp) (run_beats-sent (receive c status resp).0 beats))

-- With nobody taking tasks meanwhile, the queue grows by exactly the tasks of the answers that arrived
-- with `pending`, in the order of the rounds.
pub run_beats-queue :
    (c : Channel) (beats : List Beat)
    → (run_beats c beats).0.task_queue ≡ c.task_queue ++ tasks_in (rounds_made beats)
unfolding run_beats
run_beats-queue c [] = sym (append-nil _)
run_beats-queue c (unset ∷ beats) = sym (append-nil _)
run_beats-queue c (answered status resp ∷ beats) =
    run_beats-queue (receive c status resp).0 beats
    ∙ ap (λ xs. xs ++ tasks_in (rounds_made beats)) (receive-arrived c status resp)
    ∙ append_assoc c.task_queue _ _
