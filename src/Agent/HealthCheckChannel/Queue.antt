-- ===== src/Agent/HealthCheckChannel/Queue.antt =====
-- HealthCheckChannel.cpp: the queue between the two threads.
use mathlib.Core.List.{◌++◌, append-nil}
use mini_drop.Base.{
  false, if◌then◌else◌, List, [], ◌∷◌, push_back-append_nil, append_step, ◌≡◌, ◌↔◌, refl, sym, inl,
  inr, Bool-cases, ◌∙◌, arith,
}
use mini_drop.Proto.Hotmethod.{TaskDesc}
use mini_drop.Proto.Rpc.{Status, ok, failed, HealthCheckResponse}
use mini_drop.Agent.HealthCheckChannel.{
  Channel, start, stop, receive, Pop, stopped, popped, take_front, is_ready, pop_task,
}

-- What happens to the queue: the heartbeat thread gets an answer, the worker calls `PopTask`, and the
-- main thread starts and stops the channel. Each holds the mutex while it touches the queue.
pub data Event : Type 0 where
  answered : Status → HealthCheckResponse → Event
  pops : Event
  starts : Event
  stops : Event

unfoldable pub apply : Channel → Event → Channel
apply c (answered status resp) = (receive c status resp).0
apply c pops = (pop_task c).1
apply c starts = start c
apply c stops = (stop c).0

abbrev pub run : Channel → List Event → Channel
run c [] = c
run c (e ∷ events) = run (apply c e) events

-- The task that an answer brought.
abbrev pub arrived : Event → List TaskDesc
arrived (answered ok resp) = if resp.pending then resp.task_desc ∷ [] else []
arrived _ = []

abbrev pub all_arrived : List Event → List TaskDesc
all_arrived [] = []
all_arrived (e ∷ events) = arrived e ++ all_arrived events

abbrev pub task_of : Pop → List TaskDesc
task_of (popped task) = task ∷ []
task_of _ = []

-- The task that the worker got.
abbrev pub handed : Channel → Event → List TaskDesc
handed c pops = task_of (pop_task c).0
handed c _ = []

abbrev pub all_handed : Channel → List Event → List TaskDesc
all_handed c [] = []
all_handed c (e ∷ events) = handed c e ++ all_handed (apply c e) events

take_front-queue :
    (c : Channel) (queue : List TaskDesc)
    → c.task_queue ≡ queue
    → task_of (take_front c queue).0 ++ (take_front c queue).1.task_queue ≡ queue
unfolding take_front
take_front-queue c [] h = h
take_front-queue c (task ∷ tasks) h = refl

pub pop_task-queue :
    (c : Channel) → task_of (pop_task c).0 ++ (pop_task c).1.task_queue ≡ c.task_queue
unfolding pop_task
pop_task-queue c = elim (Bool-cases (is_ready c)) [
  | inl ready ↦ rw (ready, pop_task) (take_front-queue c c.task_queue refl)
  | inr empty ↦ rw (empty, pop_task)
]

pub receive-queue :
    (c : Channel) (resp : HealthCheckResponse)
    → (receive c ok resp).0.task_queue
      ≡ c.task_queue ++ (if resp.pending then resp.task_desc ∷ [] else [])
unfolding receive
receive-queue c resp = elim (Bool-cases resp.pending) [
  | inl pending ↦ rw (pending, receive) (push_back-append_nil _ _)
  | inr idle ↦ rw (idle, receive) (sym (append-nil _))
]

apply-queue :
    (c : Channel) (e : Event) → handed c e ++ (apply c e).task_queue ≡ c.task_queue ++ arrived e
unfolding apply
apply-queue c (answered ok resp) = receive-queue c resp
apply-queue c (answered (failed message) resp) = unfold receive in sym (append-nil _)
apply-queue c pops = pop_task-queue c ∙ sym (append-nil _)
apply-queue c starts = unfold start in sym (append-nil _)
apply-queue c stops = unfold stop in sym (append-nil _)

-- However answers, calls of `PopTask`, starts and stops are interleaved: the tasks handed to the worker,
-- followed by those still queued, are those queued before, followed by those that arrived. A stop
-- drops none of them.
pub queue_order :
    (c : Channel) (events : List Event)
    → all_handed c events ++ (run c events).task_queue ≡ c.task_queue ++ all_arrived events
queue_order c [] = sym (append-nil _)
queue_order c (e ∷ events) =
    append_step (handed c e) _ _ (apply c e).task_queue _ _ _ (queue_order (apply c e) events)
      (apply-queue c e)

-- `PopTask` tells the worker to end exactly if the channel has stopped and no task is left.
pub pop_task-stopped_iff :
    (c : Channel) → ((pop_task c).0 ≡ stopped) ↔ ((c.task_queue ≡ []) × (c.running ≡ false))
unfolding pop_task is_ready take_front
pop_task-stopped_iff c = ground arith
