-- ===== src/Server/Control/Queue.antt =====
-- ControlService.cpp: the queue of each agent, as `CreateTask` and `PopTaskForAgent` change it.
use mathlib.Core.List.{◌++◌, head?}
use mini_drop.Base.{
  String, ◌==◌, string_eq, eq_iff, if◌then◌else◌, Option, none, some, List, [], ◌∷◌, ◌≡◌, refl,
  push_back, arith,
}
use mini_drop.Base.Dict.{lookup, get_or, lookup-insert}
use mini_drop.Proto.Hotmethod.{TaskDesc}
use mini_drop.Proto.Rpc.{CreateTaskRequest}
use mini_drop.Server.Control.{ControlService, create_task, pop_front, pop_task_for_agent}

-- The tasks that wait for an agent, oldest first.
abbrev pub queued : String → ControlService → List TaskDesc
queued ip s = get_or ip [] s.tasks

abbrev pub to_list : Option TaskDesc → List TaskDesc
to_list none = []
to_list (some task) = task ∷ []

pub queued-create_task :
    (s : ControlService) (request : CreateTaskRequest) (ip : String)
    → queued ip (create_task s request).state
      ≡ (if request.target_ip == ip then push_back (queued ip s) request.task_desc else queued ip s)
unfolding create_task get_or
queued-create_task s request ip = ground (
  arith,
  lookup-insert request.target_ip ip
      (push_back (get_or request.target_ip [] s.tasks) request.task_desc) s.tasks,
  eq_iff request.target_ip ip,
)

queued-pop_front :
    (s : ControlService) (ip j : String) (front : Option (List TaskDesc))
    → lookup ip s.tasks ≡ front
    → (if ip == j then to_list (pop_front ip s front).0 else [])
        ++ queued j (pop_front ip s front).1
      ≡ queued j s
unfolding pop_front get_or
queued-pop_front s ip j none h = ground arith
queued-pop_front s ip j (some []) h = ground arith
queued-pop_front s ip j (some (task ∷ rest)) h =
    ground (arith, lookup-insert ip j rest s.tasks, eq_iff ip j)

-- The task that is popped for one agent is the front of its queue, and every other queue stays.
pub queued-pop_task_for_agent :
    (s : ControlService) (ip j : String)
    → (if ip == j then to_list (pop_task_for_agent s ip).0 else [])
        ++ queued j (pop_task_for_agent s ip).1
      ≡ queued j s
unfolding pop_task_for_agent
queued-pop_task_for_agent s ip j = queued-pop_front s ip j (lookup ip s.tasks) refl

pop_front-head :
    (s : ControlService) (ip : String) (front : Option (List TaskDesc))
    → lookup ip s.tasks ≡ front
    → (pop_front ip s front).0 ≡ head? (queued ip s)
unfolding pop_front get_or
pop_front-head s ip none h = ground arith
pop_front-head s ip (some []) h = ground arith
pop_front-head s ip (some (task ∷ rest)) h = ground arith

-- An agent gets the oldest task of its queue, and none only when the queue is empty.
pub pop_task_for_agent-head :
    (s : ControlService) (ip : String) → (pop_task_for_agent s ip).0 ≡ head? (queued ip s)
unfolding pop_task_for_agent
pop_task_for_agent-head s ip = pop_front-head s ip (lookup ip s.tasks) refl
