-- ===== src/Server/Control/Views.antt =====
-- ControlService.cpp: the tasks of the agents as an abstract table. `std::unordered_map` has no order that
-- anyone sees, so two states in which each agent has the same queue are one table.
pub mod Independence
pub mod Observations
pub mod Schedules
use text.Mathlib.TextEquality.{IsScalar-prop}
use mathlib.Core.Quot
use mathlib.Core.Path.{fun_ext}
use mathlib.Core.List.{head?}
use mathlib.Core.Quot.{Quot, Quot-set}
use mini_drop.Base.{
  String, ◌==◌, string_eq, eq_iff, if◌then◌else◌, Option, none, some, List, [], ◌∷◌, ◌≡◌, ◌↔◌, refl,
  sym, ap, ◌∙◌, push_back, drop, arith,
}
use mini_drop.Base.Dict.{lookup, get_or, lookup-insert}
use mini_drop.Proto.Hotmethod.{TaskDesc}
use mini_drop.Proto.Rpc.{CreateTaskRequest}
use mini_drop.Server.Control.{ControlService, create_task, pop_front, pop_task_for_agent}
use mini_drop.Server.Control.Queue.{queued, queued-create_task, pop_task_for_agent-head}

abbrev pub SameQueues : ControlService → ControlService → Type 0
SameQueues a b = (ip : String) → queued ip a ≡ queued ip b

abbrev pub Queues : Type 0
Queues = Quot SameQueues

view-set : IsSet (String → List TaskDesc)
view-set = hlevel IsScalar-prop

pub taken-set : IsSet (Option TaskDesc × Queues)
taken-set = hlevel (IsScalar-prop, Quot-set)

-- The queue of each agent.
view : Queues → String → List TaskDesc
view = Quot.lift view-set (λ s ip. queued ip s) (λ a b h. fun_ext h)

-- Two states are one table exactly if every agent has the same queue in both.
pub mk-eq_iff : (a b : ControlService) → (◌≡◌ {A = Queues} (Quot.mk a) (Quot.mk b)) ↔ SameQueues a b
unfolding view
mk-eq_iff a b = (λ e ip. ap (λ v. view v ip) e, λ h. Quot.sound h)

-- `CreateTask` of the apiserver, and `PopTaskForAgent` of a heartbeat.
pub data Operation : Type 0 where
  creates : CreateTaskRequest → Operation
  pops : String → Operation

abbrev pub agent_of : Operation → String
agent_of (creates q) = q.target_ip
agent_of (pops ip) = ip

abbrev pub perform : Operation → ControlService → Option TaskDesc × ControlService
perform (creates q) s = (none, (create_task s q).state)
perform (pops ip) s = pop_task_for_agent s ip

-- What an operation does to the queue of its agent, and gives.
abbrev pub changed : Operation → List TaskDesc → List TaskDesc
changed (creates q) tasks = push_back tasks q.task_desc
changed (pops ip) tasks = drop 1 tasks

abbrev pub given : Operation → List TaskDesc → Option TaskDesc
given (creates q) tasks = none
given (pops ip) tasks = head? tasks

queued-pop_front :
    (s : ControlService) (ip j : String) (front : Option (List TaskDesc))
    → lookup ip s.tasks ≡ front
    → queued j (pop_front ip s front).1 ≡ (if ip == j then drop 1 (queued j s) else queued j s)
unfolding pop_front get_or
queued-pop_front s ip j none h = ground (arith, eq_iff ip j)
queued-pop_front s ip j (some []) h = ground (arith, eq_iff ip j)
queued-pop_front s ip j (some (task ∷ rest)) h =
    ground (arith, lookup-insert ip j rest s.tasks, eq_iff ip j)

pub queued-perform :
    (o : Operation) (s : ControlService) (ip : String)
    → queued ip (perform o s).1
      ≡ (if agent_of o == ip then changed o (queued ip s) else queued ip s)
unfolding pop_task_for_agent
queued-perform (creates q) s ip = queued-create_task s q ip
queued-perform (pops j) s ip = queued-pop_front s j ip (lookup j s.tasks) refl

pub given-perform :
    (o : Operation) (s : ControlService) → (perform o s).0 ≡ given o (queued (agent_of o) s)
given-perform (creates q) s = refl
given-perform (pops ip) s = pop_task_for_agent-head s ip

pub perform-SameQueues :
    (o : Operation) (a b : ControlService)
    → SameQueues a b
    → SameQueues (perform o a).1 (perform o b).1
perform-SameQueues o a b h ip =
    queued-perform o a ip
    ∙ ap (λ xs. if agent_of o == ip then changed o xs else xs) (h ip)
    ∙ sym (queued-perform o b ip)

pub given-SameQueues :
    (o : Operation) (a b : ControlService) → SameQueues a b → (perform o a).0 ≡ (perform o b).0
given-SameQueues o a b h =
    given-perform o a ∙ ap (given o) (h (agent_of o)) ∙ sym (given-perform o b)

-- An operation on tables: what it gives, and the table afterwards.
unfoldable pub run : Operation → Queues → Option TaskDesc × Queues
run o =
    Quot.lift taken-set (λ s. ((perform o s).0, Quot.mk (perform o s).1))
      (λ a b h i. (given-SameQueues o a b h i, Quot.sound (perform-SameQueues o a b h) i))

-- The operations of the code are those on tables.
pub run-mk :
    (o : Operation) (s : ControlService)
    → run o (Quot.mk s) ≡ ((perform o s).0, Quot.mk (perform o s).1)
unfolding run
run-mk o s = refl
