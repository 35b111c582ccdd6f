-- ===== src/System/Request.antt =====
-- What a user asks of the apiserver and what perf is run with: CreateTask of apiserver/server/task.go, the
-- description of the task that it sends, and ExecTask of drop/agent/HotmethodChannel.cpp.
pub mod Lost
pub mod Served
pub mod Decided
use mathlib.Core.Option
use mathlib.Core.List.{◌++◌, append-nil}
use Prim.Native.String.{◌++◌ as text_append}
use mini_drop.Base.{
  ℕ, String, Bool, true, false, eqb, ◌==◌, if◌then◌else◌, Option, some, List, [], ◌∷◌, ◌≡◌, refl,
  sym, ap, ◌∙◌, subst, arith,
}
use mini_drop.Base.Int.{ℤ}
use mini_drop.Proto.Hotmethod.{TaskDesc}
use mini_drop.Proto.Rpc.{CreateTaskRequest}
use mini_drop.Common.Perf.{child, perf_argv, default_hz, default_duration, default_callgraph}
use mini_drop.Common.Perf.Command.{commands, record_perf-commands}
use mini_drop.Common.Perf.Timeout.{IsSteady}
use mini_drop.Common.CosClient.{CosClient}
use mini_drop.Agent.HotmethodChannel.{Surroundings, records, sampling, perf_out, acts_of, exec_task}
use mini_drop.Agent.HotmethodChannel
use mini_drop.Agent.HotmethodChannel.Reports.{perf_of, exec_task-reports}
use mini_drop.ApiServer.Tasks.{
  Act, dispatches, CreateTaskReq, Dispatch, no_client, call_failed, answered, task_desc,
  with_defaults, dispatch_task, create_task,
}

-- The calls `CreateTask` of drop_server.
abbrev pub dispatched : List Act → List CreateTaskRequest
dispatched [] = []
dispatched (dispatches q ∷ acts) = q ∷ dispatched acts
dispatched (_ ∷ acts) = dispatched acts

-- The commands that Perf::Record starts while a task is executed; the mc commands of the upload are not among them.
abbrev pub perf_commands : List HotmethodChannel.Act → List (List String)
perf_commands [] = []
perf_commands (records actions ∷ acts) = commands actions ++ perf_commands acts
perf_commands (_ ∷ acts) = perf_commands acts

-- The call for a request of a user.
abbrev pub request_of : String → CreateTaskReq → CreateTaskRequest
request_of tid given = record {
  target_ip = given.target_ip;
  service = "hotmethod";
  task_desc = task_desc tid (with_defaults given);
}

has_client : Dispatch → Bool
has_client no_client = false
has_client (call_failed err) = true
has_client (answered resp) = true

-- CreateTask for a request that can be bound and a row that the database takes.
abbrev pub creation : String → String → String → String → Dispatch → CreateTaskReq → List Act
creation tid uid user_name params dispatch given =
    (create_task tid uid user_name params true dispatch "" (some given)).0

dispatched-creation :
    (tid uid user_name params : String) (dispatch : Dispatch) (given : CreateTaskReq)
    → dispatched (creation tid uid user_name params dispatch given)
      ≡ (if has_client dispatch then request_of tid given ∷ [] else [])
unfolding create_task dispatch_task with_defaults has_client
dispatched-creation tid uid user_name params no_client given = refl
dispatched-creation tid uid user_name params (call_failed err) given = refl
dispatched-creation tid uid user_name params (answered resp) given = ground arith

pub dispatched-request_of :
    (tid uid user_name params : String) (dispatch : Dispatch) (given : CreateTaskReq)
    (q : CreateTaskRequest)
    → dispatched (creation tid uid user_name params dispatch given) ≡ q ∷ []
    → q ≡ request_of tid given
dispatched-request_of tid uid user_name params dispatch given q sent =
    ground (arith, dispatched-creation tid uid user_name params dispatch given)

exec_task-commands :
    (agent : Surroundings) (cos : CosClient) (task : TaskDesc) (c : ℕ)
    → agent.os.fork ≡ child c
    → IsSteady agent.os
    → let s = sampling task in
      (acts : List HotmethodChannel.Act) × (exec_task agent cos task ≡ some acts)
      × (perf_commands acts
          ≡ perf_argv task.sample_argv.pid
              (default_hz s.hz)
              (default_duration s.duration)
              (default_callgraph task.sample_argv.callgraph)
              (perf_out task)
            ∷ [])
unfolding acts_of exec_task
exec_task-commands agent cos task c forked steady =
    let s = sampling task in
    let (acts, perf, ran, ended, _, _) = exec_task-reports agent cos task steady in
    let one =
      record_perf-commands agent.os task.sample_argv.pid s.hz s.duration s.timeout
        task.sample_argv.callgraph (perf_out task) c perf forked ended in
    (
      acts_of agent cos task perf,
      ap (Option.map (acts_of agent cos task)) ended,
      append-nil (commands perf.1) ∙ one,
    )

asked_argv :
    (given : CreateTaskReq) (tid : String)
    → let task = (request_of tid given).task_desc in
      let s = sampling task in
      ◌≡◌ {A = List (List String)}
        (perf_argv task.sample_argv.pid
            (default_hz s.hz)
            (default_duration s.duration)
            (default_callgraph task.sample_argv.callgraph)
            (perf_out task)
          ∷ [])
        (perf_argv given.pid
            (default_hz given.hz)
            (default_duration given.duration)
            (default_callgraph given.callgraph)
            (text_append (text_append "/tmp/drop/" tid) "/perf.data")
          ∷ [])
unfolding sampling task_desc with_defaults
asked_argv given tid =
    let task = (request_of tid given).task_desc in
    let s = sampling task in
    let hz : default_hz s.hz ≡ default_hz given.hz = ground arith in
    let duration : default_duration s.duration ≡ default_duration given.duration = ground arith in
    rw (hz, duration) refl

-- The execution of a task comes to its end, and in it Perf::Record starts one command, as the user asked.
abbrev pub RunsAsAsked : String → CreateTaskReq → Surroundings → CosClient → TaskDesc → Type 0
RunsAsAsked tid given agent cos task =
    (acts : List HotmethodChannel.Act) × (exec_task agent cos task ≡ some acts)
    × (perf_commands acts
        ≡ perf_argv given.pid (default_hz given.hz) (default_duration given.duration)
            (default_callgraph given.callgraph)
            (text_append (text_append "/tmp/drop/" tid) "/perf.data")
          ∷ [])

request_of-RunsAsAsked :
    (tid : String) (given : CreateTaskReq) (agent : Surroundings) (cos : CosClient) (c : ℕ)
    → agent.os.fork ≡ child c
    → IsSteady agent.os
    → RunsAsAsked tid given agent cos (request_of tid given).task_desc
request_of-RunsAsAsked tid given agent cos c forked steady =
    let task = (request_of tid given).task_desc in
    let (acts, ran, command) = exec_task-commands agent cos task c forked steady in
    (acts, ran, command ∙ asked_argv given tid)

-- If CreateTask has sent its call to drop_server, and the agent that gets the task can start a child and
-- has a steady clock: the call goes to the host that the user named, and the execution of the task comes to
-- its end; Perf::Record starts one command in it, perf on the user's process with the user's rate, duration and
-- call graph, or 99, 30 and dwarf where they were left open, into the directory of the task.
pub creation-perf_commands :
    (tid uid user_name params : String) (dispatch : Dispatch) (given : CreateTaskReq)
    (q : CreateTaskRequest) (agent : Surroundings) (cos : CosClient) (c : ℕ)
    → dispatched (creation tid uid user_name params dispatch given) ≡ q ∷ []
    → agent.os.fork ≡ child c
    → IsSteady agent.os
    → (q.target_ip ≡ given.target_ip) × RunsAsAsked tid given agent cos q.task_desc
creation-perf_commands tid uid user_name params dispatch given q agent cos c sent forked steady =
    let same = dispatched-request_of tid uid user_name params dispatch given q sent in
    (
      ap (λ r. r.target_ip) same,
      subst (λ r. RunsAsAsked tid given agent cos r.task_desc) (sym same)
          (request_of-RunsAsAsked tid given agent cos c forked steady),
    )
