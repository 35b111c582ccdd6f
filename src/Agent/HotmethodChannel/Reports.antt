-- ===== src/Agent/HotmethodChannel/Reports.antt =====
-- HotmethodChannel.cpp: what a task reports, and that it reports.
use Prim.Native.String.{◌++◌}
use text.Mathlib.TextLemmas.{append-eq-nil_iff}
use mathlib.Core.Option
use mini_drop.Base.{
  String, true, false, if◌then◌else◌, ◌==◌, string_eq, eq_iff, Option, none, some, List, [], ◌∷◌,
  ◌≡◌, ◌≢◌, ◌↔◌, refl, ap, arith, inl, inr, Bool-cases,
}
use mini_drop.Proto.Hotmethod.{TaskDesc, TaskResult}
use mini_drop.Common.Perf.{PerfResult, Action, record_perf}
use mini_drop.Common.Perf.Timeout.{IsSteady, record_perf-total}
use mini_drop.Common.Effect.{Effect}
use mini_drop.Common.CosClient.{CosClient, Child, exited, alias_args, put_dest, init, put_file}
use mini_drop.Common.CosClient.Uploads.{init_iff, put_file_iff}
use mini_drop.Agent.HotmethodChannel.{
  Surroundings, Act, notifies, sampling, base_result, to_pid_stats, perf_out, cos_key, after_put,
  after_init, finish, acts_of, exec_task,
}

prefix-ne-empty : (p s : String) → (p == "") ≡ false → p ++ s ≢ ""
prefix-ne-empty p s h e = ground (arith, eq_iff p "", (append-eq-nil_iff {p = p} {q = s}).0 e)

-- Perf succeeded, and both commands of `mc` exited with 0.
abbrev pub IsUploaded : Surroundings → CosClient → TaskDesc → PerfResult → Type 0
IsUploaded env cos task perf =
    (perf.success ≡ true)
    × (env.run (alias_args cos) ≡ exited 0)
    × (env.run ("mc" ∷ "cp" ∷ perf_out task ∷ put_dest cos (cos_key task) ∷ []) ≡ exited 0)

-- A result says how it ended: it has a key exactly where it has no error message.
abbrev pub IsTold : TaskDesc → TaskResult → Type 0
IsTold task r = r.cos_key ≡ (if r.error_message == "" then cos_key task else "")

-- A result whose error message and key were not set yet.
abbrev pub IsOpen : TaskResult → Type 0
IsOpen r = (r.error_message ≡ "") × (r.cos_key ≡ "")

after_put_lem :
    (task : TaskDesc) (result : TaskResult) (put : Option String × List Effect)
    → IsOpen result
    → (((after_put task result put).0.error_message ≡ "") ↔ (put.0 ≡ none))
      × IsTold task (after_put task result put).0
unfolding after_put
after_put_lem task result (some err, logged) open_result =
    ground (arith, prefix-ne-empty "upload failed: " err refl, eq_iff ("upload failed: " ++ err) "")
after_put_lem task result (none, logged) open_result =
    ground (arith, eq_iff result.error_message "")

after_init_lem :
    (run : List String → Child) (cos : CosClient) (task : TaskDesc) (result : TaskResult)
    (initial : Option String × List Effect)
    → IsOpen result
    → (((after_init run cos task result initial).0.error_message ≡ "")
        ↔ ((initial.0 ≡ none) × ((put_file run cos (perf_out task) (cos_key task)).0 ≡ none)))
      × IsTold task (after_init run cos task result initial).0
unfolding after_init
after_init_lem run cos task result (some err, logged) open_result =
    ground
      (arith, prefix-ne-empty "cos init failed: " err refl, eq_iff ("cos init failed: " ++ err) "")
after_init_lem run cos task result (none, logged) open_result =
    ground (
      arith,
      after_put_lem task result (put_file run cos (perf_out task) (cos_key task)) open_result,
    )

finish_cases :
    (env : Surroundings) (cos : CosClient) (task : TaskDesc) (perf : PerfResult)
    → (((finish env cos task perf).0.error_message ≡ "") ↔ (
        (perf.success ≡ true)
        × ((init env.run cos).0 ≡ none)
        × ((put_file env.run cos (perf_out task) (cos_key task)).0 ≡ none)))
      × IsTold task (finish env cos task perf).0
unfolding finish
finish_cases env cos task perf = elim (Bool-cases perf.success) [
  | inl done ↦
      rw (done, finish)
        (ground (
          arith,
          after_init_lem env.run cos task (base_result env task) (init env.run cos) (refl, refl),
        ))
  | inr bad ↦
      rw (bad, finish)
        (ground (
          arith,
          prefix-ne-empty "perf failed: " perf.error_msg refl,
          eq_iff ("perf failed: " ++ perf.error_msg) "",
        ))
]

-- The result that a task reports carries no error message exactly if perf succeeded and both the
-- alias and the upload exited with 0; and then, and only then, it carries the key of the upload.
pub finish_iff :
    (env : Surroundings) (cos : CosClient) (task : TaskDesc) (perf : PerfResult)
    → (((finish env cos task perf).0.error_message ≡ "") ↔ IsUploaded env cos task perf)
      × IsTold task (finish env cos task perf).0
finish_iff env cos task perf = ground (
  arith,
  finish_cases env cos task perf,
  init_iff env.run cos,
  put_file_iff env.run cos (perf_out task) (cos_key task),
)

-- The results that a task sent.
abbrev pub notified : List Act → List TaskResult
notified [] = []
notified (notifies r ∷ acts) = r ∷ notified acts
notified (_ ∷ acts) = notified acts

-- What every report holds, whatever its outcome: the task, and the agent before and after.
pub record IsAbout (env : Surroundings) (task : TaskDesc) (r : TaskResult) : Type 0 where
  pub names_task : r.task_id ≡ task.task_id
  pub has_stats : r.self_pstats ≡ to_pid_stats env.pre_stat ∷ to_pid_stats env.post_stat ∷ []

after_put-IsAbout :
    (env : Surroundings) (task : TaskDesc) (put : Option String × List Effect)
    → IsAbout env task (after_put task (base_result env task) put).0
unfolding after_put
after_put-IsAbout env task (some err, logged) = ground arith
after_put-IsAbout env task (none, logged) = ground arith

after_init-IsAbout :
    (env : Surroundings) (cos : CosClient) (task : TaskDesc) (initial : Option String × List Effect)
    → IsAbout env task (after_init env.run cos task (base_result env task) initial).0
unfolding after_init
after_init-IsAbout env cos task (some err, logged) = ground arith
after_init-IsAbout env cos task (none, logged) =
    after_put-IsAbout env task (put_file env.run cos (perf_out task) (cos_key task))

pub finish-IsAbout :
    (env : Surroundings) (cos : CosClient) (task : TaskDesc) (perf : PerfResult)
    → IsAbout env task (finish env cos task perf).0
unfolding finish
finish-IsAbout env cos task perf = elim (Bool-cases perf.success) [
  | inl done ↦ rw (done, finish) (after_init-IsAbout env cos task (init env.run cos))
  | inr bad ↦ rw (bad, finish) (ground arith)
]

-- `perf record` as this task calls it.
abbrev pub perf_of : Surroundings → TaskDesc → Option (PerfResult × List Action)
perf_of env task =
    let s = sampling task in
    record_perf env.os task.sample_argv.pid s.hz s.duration s.timeout task.sample_argv.callgraph
      (perf_out task)

-- Every task comes to its end and makes exactly one report, whether perf fails, runs into its timeout
-- or the upload fails; the report names the task and holds the two snapshots of the agent.
pub exec_task-reports :
    (env : Surroundings) (cos : CosClient) (task : TaskDesc)
    → IsSteady env.os
    → (acts : List Act) × (perf : PerfResult × List Action) × (exec_task env cos task ≡ some acts)
      × (perf_of env task ≡ some perf)
      × (notified acts ≡ (finish env cos task perf.0).0 ∷ [])
      × IsAbout env task (finish env cos task perf.0).0
unfolding exec_task
exec_task-reports env cos task steady =
    let s = sampling task in
    let (perf, ended) =
      record_perf-total env.os task.sample_argv.pid s.hz s.duration s.timeout
        task.sample_argv.callgraph (perf_out task) steady in
    (
      acts_of env cos task perf,
      perf,
      ap (Option.map (acts_of env cos task)) ended,
      ended,
      unfold acts_of in refl,
      finish-IsAbout env cos task perf.0,
    )
