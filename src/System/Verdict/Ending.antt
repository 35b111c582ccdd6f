-- ===== src/System/Verdict/Ending.antt =====
-- HotmethodChannel.cpp, HotmethodService.cpp and task.go: the watcher when the agent's report of a task
-- has arrived.

use Prim.Native.String.append
use Prim.Native.String.{◌++◌ as text_append}
use mathlib.Core.List.{◌++◌}
use text.Mathlib.TextLemmas.{append-eq-nil_iff}
use mini_drop.Base.{
  ℕ, String, ◌==◌, string_eq, eq_iff, if◌then◌else◌, Option, none, some, List, [], ◌∷◌, ◌≡◌, ◌≢◌,
  refl, sym, ap, ◌∙◌, subst, arith, Bool, true, false, Bool-cases, inl, inr,
}
use mini_drop.Common.Scanf.{bytes}
use mini_drop.Proto.Hotmethod.{TaskDesc, TaskResult}
use mini_drop.Common.Effect.{Effect}
use mini_drop.Common.Perf.{PerfResult}
use mini_drop.Common.CosClient.{CosClient, init, put_file}
use mini_drop.Agent.HotmethodChannel.{
  Surroundings, base_result, perf_out, cos_key, fail_with, after_put, after_init, finish,
}
use mini_drop.Agent.HotmethodChannel.Reports.{IsTold, finish_iff, finish-IsAbout}
use mini_drop.Server.Control.{fetch_data}
use mini_drop.Server.DropServer.{new_server, Call, notifies, serve}
use mini_drop.Server.DropServer.Status.{
  TaskStatus, unreported, failed_with, uploaded_to, status_after, reported,
}
use mini_drop.ApiServer.Tasks.{Act, runs, sets_done, sets_status, failed_status}
use mini_drop.System.Verdict.{IsClear, verdict, conclude-fetch_data}
use mini_drop.ApiServer.Watcher.{conclude, still_running}

-- The byte that a text begins with.
abbrev first : List ℕ → ℕ
first [] = 0
first (b ∷ bs) = b

first-append : (p e : String) → p ≢ "" → first (bytes (text_append p e)) ≡ first (bytes p)
first-append String.[] e h = absurd (h refl)
first-append (String.◌∷◌ c s) e h = ap (λ t. first (bytes t)) (λ i. append.cons c s e i)

-- A message that begins unlike the text for a task that is still running.
prefix-ne-running :
    (p e : String) → (p == "") ≡ false → first (bytes p) ≢ 116 → text_append p e ≢ still_running
prefix-ne-running p e h1 h2 h =
    h2 (sym (first-append p e (λ k. ground (arith, eq_iff p ""))) ∙ ap (λ s. first (bytes s)) h)

-- A result that says something else.
abbrev IsNews : TaskResult → Type 0
IsNews r = r.error_message ≢ still_running

after_put-IsNews :
    (env : Surroundings) (task : TaskDesc) (put : Option String × List Effect)
    → IsNews (after_put task (base_result env task) put).0
unfolding after_put fail_with
after_put-IsNews env task (some err, logged) =
    prefix-ne-running "upload failed: " err refl (omega arith)
after_put-IsNews env task (none, logged) = λ h. ground (arith, eq_iff "" still_running)

after_init-IsNews :
    (env : Surroundings) (cos : CosClient) (task : TaskDesc) (initial : Option String × List Effect)
    → IsNews (after_init env.run cos task (base_result env task) initial).0
unfolding after_init fail_with
after_init-IsNews env cos task (some err, logged) =
    prefix-ne-running "cos init failed: " err refl (omega arith)
after_init-IsNews env cos task (none, logged) =
    after_put-IsNews env task (put_file env.run cos (perf_out task) (cos_key task))

finish-IsNews :
    (env : Surroundings) (cos : CosClient) (task : TaskDesc) (perf : PerfResult)
    → IsNews (finish env cos task perf).0
unfolding finish fail_with
finish-IsNews env cos task perf = elim (Bool-cases perf.success) [
  | inl done ↦ rw (done, finish) (after_init-IsNews env cos task (init env.run cos))
  | inr bad ↦ rw (bad, finish) (prefix-ne-running "perf failed: " perf.error_msg refl (omega arith))
]

cos_key-ne-empty : (task : TaskDesc) → cos_key task ≢ ""
cos_key-ne-empty task e =
    ground
      (arith, (append-eq-nil_iff {p = task.task_id} {q = "/perf.data"}).0 e, eq_iff "/perf.data" "")

reported-IsClear :
    (task : TaskDesc) (r : TaskResult) (b : Bool)
    → (r.error_message == "") ≡ b
    → IsTold task r
    → IsNews r
    → IsClear (if b then uploaded_to r.cos_key else failed_with r.error_message)
reported-IsClear task r true fine told news =
    λ e. cos_key-ne-empty task (sym (told ∙ ap (λ b. if b then cos_key task else "") fine) ∙ e)
reported-IsClear task r false bad told news = (λ e. ground (arith, eq_iff r.error_message ""), news)

status_after-notifies :
    (id : String) (status : TaskStatus) (calls : List Call) (r : TaskResult)
    → r.task_id ≡ id
    → status_after id status (calls ++ (notifies r ∷ [])) ≡ reported r
status_after-notifies id status [] r h =
    ap (λ b. if b then reported r else status) ((eq_iff r.task_id id).1 h)
status_after-notifies id status (notifies q ∷ calls) r h =
    status_after-notifies id (if q.task_id == id then reported q else status) calls r h
status_after-notifies id status (c ∷ calls) r h = status_after-notifies id status calls r h

verdict-reported :
    (analysis : List Act) (task : TaskDesc) (r : TaskResult) (b : Bool)
    → (r.error_message == "") ≡ b
    → IsTold task r
    → verdict analysis task.task_id
        (if b then uploaded_to r.cos_key else failed_with r.error_message)
      ≡ some (
          if b
          then runs (sets_done task.task_id (cos_key task)) ∷ analysis
          else runs (
              sets_status task.task_id failed_status
                (text_append "agent failure: " r.error_message))
            ∷ [])
verdict-reported analysis task r true fine told =
    ap (λ k. some (runs (sets_done task.task_id k) ∷ analysis))
      (told ∙ ap (λ b. if b then cos_key task else "") fine)
verdict-reported analysis task r false bad told = refl

conclude-notifies :
    (env : String → Option String) (calls : List Call) (analysis : List Act) (task : TaskDesc)
    (r : TaskResult)
    → r.task_id ≡ task.task_id
    → IsTold task r
    → IsNews r
    → let s = serve env new_server (calls ++ (notifies r ∷ [])) in
      conclude analysis task.task_id
        (some (fetch_data s.hotmethod s.control (record { task_id = task.task_id })).response)
      ≡ some (
          if r.error_message == ""
          then runs (sets_done task.task_id (cos_key task)) ∷ analysis
          else runs (
              sets_status task.task_id failed_status
                (text_append "agent failure: " r.error_message))
            ∷ [])
conclude-notifies env calls analysis task r h told news =
    let status = status_after-notifies task.task_id unreported calls r h in
    conclude-fetch_data env (calls ++ (notifies r ∷ [])) analysis task.task_id
      (subst IsClear (sym status) (reported-IsClear task r (r.error_message == "") refl told news))
    ∙ ap (verdict analysis task.task_id) status
    ∙ verdict-reported analysis task r (r.error_message == "") refl told

-- Once the agent's report of a task has reached drop_server, the watcher ends with its next answer of
-- `FetchData`, whatever drop_server was called with before: it marks the task as done with the key of the
-- upload and starts the analysis if the report carries no error message, and else marks it as failed with
-- that message.
pub conclude-finish :
    (env : String → Option String) (calls : List Call) (agent : Surroundings) (cos : CosClient)
    (task : TaskDesc) (perf : PerfResult) (analysis : List Act)
    → let r = (finish agent cos task perf).0 in
      let s = serve env new_server (calls ++ (notifies r ∷ [])) in
      conclude analysis task.task_id
        (some (fetch_data s.hotmethod s.control (record { task_id = task.task_id })).response)
      ≡ some (
          if r.error_message == ""
          then runs (sets_done task.task_id (cos_key task)) ∷ analysis
          else runs (
              sets_status task.task_id failed_status
                (text_append "agent failure: " r.error_message))
            ∷ [])
conclude-finish env calls agent cos task perf analysis =
    let r = (finish agent cos task perf).0 in
    let told = (finish_iff agent cos task perf).1 in
    let about = finish-IsAbout agent cos task perf in
    conclude-notifies env calls analysis task r about.names_task told
      (finish-IsNews agent cos task perf)
