-- ===== src/ApiServer/Watcher/Ending.antt =====
-- task.go, startCollectionWatcher: the status that the watcher leaves.

use mathlib.Core.List.{◌++◌}
use Prim.Native.String.{◌++◌ as text_append}
use mini_drop.Base.{
  ℕ, ◌+◌, ◌%◌, ◌^◌, String, Bool, true, false, not, ◌&&◌, ◌||◌, ◌==◌, string_eq, eq_iff, eqb,
  if◌then◌else◌, Option, none, some, List, [], ◌∷◌, ◌≡◌, ◌≢◌, ◌⊎◌, inl, inr, refl, sym, ap, ◌∙◌,
  subst, arith, Bool-cases,
}
use mini_drop.Base.Int.{ℤ}
use mini_drop.Base.Decimal.{to_string_ℤ}
use mini_drop.Proto.Rpc.{FetchDataResponse}
use mini_drop.ApiServer.Tasks.{
  Row, Act, runs, launches, dispatches, watches, sets_status, sets_done, running_status,
  uploading_status, done_status, failed_status, analysis_running,
}
use mini_drop.ApiServer.Table.{
  TaskTable, row_after_all, row_after_all-append, execute_all, row-execute_all,
}
use mini_drop.ApiServer.Watcher.{
  Tick, seconds, is_past, timeout_acts, mark_acts, proceed, conclude, watch_loop, watch,
  trigger_analysis,
}

-- While the watcher runs, the row is in one of these states.
abbrev pub IsOpen : Row → Type 0
IsOpen r = (r.status ≡ running_status) ⊎ (r.status ≡ uploading_status)

-- The commands of the processes that are started.
abbrev pub launched : List Act → List (List String)
launched [] = []
launched (launches args ∷ acts) = args ∷ launched acts
launched (_ ∷ acts) = launched acts

-- The command of the analyzer.
abbrev pub analyzer_argv : String → String → String → ℤ → List String
analyzer_argv python script tid task_type =
    python ∷ script ∷ "--task-id" ∷ tid ∷ "--task-type" ∷ to_string_ℤ task_type ∷ []

-- When it has ended: failed; or done with a key, its analysis marked as running, and the command started. In all
-- other cases nothing has been started.
abbrev pub IsClosed : List String → Row → List (List String) → Type 0
IsClosed argv r commands =
    ((r.status ≡ failed_status) × (commands ≡ []))
    ⊎ ((r.status ≡ done_status)
        × (r.cos_key ≢ "")
        × (r.analysis_status ≡ analysis_running)
        × (commands ≡ argv ∷ []))

abbrev pub HasOutcome : List String → Bool → Row → List (List String) → Type 0
HasOutcome argv true r commands = IsClosed argv r commands
HasOutcome argv false r commands = IsOpen r × (commands ≡ [])

abbrev pub Leads : List String → List Act × Bool → String → Row → Type 0
Leads argv (acts, ended) tid r =
    (r' : Row) × (row_after_all acts tid (some r) ≡ some r')
    × HasOutcome argv ended r' (launched acts)

launched-append :
    (acts more : List Act) → launched acts ≡ [] → launched (acts ++ more) ≡ launched more
launched-append [] more h = refl
launched-append (launches args ∷ acts) more h = absurd (cc h)
launched-append (runs st ∷ acts) more h = launched-append acts more h
launched-append (dispatches q ∷ acts) more h = launched-append acts more h
launched-append (watches k ty d ∷ acts) more h = launched-append acts more h

Leads-append :
    (argv : List String) (tid : String) (mark acts : List Act) (ended : Bool) (r r1 : Row)
    → row_after_all mark tid (some r) ≡ some r1
    → launched mark ≡ []
    → Leads argv (acts, ended) tid r1
    → Leads argv (mark ++ acts, ended) tid r
Leads-append argv tid mark acts ended r r1 h none_yet (r', e, outcome) = (
  r',
  row_after_all-append mark acts tid (some r) ∙ ap (row_after_all acts tid) h ∙ e,
  subst (HasOutcome argv ended r') (sym (launched-append mark acts none_yet)) outcome,
)

module _ (python script tid : String) (task_type : ℤ) where
  argv : List String
  argv = analyzer_argv python script tid task_type

  mark_acts-launched : (b : Bool) → launched (mark_acts tid b) ≡ []
  mark_acts-launched true = refl
  mark_acts-launched false = refl

  same : (tid == tid) ≡ true
  same = (eq_iff tid tid).1 refl

  mark_acts-IsOpen :
      (b : Bool) (r : Row)
      → IsOpen r
      → (r1 : Row) × (row_after_all (mark_acts tid b) tid (some r) ≡ some r1) × IsOpen r1
  mark_acts-IsOpen false r h = (r, refl, h)
  mark_acts-IsOpen true r h = elim (Bool-cases (eqb r.status running_status)) [
    | inl runs_now ↦ (
      record r {
        status = uploading_status;
        status_info = "collection finished, uploading to storage";
      },
      rw (same, runs_now) refl,
      inr refl,
    )
    | inr other ↦ (r, rw (same, other) refl, h)
  ]

  conclude-Leads :
      (o : Option FetchDataResponse) (acts : List Act) (r : Row)
      → conclude (trigger_analysis python script tid task_type) tid o ≡ some acts
      → Leads argv (acts, true) tid r
  unfolding conclude trigger_analysis argv
  conclude-Leads none acts r h = cc
  conclude-Leads (some resp) acts r h =
      elim (Bool-cases (resp.success && not (resp.cos_key == ""))) [
        | inl uploaded ↦
            let key : resp.cos_key ≢ "" = λ k. ground (arith, eq_iff resp.cos_key "") in
            let e : runs (sets_done tid resp.cos_key) ∷ trigger_analysis python script tid task_type
                ≡ acts =
              ground arith in
            subst (λ a. Leads argv (a, true) tid r) e
              (
                record r {
                  status = done_status;
                  status_info = "collection complete";
                  cos_key = resp.cos_key;
                  analysis_status = analysis_running;
                },
                rw same refl,
                inr (refl, key, refl, refl),
              )
        | inr other ↦
            let e : runs (
                    sets_status tid failed_status
                      (text_append "agent failure: " resp.error_message))
                  ∷ []
                ≡ acts =
              ground arith in
            subst (λ a. Leads argv (a, true) tid r) e
              (
                record r {
                  status = failed_status;
                  status_info = text_append "agent failure: " resp.error_message;
                },
                rw same refl,
                inl (refl, refl),
              )
      ]

  proceed-Leads :
      (mark : List Act) (o : Option (List Act)) (later : List Act × Bool) (r r1 : Row)
      → row_after_all mark tid (some r) ≡ some r1
      → launched mark ≡ []
      → ((acts : List Act) → o ≡ some acts → Leads argv (acts, true) tid r1)
      → Leads argv later tid r1
      → Leads argv (proceed mark o later) tid r
  proceed-Leads mark none later r r1 h none_yet now rest =
      Leads-append argv tid mark later.0 later.1 r r1 h none_yet rest
  proceed-Leads mark (some acts) later r r1 h none_yet now rest =
      Leads-append argv tid mark acts true r r1 h none_yet (now acts refl)

  if-Leads :
      (b : Bool) (x y : List Act × Bool) (r : Row)
      → Leads argv x tid r
      → Leads argv y tid r
      → Leads argv (if b then x else y) tid r
  if-Leads true x y r h1 h2 = h1
  if-Leads false x y r h1 h2 = h2

  timeout_acts-Leads : (r : Row) → Leads argv (timeout_acts tid, true) tid r
  timeout_acts-Leads r = (
    record r {
      status = failed_status;
      status_info = "watcher timeout: no result within expected duration";
    },
    rw same refl,
    inl (refl, refl),
  )

  watch_loop-Leads :
      (collect_limit limit : ℤ) (marked : Bool) (ticks : List Tick) (r : Row)
      → IsOpen r
      → Leads argv
          (watch_loop
            (trigger_analysis python script tid task_type)
            tid
            collect_limit
            limit
            marked
            ticks)
          tid
          r
  unfolding watch_loop
  watch_loop-Leads collect_limit limit marked [] r h = (r, refl, (h, refl))
  watch_loop-Leads collect_limit limit marked (tick ∷ ticks) r h =
      let marks = not marked && is_past tick.now_collect collect_limit in
      let analysis = trigger_analysis python script tid task_type in
      let later = watch_loop analysis tid collect_limit limit (marked || marks) ticks in
      let (r1, marked_row, still_open) = mark_acts-IsOpen marks r h in
      if-Leads (is_past tick.now limit) (timeout_acts tid, true)
        (proceed (mark_acts tid marks) (conclude analysis tid tick.fetched) later) r
        (timeout_acts-Leads r)
        (proceed-Leads (mark_acts tid marks) (conclude analysis tid tick.fetched) later r r1
          marked_row (mark_acts-launched marks) (λ acts e. conclude-Leads tick.fetched acts r1 e)
          (watch_loop-Leads collect_limit limit (marked || marks) ticks r1 still_open))

-- For a task that is marked as running, whatever the ticks are and drop_server answers: while the watcher
-- runs the task is running or uploading, and no process has been started; when it has ended the task has failed
-- and none was started, or the task is done, has a key that is not empty, its analysis is marked as running, and the
-- one process that was started is the analyzer for this task and its type.
pub watch-HasOutcome :
    (db : TaskTable) (t : db.Table) (python script tid : String) (task_type : ℤ) (duration : ℕ)
    (ticks : List Tick) (r : Row)
    → db.row t tid ≡ some r
    → r.status ≡ running_status
    → let done = watch python script tid task_type duration ticks in
      (r' : Row) × (db.row (execute_all db done.0 t) tid ≡ some r')
      × HasOutcome (analyzer_argv python script tid task_type) done.1 r' (launched done.0)
unfolding watch argv
watch-HasOutcome db t python script tid task_type duration ticks r known runs_now =
    let acts = (watch python script tid task_type duration ticks).0 in
    let (r', e, outcome) =
      watch_loop-Leads python script tid task_type (seconds duration)
        (seconds ((duration + 120) % 2 ^ 64)) false ticks r (inl runs_now) in
    (r', row-execute_all db acts t tid ∙ ap (row_after_all acts tid) known ∙ e, outcome)
