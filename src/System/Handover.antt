-- ===== src/System/Handover.antt =====
-- apiserver/server/task.go and analysis/poll_worker.py on one task: from the watcher, which finds the upload
-- and starts the analyzer itself, to the worker, which does so too where the watcher could not.
pub mod Uploads
use mathlib.Core.List.{◌++◌}
use mini_drop.Base.{
  ℕ, suc, String, Bool, true, false, ◌==◌, string_eq, eq_iff, Option, none, some, List, [], ◌∷◌,
  take, ◌≡◌, refl, sym, subst, arith,
}
use mini_drop.Base.Int.{ℤ}
use mini_drop.Proto.Rpc.{FetchDataResponse}
use mini_drop.ApiServer.Tasks.{Row, Act, sets_done, runs, launches}
use mini_drop.ApiServer.Table.{row_after_all}
use mini_drop.ApiServer.Watcher.{trigger_analysis, analysis_ended, conclude}
use mini_drop.Analysis.PollWorker.{is_waiting}

-- Whether a row is there that the worker would take up.
abbrev pub row_waits : Option Row → Bool
row_waits none = false
row_waits (some r) = is_waiting r

abbrev pub runs_launched : List Act → ℕ
runs_launched [] = 0
runs_launched (launches args ∷ acts) = suc (runs_launched acts)
runs_launched (_ ∷ acts) = runs_launched acts

abbrev pub watcher_acts : Option (List Act) → List Act
watcher_acts none = []
watcher_acts (some acts) = acts

-- What the watcher does at an answer of drop_server; nothing where it goes on.
abbrev pub acts_at : String → String → String → ℤ → FetchDataResponse → List Act
acts_at python script tid task_type resp =
    watcher_acts (conclude (trigger_analysis python script tid task_type) tid (some resp))

acts_at-uploaded :
    (python script tid : String) (task_type : ℤ) (resp : FetchDataResponse)
    → resp.success ≡ true
    → (resp.cos_key == "") ≡ false
    → acts_at python script tid task_type resp
      ≡ runs (sets_done tid resp.cos_key) ∷ trigger_analysis python script tid task_type
unfolding conclude
acts_at-uploaded python script tid task_type resp ok key = ground arith

-- One launch; and whether the row waits after the first act, after all, and after those that follow when
-- the analyzer has ended.
abbrev pub HandsOver : String → Row → Bool → List Act → Type 0
HandsOver tid r fails acts =
    (runs_launched acts ≡ 1)
    × (row_waits (row_after_all (take 1 acts) tid (some r)) ≡ true)
    × (row_waits (row_after_all acts tid (some r)) ≡ false)
    × (row_waits (row_after_all (acts ++ analysis_ended tid fails) tid (some r)) ≡ fails)

HandsOver-uploaded :
    (python script tid cos_key : String) (task_type : ℤ) (r : Row) (fails : Bool)
    → HandsOver tid r fails
        (runs (sets_done tid cos_key) ∷ trigger_analysis python script tid task_type)
unfolding trigger_analysis analysis_ended
HandsOver-uploaded python script tid cos_key task_type r true =
    rw ((eq_iff tid tid).1 refl) (refl, refl, refl, refl)
HandsOver-uploaded python script tid cos_key task_type r false =
    rw ((eq_iff tid tid).1 refl) (refl, refl, refl, refl)

-- When drop_server reports the upload of a task that is in the table, the watcher starts the analyzer once.
-- The worker would take up the task after the first of the watcher's statements, not after all of them, and
-- after the watcher's own run of the analyzer has ended exactly if that failed.
pub conclude-HandsOver :
    (python script tid : String) (task_type : ℤ) (resp : FetchDataResponse) (r : Row) (fails : Bool)
    → resp.success ≡ true
    → (resp.cos_key == "") ≡ false
    → HandsOver tid r fails (acts_at python script tid task_type resp)
conclude-HandsOver python script tid task_type resp r fails ok key =
    subst (HandsOver tid r fails) (sym (acts_at-uploaded python script tid task_type resp ok key))
      (HandsOver-uploaded python script tid resp.cos_key task_type r fails)
