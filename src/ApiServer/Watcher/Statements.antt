-- ===== src/ApiServer/Watcher/Statements.antt =====
-- task.go: the statements of a watcher, which are updates of its own task.
use mathlib.Core.List.{◌++◌}
use mini_drop.Base.{
  ℕ, ◌+◌, ◌%◌, ◌^◌, String, Bool, true, false, not, ◌&&◌, ◌||◌, ◌==◌, string_eq, Option, none, some,
  List, [], ◌∷◌, Bool-cases, inl, inr,
}
use mini_drop.Base.Int.{ℤ}
use mini_drop.Proto.Rpc.{FetchDataResponse}
use mini_drop.ApiServer.Tasks.{
  Statement, Act, runs, sets_status, moves_status, sets_done, sets_analysis, dispatches, watches,
  launches,
}
use mini_drop.ApiServer.Table.{AllStatements}
use mini_drop.ApiServer.Watcher.{
  Tick, is_past, mark_acts, proceed, conclude, watch_loop, watch, seconds, trigger_analysis,
}

pub AllStatements-append :
    (P : Statement → Type 0) (acts more : List Act)
    → AllStatements P acts
    → AllStatements P more
    → AllStatements P (acts ++ more)
AllStatements-append P [] more h1 h2 = h2
AllStatements-append P (runs st ∷ acts) more h1 h2 =
    (h1.0, AllStatements-append P acts more h1.1 h2)
AllStatements-append P (dispatches q ∷ acts) more h1 h2 = AllStatements-append P acts more h1 h2
AllStatements-append P (watches k ty d ∷ acts) more h1 h2 = AllStatements-append P acts more h1 h2
AllStatements-append P (launches args ∷ acts) more h1 h2 = AllStatements-append P acts more h1 h2

-- What holds of every update of the task.
pub record HoldsOfUpdates (P : Statement → Type 0) (tid : String) : Type 0 where
  pub on_status : (status : ℕ) (info : String) → P (sets_status tid status info)
  pub on_move : (from to : ℕ) (info : String) → P (moves_status tid from to info)
  pub on_done : (cos_key : String) → P (sets_done tid cos_key)
  pub on_analysis : (analysis : ℕ) → P (sets_analysis tid analysis)

module _ (P : Statement → Type 0) (tid : String) (holds : HoldsOfUpdates P tid) where
  open holds use {on_status, on_move, on_done, on_analysis}

  Concluded : Option (List Act) → Type 0
  Concluded none = Unit
  Concluded (some acts) = AllStatements P acts

  conclude-AllStatements :
      (analysis : List Act) (o : Option FetchDataResponse)
      → AllStatements P analysis
      → Concluded (conclude analysis tid o)
  unfolding conclude Concluded
  conclude-AllStatements analysis none h = tt
  conclude-AllStatements analysis (some resp) h =
      elim (Bool-cases (resp.success && not (resp.cos_key == ""))) [
        | inl done ↦ rw done (on_done resp.cos_key, h)
        | inr open_yet ↦
            elim (Bool-cases (
              not (resp.error_message == "")
              && not (resp.error_message == "task not done yet or not found"))) [
                | inl failed ↦ rw (open_yet, failed) (on_status _ _, tt)
                | inr waits ↦ rw (open_yet, waits) tt
              ]
      ]

  mark_acts-AllStatements : (b : Bool) → AllStatements P (mark_acts tid b)
  mark_acts-AllStatements true = (on_move _ _ _, tt)
  mark_acts-AllStatements false = tt

  proceed-AllStatements :
      (mark : List Act) (o : Option (List Act)) (later : List Act × Bool)
      → AllStatements P mark
      → Concluded o
      → AllStatements P later.0
      → AllStatements P (proceed mark o later).0
  unfolding Concluded
  proceed-AllStatements mark none later h1 h2 h3 = AllStatements-append P mark later.0 h1 h3
  proceed-AllStatements mark (some acts) later h1 h2 h3 = AllStatements-append P mark acts h1 h2

  watch_loop-AllStatements :
      (analysis : List Act) (collect_limit limit : ℤ) (marked : Bool) (ticks : List Tick)
      → AllStatements P analysis
      → AllStatements P (watch_loop analysis tid collect_limit limit marked ticks).0
  unfolding watch_loop
  watch_loop-AllStatements analysis collect_limit limit marked [] h = tt
  watch_loop-AllStatements analysis collect_limit limit marked (tick ∷ ticks) h =
      let marks = not marked && is_past tick.now_collect collect_limit in
      let later = watch_loop analysis tid collect_limit limit (marked || marks) ticks in
      let goes_on =
        proceed-AllStatements (mark_acts tid marks) (conclude analysis tid tick.fetched) later
          (mark_acts-AllStatements marks) (conclude-AllStatements analysis tick.fetched h)
          (watch_loop-AllStatements analysis collect_limit limit (marked || marks) ticks h) in
      elim (Bool-cases (is_past tick.now limit)) [
        | inl past ↦ rw past (on_status _ _, tt)
        | inr early ↦ rw early goes_on
      ]

  pub watch-AllStatements :
      (python script : String) (task_type : ℤ) (duration : ℕ) (ticks : List Tick)
      → AllStatements P (watch python script tid task_type duration ticks).0
  unfolding watch trigger_analysis
  watch-AllStatements python script task_type duration ticks =
      watch_loop-AllStatements (trigger_analysis python script tid task_type) (seconds duration)
        (seconds ((duration + 120) % 2 ^ 64)) false ticks (on_analysis _, tt)
