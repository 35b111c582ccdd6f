-- ===== src/ApiServer/Watcher.antt =====
-- apiserver/server/task.go: startCollectionWatcher, the goroutine that waits for a task's result, and
-- triggerAnalysis. Times are nanoseconds since the watcher started.
pub mod Limits
pub mod Ending
pub mod Statements
use Prim.Native.String.{◌++◌}
use mathlib.Core.List.{◌++◌ as append}
use mini_drop.Base.{
  ℕ, ◌+◌, ◌-◌, ◌*◌, ◌%◌, ◌^◌, String, Bool, true, false, not, ◌&&◌, ◌||◌, ltb, ◌==◌, string_eq,
  if◌then◌else◌, Option, none, some, List, [], ◌∷◌,
}
use mini_drop.Base.Int.{ℤ, pos, negsuc}
use mini_drop.Base.Decimal.{to_string_ℤ}
use mini_drop.Proto.Rpc.{FetchDataResponse}
use mini_drop.ApiServer.Tasks.{
  Act, runs, launches, sets_status, moves_status, sets_done, sets_analysis, running_status,
  uploading_status, failed_status, analysis_running, analysis_failed,
}

-- `time.Duration(n) * time.Second`, in 64 bits.
unfoldable pub seconds : ℕ → ℤ
seconds n =
    let product = n * 1000000000 % 2 ^ 64 in
    if ltb product (2 ^ 63) then pos product else negsuc (2 ^ 64 - 1 - product)

-- `time.Now().After(start.Add(limit))`, at a time after the start.
abbrev pub is_past : ℕ → ℤ → Bool
is_past now (pos limit) = ltb limit now
is_past now (negsuc limit) = true

-- One tick: the readings of the clock for the two tests, and what `FetchData` returns, `none` for an
-- error.
pub record Tick : Type 0 where
  pub now : ℕ
  pub now_collect : ℕ
  pub fetched : Option FetchDataResponse

abbrev pub still_running : String
still_running = "task not done yet or not found"

-- `triggerAnalysis`, with the two variables of the environment after their defaults.
unfoldable pub trigger_analysis : String → String → String → ℤ → List Act
trigger_analysis python script tid task_type =
    runs (sets_analysis tid analysis_running)
    ∷ launches (python ∷ script ∷ "--task-id" ∷ tid ∷ "--task-type" ∷ to_string_ℤ task_type ∷ [])
    ∷ []

-- What follows when the analyzer has ended, by whether it failed.
unfoldable pub analysis_ended : String → Bool → List Act
analysis_ended tid analyzer_failed =
    if analyzer_failed then runs (sets_analysis tid analysis_failed) ∷ [] else []

-- What a tick makes of a response: the watcher ends with these acts, or goes on.
unfoldable pub conclude : List Act → String → Option FetchDataResponse → Option (List Act)
conclude analysis tid none = none
conclude analysis tid (some resp) =
    if resp.success && not (resp.cos_key == "")
    then some (runs (sets_done tid resp.cos_key) ∷ analysis)
    else if not (resp.error_message == "") && not (resp.error_message == still_running)
    then some (runs (sets_status tid failed_status ("agent failure: " ++ resp.error_message)) ∷ [])
    else none

abbrev pub timeout_acts : String → List Act
timeout_acts tid =
    runs (sets_status tid failed_status "watcher timeout: no result within expected duration") ∷ []

-- What is done once the collection should be over.
abbrev pub mark_acts : String → Bool → List Act
mark_acts tid false = []
mark_acts tid true =
    runs
      (moves_status tid running_status uploading_status "collection finished, uploading to storage")
    ∷ []

-- How a tick that has not timed out goes on, given what the later ticks do.
abbrev pub proceed : List Act → Option (List Act) → List Act × Bool → List Act × Bool
proceed mark none later = (append mark later.0, later.1)
proceed mark (some acts) later = (append mark acts, true)

-- The loop of the watcher, and whether it has ended. `marked` is `uploadingMarked`.
unfoldable pub watch_loop : List Act → String → ℤ → ℤ → Bool → List Tick → List Act × Bool
unfolding conclude
watch_loop analysis tid collect_limit limit marked [] = ([], false)
watch_loop analysis tid collect_limit limit marked (tick ∷ ticks) =
    let marks = not marked && is_past tick.now_collect collect_limit in
    let later = watch_loop analysis tid collect_limit limit (marked || marks) ticks in
    if is_past tick.now limit
    then (timeout_acts tid, true)
    else proceed (mark_acts tid marks) (conclude analysis tid tick.fetched) later

-- `startCollectionWatcher` with a client.
unfoldable pub watch : String → String → String → ℤ → ℕ → List Tick → List Act × Bool
unfolding watch_loop trigger_analysis seconds
watch python script tid task_type duration ticks =
    watch_loop (trigger_analysis python script tid task_type) tid (seconds duration)
      (seconds ((duration + 120) % 2 ^ 64)) false ticks
