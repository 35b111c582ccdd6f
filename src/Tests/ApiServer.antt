-- ===== src/Tests/ApiServer.antt =====
-- The theorems about the apiserver at concrete inputs.
use mini_drop.Base.{
  String, string_eq, true, false, Option, none, some, List, [], ◌∷◌, ◌≡◌, refl, arith,
}
use mini_drop.Base.Int.{pos}
use mini_drop.ApiServer.Tasks.{Row, runs, sets_status, failed_status, running_status, new_row}
use mini_drop.ApiServer.Table.{execute_all}
use mini_drop.ApiServer.Watcher.{Tick, seconds, watch}
use mini_drop.ApiServer.Watcher.Limits.{watch-ends, watch_fails_at_once}
use mini_drop.ApiServer.Watcher.Ending.{launched, analyzer_argv, HasOutcome, watch-HasOutcome}
use mini_drop.Tests.Data.{rows, asked}

abbrev running_row : Row
running_row = record (new_row "t1" "u1" "ann" "{}" asked) { status = running_status }

abbrev one_row : String → Option Row
one_row tid = some running_row

-- The agent is recording; later the call fails, and then the data are uploaded.
abbrev uploading_ticks : List Tick
uploading_ticks =
    record {
      now = 5000000000;
      now_collect = 5000000001;
      fetched = some (record {
        success = false;
        cos_key = "";
        error_message = "task not done yet or not found";
      });
    }
    ∷ record { now = 10000000000; now_collect = 10000000001; fetched = none }
    ∷ record {
      now = 15000000000;
      now_collect = 15000000001;
      fetched = some (record { success = true; cos_key = "t1/perf.data"; error_message = "" });
    }
    ∷ []

watch-HasOutcome_example :
    let done = watch "python3" "a.py" "t1" (pos 0) 10 uploading_ticks in
    (r' : Row) × (rows.row (execute_all rows done.0 one_row) "t1" ≡ some r')
    × HasOutcome (analyzer_argv "python3" "a.py" "t1" (pos 0)) done.1 r' (launched done.0)
watch-HasOutcome_example =
    watch-HasOutcome rows one_row "python3" "a.py" "t1" (pos 0) 10 uploading_ticks running_row refl
      refl

abbrev silent_ticks : List Tick
silent_ticks =
    record { now = 5000000000; now_collect = 5000000001; fetched = none }
    ∷ record { now = 131000000000; now_collect = 131000000001; fetched = none }
    ∷ []

watch-ends_example : (watch "python3" "a.py" "t1" (pos 0) 10 silent_ticks).1 ≡ true
watch-ends_example = watch-ends "python3" "a.py" "t1" (pos 0) 10 silent_ticks (omega arith) refl

watch_fails_at_once_example : watch "python3" "a.py" "t1" (pos 0) 9300000000 uploading_ticks ≡ (
  runs (sets_status "t1" failed_status "watcher timeout: no result within expected duration") ∷ [],
  true,
)
watch_fails_at_once_example =
    watch_fails_at_once "python3" "a.py" "t1" (pos 0) 9300000000 _ _ (omega arith) (omega arith)

-- 18446744074 seconds are 290448384 nanoseconds more than 64 bits hold.
seconds_wrap : seconds 18446744074 ≡ pos 290448384
unfolding seconds
seconds_wrap = refl
