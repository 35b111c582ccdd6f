-- ===== src/Tests/Common.antt =====
-- The theorems about drop/common at concrete inputs.
use Prim.Native.String.{◌++◌}
use mini_drop.Common.Effect.{log}
use mini_drop.Base.{true, some, List, [], ◌∷◌, ◌≡◌, refl}
use mini_drop.Base.Int.{pos}
use mini_drop.Common.Log.{info}
use mini_drop.Common.Perf
use mini_drop.Common.Perf.{
  exec, writes, start_text, set_group, polled, sleep_ms, running, perf_argv, PerfResult, Action,
  record_perf, run_perf, wait_limit,
}
use mini_drop.Common.Perf.Timeout.{record_perf-total}
use mini_drop.Common.Perf.Reaping.{IsReaped, record_perf-IsReaped}
use mini_drop.Tests.Data.{os, os-IsSteady}

record_perf-total_example :
    (r : PerfResult × List Action) × (record_perf os (pos 1) 0 1 2 "" "out" ≡ some r)
record_perf-total_example = record_perf-total os (pos 1) 0 1 2 "" "out" os-IsSteady

-- Three polls find the child running, and the fourth its end.
abbrev ran : PerfResult × List Action
ran = (
  record { success = true; error_msg = "" },
  writes (log info (start_text (pos 1) 99 1 "dwarf" "out"))
      ∷ exec (perf_argv (pos 1) 99 1 "dwarf" "out")
      ∷ set_group 42
      ∷ polled 42 running
      ∷ sleep_ms 200
      ∷ polled 42 running
      ∷ sleep_ms 200
      ∷ polled 42 running
      ∷ sleep_ms 200
      ∷ polled 42 (Perf.exited 0)
      ∷ writes (log info ("perf::Record done: " ++ "out"))
      ∷ [],
)

record_perf-IsReaped_example : IsReaped 42 ran
unfolding record_perf
record_perf-IsReaped_example = record_perf-IsReaped os (pos 1) 0 1 2 "" "out" 42 ran refl refl
