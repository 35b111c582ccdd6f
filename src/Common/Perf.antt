-- ===== src/Common/Perf.antt =====
-- drop/common/Perf.h and Perf.cpp: one run of `perf record`. The system's answers are the argument
-- `os`: the outcome of `fork`, what the i-th `waitpid(child, …, WNOHANG)` reports, and the clock that is
-- read after it, in milliseconds. Widths: `hz` and `timeout` are uint32, `duration` is uint64.
pub mod Timeout
pub mod Reaping
pub mod Command
use Prim.Native.String.{◌++◌}
use mathlib.Core.Option
use mini_drop.Base.{
  ℕ, zero, suc, ◌+◌, ◌*◌, ◌%◌, ◌^◌, String, Bool, true, false, eqb, leb, ◌==◌, string_eq,
  if◌then◌else◌, Option, none, some, List, [], ◌∷◌,
}
use mini_drop.Base.Int.{ℤ}
use mini_drop.Common.Log.{info, warn}
use mini_drop.Common.Effect.{Effect, log}
use mini_drop.Base.Decimal.{to_string, to_string_ℤ}

pub record PerfResult : Type 0 where
  pub success : Bool
  pub error_msg : String

-- What `waitpid` and the `wstatus` macros say of the child.
pub data Wait : Type 0 where
  running : Wait
  exited : ℕ → Wait
  signaled : ℕ → Wait
  wait_error : String → Wait

-- The process id of the child, or the text of `errno`.
pub data Fork : Type 0 where
  child : ℕ → Fork
  fork_error : String → Fork

pub record Os : Type 0 where
  pub fork : Fork
  pub poll : ℕ → Wait
  pub start : ℕ
  pub clock : ℕ → ℕ

pub data Action : Type 0 where
  -- `execvp` in the child, after it has made its own process group.
  exec : List String → Action
  set_group : ℕ → Action
  polled : ℕ → Wait → Action
  kill_group : ℕ → Action
  wait_for : ℕ → Action
  sleep_ms : ℕ → Action
  writes : Effect → Action

abbrev pub u32 : ℕ → ℕ
u32 n = n % 2 ^ 32

abbrev pub default_hz : ℕ → ℕ
default_hz hz = if eqb hz 0 then 99 else hz

abbrev pub default_duration : ℕ → ℕ
default_duration duration = if eqb duration 0 then 30 else duration

-- `static_cast<uint32_t>(duration) + 10`, in uint32.
unfoldable pub wait_limit : ℕ → ℕ → ℕ
wait_limit duration timeout = if eqb timeout 0 then u32 (u32 duration + 10) else timeout

abbrev pub default_callgraph : String → String
default_callgraph callgraph = if callgraph == "" then "dwarf" else callgraph

unfoldable pub perf_argv : ℤ → ℕ → ℕ → String → String → List String
perf_argv pid hz duration callgraph output =
    "perf"
    ∷ "record"
    ∷ "-F"
    ∷ to_string hz
    ∷ "-p"
    ∷ to_string_ℤ pid
    ∷ "--call-graph"
    ∷ callgraph
    ∷ "-o"
    ∷ output
    ∷ "--"
    ∷ "sleep"
    ∷ to_string duration
    ∷ []

-- The branches on a child that has ended by itself.
unfoldable pub exit_result : ℕ → PerfResult
exit_result code =
    if eqb code 0
    then record { success = true; error_msg = "" }
    else if eqb code 127
    then record { success = false; error_msg = "perf not found; check PATH or install linux-tools" }
    else record { success = false; error_msg = "perf exited with code " ++ to_string code }

unfoldable pub signal_result : ℕ → PerfResult
signal_result signal = record {
  success = false;
  error_msg = "perf terminated by signal " ++ to_string signal;
}

unfoldable pub timeout_result : ℕ → PerfResult
timeout_result timeout = record {
  success = false;
  error_msg = "perf record timed out after " ++ (to_string timeout ++ "s");
}

unfoldable pub timeout_text : ℕ → ℕ → String
timeout_text timeout pid =
    "perf::Record timeout after " ++ (to_string timeout ++ ("s, killing pgid=" ++ to_string pid))

-- What is logged when the child has ended by itself.
unfoldable pub done_log : ℕ → String → List Action
done_log code output =
    if eqb code 0 then writes (log info ("perf::Record done: " ++ output)) ∷ [] else []

unfoldable pub start_text : ℤ → ℕ → ℕ → String → String → String
start_text pid hz duration callgraph output =
    "perf::Record start: pid="
    ++ (to_string_ℤ pid
        ++ (" hz="
            ++ (to_string hz
                ++ (" dur="
                    ++ (to_string duration ++ (" cg=" ++ (callgraph ++ (" out=" ++ output))))))))

-- The `while (true)` loop from its i-th round on; `none` if the fuel runs out.
unfoldable pub poll_loop : ℕ → Os → String → ℕ → ℕ → ℕ → ℕ → Option (PerfResult × List Action)
unfolding exit_result signal_result timeout_result done_log timeout_text
poll_loop zero os output pid deadline timeout i = none
poll_loop (suc fuel) os output pid deadline timeout i =
    let rest = poll_loop fuel os output pid deadline timeout (suc i) in
    let seen = polled pid (os.poll i) in
    elim (os.poll i) [
      | exited code ↦ some (exit_result code, seen ∷ done_log code output)
      | signaled signal ↦ some (signal_result signal, seen ∷ [])
      | wait_error message ↦
          some (record { success = false; error_msg = "waitpid error: " ++ message }, seen ∷ [])
      | running ↦
          if leb deadline (os.clock i)
          then some (
            timeout_result timeout,
            seen
                ∷ writes (log warn (timeout_text timeout pid))
                ∷ kill_group pid
                ∷ wait_for pid
                ∷ [],
          )
          else Option.map (λ r. (r.0, seen ∷ sleep_ms 200 ∷ r.1)) rest
    ]

-- `Record` with the parameters after their defaults. The loop gets as much fuel as rounds of 200 ms
-- fit into the timeout, and one more.
unfoldable pub run_perf : Os → ℤ → ℕ → ℕ → ℕ → String → String → Option (PerfResult × List Action)
unfolding poll_loop perf_argv start_text
run_perf os pid hz duration timeout callgraph output = elim os.fork [
  | fork_error message ↦ some (
    record { success = false; error_msg = "fork failed: " ++ message },
    writes (log info (start_text pid hz duration callgraph output)) ∷ [],
  )
  | child c ↦
      Option.map
        (λ r. (
          r.0,
          writes (log info (start_text pid hz duration callgraph output))
              ∷ exec (perf_argv pid hz duration callgraph output)
              ∷ set_group c
              ∷ r.1,
        ))
        (poll_loop (suc (5 * timeout)) os output c (os.start + 1000 * timeout) timeout 0)
]

unfoldable pub record_perf :
    Os → ℤ → ℕ → ℕ → ℕ → String → String → Option (PerfResult × List Action)
unfolding run_perf wait_limit
record_perf os pid hz duration_sec timeout_sec callgraph output_path =
    let duration = default_duration duration_sec in
    run_perf os pid (default_hz hz) duration (wait_limit duration timeout_sec)
      (default_callgraph callgraph) output_path
