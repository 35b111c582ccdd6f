-- ===== src/Common/Perf/Command.antt =====
-- Perf.cpp: the command that a run of `perf record` starts.

use mini_drop.Base.{
  ℕ, zero, suc, ◌+◌, ◌*◌, String, some, List, [], ◌∷◌, ◌≡◌, refl, inl, inr, arith, Option-cases,
}
use mini_drop.Base.Int.{ℤ}
use mini_drop.Common.Perf.{
  done_log, Os, child, Wait, running, exited, signaled, wait_error, Action, exec, PerfResult,
  perf_argv, default_hz, default_duration, default_callgraph, poll_loop, run_perf, record_perf,
}

-- The commands that were started.
abbrev pub commands : List Action → List (List String)
commands [] = []
commands (exec argv ∷ actions) = argv ∷ commands actions
commands (_ ∷ actions) = commands actions

poll_loop-commands :
    (fuel : ℕ) (os : Os) (output : String) (pid deadline timeout i : ℕ)
    (r : PerfResult × List Action)
    → poll_loop fuel os output pid deadline timeout i ≡ some r
    → commands r.1 ≡ []
unfolding poll_loop
poll_loop-commands zero os output pid deadline timeout i r e = cc
poll_loop-commands (suc fuel) os output pid deadline timeout i r e =
    go (os.poll i) refl (poll_loop-commands fuel os output pid deadline timeout (suc i))
  where
    go :
        (w : Wait)
        → os.poll i ≡ w
        → ((q : PerfResult × List Action)
            → poll_loop fuel os output pid deadline timeout (suc i) ≡ some q
            → commands q.1 ≡ [])
        → commands r.1 ≡ []
    go (exited code) seen later = unfold done_log in ground arith
    go (signaled signal) seen later = ground arith
    go (wait_error message) seen later = ground arith
    go running seen later =
        elim (Option-cases (poll_loop fuel os output pid deadline timeout (suc i))) [
          | inl out ↦ ground arith
          | inr (q, found) ↦ ground (arith, later q found)
        ]

run_perf-commands :
    (os : Os) (pid : ℤ) (hz duration timeout : ℕ) (callgraph output : String) (c : ℕ)
    (r : PerfResult × List Action)
    → os.fork ≡ child c
    → run_perf os pid hz duration timeout callgraph output ≡ some r
    → commands r.1 ≡ perf_argv pid hz duration callgraph output ∷ []
unfolding run_perf
run_perf-commands os pid hz duration timeout callgraph output c r forked e =
    let loop = poll_loop (suc (5 * timeout)) os output c (os.start + 1000 * timeout) timeout 0 in
    elim (Option-cases loop) [
      | inl out ↦ ground (arith, out)
      | inr (q, found) ↦
          let rest = poll_loop-commands (suc (5 * timeout)) os output c _ timeout 0 q found in
          ground (arith, found, rest)
    ]

-- If the child was started, one command was, with the defaults for what was left open.
pub record_perf-commands :
    (os : Os) (pid : ℤ) (hz duration timeout : ℕ) (callgraph output : String) (c : ℕ)
    (r : PerfResult × List Action)
    → os.fork ≡ child c
    → record_perf os pid hz duration timeout callgraph output ≡ some r
    → commands r.1
      ≡ perf_argv pid
          (default_hz hz)
          (default_duration duration)
          (default_callgraph callgraph)
          output
        ∷ []
unfolding record_perf
record_perf-commands os pid hz duration timeout callgraph output c r forked e =
    run_perf-commands os pid _ _ _ _ output c r forked e
