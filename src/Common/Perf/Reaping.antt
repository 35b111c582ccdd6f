-- ===== src/Common/Perf/Reaping.antt =====
-- Perf.cpp: what becomes of the child.

use mini_drop.Base.{
  ℕ, zero, suc, ◌+◌, ◌*◌, String, Bool, false, eqb, if◌then◌else◌, some, List, [], ◌∷◌, ◌≡◌, refl,
  inl, inr, arith, Option-cases,
}
use mini_drop.Base.Int.{ℤ}
use mini_drop.Common.Perf.{
  set_group, writes, done_log, Os, child, Wait, running, exited, signaled, wait_error, Action,
  polled, kill_group, wait_for, PerfResult, exit_result, poll_loop, run_perf, record_perf,
}

-- What has become of the child: it runs, its group has been killed, it has been waited for after that, a poll
-- saw its end, `waitpid` failed, or the program did something else than that.
pub data Fate : Type 0 where
  alive killed reaped lost misused : Fate
  ended : Wait → Fate

-- What is done to the process `pid` goes by the child `c`, or it is a misuse.
abbrev pub of_child : ℕ → ℕ → Fate → Fate
of_child c pid fate = if eqb pid c then fate else misused

abbrev pub after_poll : Wait → Fate
after_poll running = alive
after_poll (exited code) = ended (exited code)
after_poll (signaled signal) = ended (signaled signal)
after_poll (wait_error message) = lost

-- An action on a child that runs: it is polled or its group is killed, but not waited for, which would block.
abbrev pub while_alive : ℕ → Action → Fate
while_alive c (polled pid w) = of_child c pid (after_poll w)
while_alive c (kill_group pid) = of_child c pid killed
while_alive c (wait_for pid) = misused
while_alive c (set_group pid) = of_child c pid alive
while_alive c _ = alive

-- On a child that has been killed: it is waited for, and neither polled nor killed again.
abbrev pub while_killed : ℕ → Action → Fate
while_killed c (wait_for pid) = of_child c pid reaped
while_killed c (writes effect) = killed
while_killed c _ = misused

-- When the child is gone, its process id may be another's: nothing but the log is left.
abbrev pub while_gone : Fate → Action → Fate
while_gone fate (writes effect) = fate
while_gone fate _ = misused

abbrev pub fate_after : ℕ → Fate → Action → Fate
fate_after c alive action = while_alive c action
fate_after c killed action = while_killed c action
fate_after c misused action = misused
fate_after c reaped action = while_gone reaped action
fate_after c lost action = while_gone lost action
fate_after c (ended w) action = while_gone (ended w) action

abbrev pub fate_of : ℕ → Fate → List Action → Fate
fate_of c fate [] = fate
fate_of c fate (action ∷ actions) = fate_of c (fate_after c fate action) actions

-- The ends that a run may come to, and what it reports then.
abbrev pub Settled : Fate → Bool → Type 0
Settled (ended (exited code)) success = success ≡ eqb code 0
Settled (ended (signaled signal)) success = success ≡ false
Settled reaped success = success ≡ false
Settled lost success = success ≡ false
Settled _ success = ⊥

abbrev pub IsReaped : ℕ → PerfResult × List Action → Type 0
IsReaped c r = Settled (fate_of c alive r.1) r.0.success

poll_loop-IsReaped :
    (fuel : ℕ) (os : Os) (output : String) (pid deadline timeout i : ℕ)
    (r : PerfResult × List Action)
    → poll_loop fuel os output pid deadline timeout i ≡ some r
    → IsReaped pid r
unfolding poll_loop
poll_loop-IsReaped zero os output pid deadline timeout i r e = cc
poll_loop-IsReaped (suc fuel) os output pid deadline timeout i r e =
    go (os.poll i) refl (poll_loop-IsReaped fuel os output pid deadline timeout (suc i))
  where
    go :
        (w : Wait)
        → os.poll i ≡ w
        → ((q : PerfResult × List Action)
            → poll_loop fuel os output pid deadline timeout (suc i) ≡ some q
            → IsReaped pid q)
        → IsReaped pid r
    go (exited code) seen later = unfold exit_result done_log in ground arith
    go (signaled signal) seen later = ground arith
    go (wait_error message) seen later = ground arith
    go running seen later =
        elim (Option-cases (poll_loop fuel os output pid deadline timeout (suc i))) [
          | inl out ↦ ground arith
          | inr (q, found) ↦ ground (arith, later q found)
        ]

run_perf-IsReaped :
    (os : Os) (pid : ℤ) (hz duration timeout : ℕ) (callgraph output : String) (c : ℕ)
    (r : PerfResult × List Action)
    → os.fork ≡ child c
    → run_perf os pid hz duration timeout callgraph output ≡ some r
    → IsReaped c r
unfolding run_perf
run_perf-IsReaped os pid hz duration timeout callgraph output c r forked e =
    let loop = poll_loop (suc (5 * timeout)) os output c (os.start + 1000 * timeout) timeout 0 in
    elim (Option-cases loop) [
      | inl out ↦ ground (arith, out)
      | inr (q, found) ↦
          let reaped = poll_loop-IsReaped (suc (5 * timeout)) os output c _ timeout 0 q found in
          ground (arith, found, reaped)
    ]

-- However `perf record` goes, if the child was started its run ends in one of three ways: a poll of the child saw
-- its end; or, while the polls found it running, its process group was killed, once, and the child was waited for
-- after that; or `waitpid` failed. Until then nothing but the child is polled or killed, and afterwards nothing is.
-- The run is reported a success exactly if a poll saw the exit code 0.
pub record_perf-IsReaped :
    (os : Os) (pid : ℤ) (hz duration timeout : ℕ) (callgraph output : String) (c : ℕ)
    (r : PerfResult × List Action)
    → os.fork ≡ child c
    → record_perf os pid hz duration timeout callgraph output ≡ some r
    → IsReaped c r
unfolding record_perf
record_perf-IsReaped os pid hz duration timeout callgraph output c r forked e =
    run_perf-IsReaped os pid _ _ _ _ output c r forked e
