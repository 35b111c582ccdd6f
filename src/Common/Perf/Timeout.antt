-- ===== src/Common/Perf/Timeout.antt =====
-- Perf.cpp: the run ends within its timeout, and what the timeout is.

use mini_drop.Base.{
  ℕ, zero, suc, ◌+◌, ◌*◌, ◌^◌, ◌≤◌, ◌<◌, String, Option, none, some, List, ◌≡◌, ◌≢◌, ◌↔◌, refl,
  arith,
}
use mini_drop.Base.Int.{ℤ}
use mini_drop.Common.Perf.{
  Os, Fork, child, fork_error, Action, PerfResult, wait_limit, poll_loop, run_perf, record_perf,
}

-- `sleep_for` blocks for 200 ms at least, and the clock is steady.
pub record IsSteady (os : Os) : Type 0 where
  pub begins : os.start ≤ os.clock 0
  pub sleeps : (i : ℕ) → os.clock i + 200 ≤ os.clock (suc i)

clock-grows : (os : Os) → IsSteady os → (i : ℕ) → os.start + 200 * i ≤ os.clock i
clock-grows os steady zero = omega (arith, steady.begins)
clock-grows os steady (suc i) = omega (arith, steady.sleeps i, clock-grows os steady i)

-- From round `i` on, with fuel for the rounds that are left.
poll_loop-total :
    (fuel : ℕ) (os : Os) (output : String) (pid timeout i : ℕ)
    → IsSteady os
    → i + fuel ≡ suc (5 * timeout)
    → i ≤ 5 * timeout
    → poll_loop fuel os output pid (os.start + 1000 * timeout) timeout i ≢ none
unfolding poll_loop
poll_loop-total zero os output pid timeout i steady h k e = absurd (omega arith)
poll_loop-total (suc fuel) os output pid timeout i steady h k e =
    ground
      (arith, clock-grows os steady i, poll_loop-total fuel os output pid timeout (suc i) steady)

some_of_ne_none {ℓ} : {A : Type ℓ} (o : Option A) → o ≢ none → (a : A) × (o ≡ some a)
some_of_ne_none none h = absurd (h refl)
some_of_ne_none (some a) h = (a, refl)

run_perf-total :
    (os : Os) (pid : ℤ) (hz duration timeout : ℕ) (callgraph output : String)
    → IsSteady os
    → run_perf os pid hz duration timeout callgraph output ≢ none
unfolding run_perf
run_perf-total os pid hz duration timeout callgraph output steady e = go os.fork refl
  where
    go : (f : Fork) → os.fork ≡ f → ⊥
    go (fork_error message) forked = cc (forked)
    go (child c) forked = ground (
      arith,
      poll_loop-total (suc (5 * timeout)) os output c timeout 0 steady (omega arith) (omega arith),
    )

-- If the clock is steady and each pause lasts its 200 ms, `Record` returns a result, whatever the
-- child does: after at most five rounds for each second of the timeout, and one more.
pub record_perf-total :
    (os : Os) (pid : ℤ) (hz duration timeout : ℕ) (callgraph output : String)
    → IsSteady os
    → (r : PerfResult × List Action) × (record_perf os pid hz duration timeout callgraph output
        ≡ some r)
unfolding record_perf
record_perf-total os pid hz duration timeout callgraph output steady =
    some_of_ne_none _ (run_perf-total os pid _ _ _ _ output steady)

-- The timeout that is chosen when none is given is longer than the recording exactly if the sum
-- fits into 32 bits; from 2^32 - 10 seconds on it wraps round.
wait_limit-duration :
    (duration : ℕ)
    → duration < 2 ^ 32
    → ((duration < wait_limit duration 0) ↔ (duration + 10 < 2 ^ 32))
unfolding wait_limit
wait_limit-duration duration h = (λ k. omega arith, λ k. omega arith)
