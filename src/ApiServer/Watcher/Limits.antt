-- ===== src/ApiServer/Watcher/Limits.antt =====
-- task.go, startCollectionWatcher: the two deadlines in the 64 bits of a time.Duration, and
-- that the watcher ends.
use mini_drop.Base.{
  ℕ, ◌+◌, ◌*◌, ◌%◌, ◌^◌, ◌≤◌, ◌<◌, String, Bool, true, false, not, ◌&&◌, ◌||◌, ltb, List, [], ◌∷◌,
  ◌≡◌, sym, ap, ◌∙◌, subst, arith,
}
use mini_drop.Base.Int.{ℤ, pos}
use mini_drop.ApiServer.Tasks.{Act, runs, sets_status, failed_status}
use mini_drop.ApiServer.Watcher.{Tick, seconds, is_past, watch_loop, watch, trigger_analysis}

pub seconds-exact : (n : ℕ) → n < 9223372037 → seconds n ≡ pos (n * 1000000000)
unfolding seconds
seconds-exact n h = ground arith

is_past-seconds : (now n : ℕ) → 9223372037 ≤ n → n < 18446744074 → is_past now (seconds n) ≡ true
unfolding seconds
is_past-seconds now n h1 h2 = ground arith

-- A task with a duration from 9223371917 seconds on, and below twice that: the deadline is negative in
-- 64 bits, and the watcher marks the task as failed at its first tick, whatever drop_server has to say.
pub watch_fails_at_once :
    (python script tid : String) (task_type : ℤ) (duration : ℕ) (tick : Tick) (ticks : List Tick)
    → 9223372037 ≤ duration + 120
    → duration + 120 < 18446744074
    → watch python script tid task_type duration (tick ∷ ticks) ≡ (
      runs (sets_status tid failed_status "watcher timeout: no result within expected duration")
          ∷ [],
      true,
    )
unfolding watch
watch_fails_at_once python script tid task_type duration tick ticks h1 h2 =
    ground (arith, is_past-seconds tick.now (duration + 120))

abbrev pub some_past : ℕ → List Tick → Bool
some_past limit [] = false
some_past limit (tick ∷ ticks) = ltb limit tick.now || some_past limit ticks

watch_loop-ends :
    (analysis : List Act) (tid : String) (collect_limit : ℤ) (limit : ℕ) (marked : Bool)
    (ticks : List Tick)
    → some_past limit ticks ≡ true
    → (watch_loop analysis tid collect_limit (pos limit) marked ticks).1 ≡ true
unfolding watch_loop
watch_loop-ends analysis tid collect_limit limit marked [] h = ground arith
watch_loop-ends analysis tid collect_limit limit marked (tick ∷ ticks) h = ground (
  arith,
  watch_loop-ends analysis tid collect_limit limit
      (marked || not marked && is_past tick.now_collect collect_limit) ticks,
)

-- For a duration that fits, the watcher has ended once a tick comes more than 120 seconds after the
-- duration, whatever the calls of drop_server give.
pub watch-ends :
    (python script tid : String) (task_type : ℤ) (duration : ℕ) (ticks : List Tick)
    → duration + 120 < 9223372037
    → some_past ((duration + 120) * 1000000000) ticks ≡ true
    → (watch python script tid task_type duration ticks).1 ≡ true
unfolding watch
watch-ends python script tid task_type duration ticks h past =
    let short : (duration + 120) % 2 ^ 64 ≡ duration + 120 = omega arith in
    subst
      (λ limit.
        (watch_loop (trigger_analysis python script tid task_type) tid (seconds duration) limit
          false ticks).1
        ≡ true)
      (sym (ap seconds short ∙ seconds-exact (duration + 120) h))
      (watch_loop-ends _ tid (seconds duration) ((duration + 120) * 1000000000) false ticks past)
