-- ===== src/Agent/HealthCheckChannel/Shutdown.antt =====
-- HealthCheckChannel.cpp and main.cpp: the threads at the grain of the condition variable, while the
-- agent shuts down. `wait(lock, pred)` is a loop: the predicate is tested under the mutex, then the
-- thread gives up the mutex and goes to sleep in one step, until a notification. (A sleeping thread may
-- also wake for no reason; nothing promises it, and it is left out.) `Stop` sets `running_` and
-- notifies without the mutex.
use mini_drop.Base.{Bool, true, false, [], ◌≡◌, ◌≢◌, refl}
use mini_drop.Proto.Rpc.{ok, HealthCheckResponse}
use mini_drop.Agent.HealthCheckChannel.{
  Channel, receive, Pop, waits, stopped, popped, is_ready, pop_task,
}

-- Where the worker stands: about to test the predicate, after a failed test with the mutex still held,
-- asleep, busy with a task, or out of `Run`.
pub data Worker : Type 0 where
  testing holding asleep busy ended : Worker

-- Where the main thread stands in `Stop`: before it, between the store and `notify_all`, and past it.
pub data Main : Type 0 where
  before stored notified : Main

pub record Threads : Type 0 where
  pub channel : Channel
  pub worker : Worker
  pub main : Main
  -- The heartbeat thread is in its loop.
  pub beating : Bool

abbrev pub woken : Worker → Worker
woken asleep = testing
woken w = w

-- Where the worker goes on after `PopTask` has passed its test.
abbrev pub after_pop : Pop → Worker
after_pop waits = holding
after_pop stopped = ended
after_pop (popped task) = busy

pub data Step (s t : Threads) : Type 0 where
  -- The worker tests the predicate, and leaves `PopTask` or is about to sleep.
  test :
      s.worker ≡ testing
      → t ≡ record s { channel = (pop_task s.channel).1; worker = after_pop (pop_task s.channel).0 }
      → Step s t
  sleep : s.worker ≡ holding → t ≡ record s { worker = asleep } → Step s t
  finish_task : s.worker ≡ busy → t ≡ record s { worker = testing } → Step s t
  -- The heartbeat thread takes the mutex, which `holding` would keep from it, and notifies.
  answer :
      (resp : HealthCheckResponse)
      → s.beating ≡ true
      → s.worker ≢ holding
      → t ≡ record s { channel = (receive s.channel ok resp).0; worker = woken s.worker }
      → Step s t
  leave : s.beating ≡ true → s.channel.running ≡ false → t ≡ record s { beating = false } → Step s t
  -- `running_.exchange(false)`, then `notify_all`.
  store :
      s.main ≡ before
      → t ≡ record s { channel = record (s.channel) { running = false }; main = stored }
      → Step s t
  notify : s.main ≡ stored → t ≡ record s { worker = woken s.worker; main = notified } → Step s t

pub data Reach (s : Threads) : Threads → Type 0 where
  here : Reach s s
  next : {t u : Threads} → Reach s t → Step t u → Reach s u

-- Both threads run, and nothing is queued.
abbrev pub idle : Channel → Threads
idle c = record {
  channel = record c { running = true; task_queue = [] };
  worker = testing;
  main = before;
  beating = true;
}

-- The worker sleeps, the heartbeat thread has ended, and nobody is left to notify.
abbrev pub hung : Channel → Threads
hung c = record {
  channel = record c { running = false; task_queue = [] };
  worker = asleep;
  main = notified;
  beating = false;
}

hung-no_step : (c : Channel) (t : Threads) → ¬ Step (hung c) t
hung-no_step c t (test w e) = cc
hung-no_step c t (sleep w e) = cc
hung-no_step c t (finish_task w e) = cc
hung-no_step c t (answer resp b w e) = cc
hung-no_step c t (leave b r e) = cc
hung-no_step c t (store m e) = cc
hung-no_step c t (notify m e) = cc

pop-waits : (c : Channel) → pop_task (idle c).channel ≡ (waits, (idle c).channel)
unfolding pop_task is_ready
pop-waits c = refl

-- The states on the way: the failed test, the store, the notification that finds nobody asleep, and
-- the worker's going to sleep.
abbrev tested : Channel → Threads
tested c = record (idle c) { worker = holding }

abbrev stopping : Channel → Threads
stopping c = record (hung c) { worker = holding; main = stored; beating = true }

abbrev missed : Channel → Threads
missed c = record (hung c) { worker = holding; beating = true }

abbrev sleeping : Channel → Threads
sleeping c = record (hung c) { beating = true }

tested_next : (c : Channel) → Step (idle c) (tested c)
tested_next c = test refl (rw (pop-waits c))

-- A wake-up can be lost: from two idle threads the agent can shut down into a state in which the worker
-- sleeps, `running_` is false, and no thread can take a step any more. The main thread then waits in
-- `HotmethodChannel::Stop` for a worker that never ends.
pub shutdown_can_hang :
    (c : Channel) → Reach (idle c) (hung c) × ((t : Threads) → ¬ Step (hung c) t)
shutdown_can_hang c =
    let r₁ : Reach (idle c) (tested c) = next here (tested_next c) in
    let r₂ : Reach (idle c) (stopping c) = next r₁ (store refl refl) in
    let r₃ : Reach (idle c) (missed c) = next r₂ (notify refl refl) in
    let r₄ : Reach (idle c) (sleeping c) = next r₃ (sleep refl refl) in
    (next r₄ (leave refl refl refl), hung-no_step c)
