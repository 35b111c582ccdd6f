-- ===== src/Agent/Worker/Shutdown.antt =====
-- The worker of HotmethodChannel.cpp on the queue of a HealthCheckChannel that has been stopped.
use Prim.Native.String.{◌++◌}
use mathlib.Core.List.{◌++◌ as append, append_assoc}
use mini_drop.Base.{ℕ, zero, suc, Bool, true, false, List, [], ◌∷◌, take, ◌≡◌, refl, ap, ◌∙◌, sym}
use mini_drop.Proto.Hotmethod.{TaskDesc}
use mini_drop.Common.Log.{info}
use mini_drop.Common.Effect.{log}
use mini_drop.Agent.HealthCheckChannel.{
  Channel, stop, Pop, waits, stopped, popped, take_front, is_ready, pop_task,
}
use mini_drop.Agent.HotmethodChannel.{Act, logs}
use mini_drop.Agent.Worker.{exit_acts, Round, unset, refused, got, run_rounds, run_worker}

abbrev pub begin_round : Pop → List Round → List Round
begin_round waits rest = []
begin_round stopped rest = refused ∷ rest
begin_round (popped task) rest = got task ∷ rest

-- The rounds of the worker alone on a channel, for the values that it reads of its own `running_`.
unfoldable pub rounds : List Bool → Channel → List Round
rounds [] c = []
rounds (false ∷ flags) c = unset ∷ []
rounds (true ∷ flags) c = let popping = pop_task c in begin_round popping.0 (rounds flags popping.1)

-- What it does for some tasks.
abbrev pub work : (TaskDesc → List Act) → List TaskDesc → List Act
work exec [] = []
work exec (task ∷ tasks) =
    logs (log info ("HotmethodChannel: got task=" ++ task.task_id) ∷ [])
    ∷ append (exec task) (work exec tasks)

-- The worker finds its `running_` set `n` times, and then unset.
abbrev pub set_for : ℕ → List Bool
set_for zero = false ∷ []
set_for (suc n) = true ∷ set_for n

rounds-stopped :
    (exec : TaskDesc → List Act) (n : ℕ) (c : Channel) (queue : List TaskDesc)
    → c.running ≡ false
    → run_rounds exec (rounds (set_for n) (record c { task_queue = queue }))
      ≡ append (work exec (take n queue)) exit_acts
unfolding run_rounds rounds pop_task is_ready take_front
rounds-stopped exec zero c queue h = refl
rounds-stopped exec (suc n) c [] h = rw h refl
rounds-stopped exec (suc n) c (task ∷ tasks) h =
    ap
      (λ acts.
        logs (log info ("HotmethodChannel: got task=" ++ task.task_id) ∷ [])
        ∷ append (exec task) acts)
      (rounds-stopped exec n c tasks h)
    ∙ ap (λ acts. logs (log info ("HotmethodChannel: got task=" ++ task.task_id) ∷ []) ∷ acts)
        (sym (append_assoc (exec task) (work exec (take n tasks)) exit_acts))

-- On a channel that has been stopped the worker always ends. If it finds its own
-- `running_` set `n` times before it finds it unset, it executes the first `n` tasks of the queue in
-- their order, or all of them if there are fewer, and none of those behind.
pub run_worker-stop :
    (exec : TaskDesc → List Act) (n : ℕ) (c : Channel)
    → run_worker exec (rounds (set_for n) (stop c).0)
      ≡ logs (log info "HotmethodChannel::Run: waiting for tasks" ∷ [])
        ∷ append (work exec (take n c.task_queue)) exit_acts
unfolding run_worker stop
run_worker-stop exec n c =
    ap (λ acts. logs (log info "HotmethodChannel::Run: waiting for tasks" ∷ []) ∷ acts)
      (rounds-stopped exec n (stop c).0 c.task_queue refl)
