-- ===== src/System/Site/Rounds.antt =====
-- HealthCheckChannel.cpp and ControlService.cpp together: heartbeats and calls of PopTask in turn bring every
-- waiting task to the worker.
use Prim.Native.Nat.{min}
use mathlib.Core.List.{◌++◌, append-nil}
use mini_drop.Base.{
  ℕ, suc, ◌+◌, ◌≤◌, Bool, true, false, String, Option, string_eq, List, [], ◌∷◌, ◌≡◌, refl, sym, ap,
  ◌∙◌, subst, All, length, length-append, length-zero, arith,
}
use mini_drop.Server.DropServer.{Call}
use mini_drop.Agent.HealthCheckChannel.{start, stop, receive}
use mini_drop.System.Site.{
  Site, Event, serves, beats_answered, beats_unanswered, beats_unsent, pops, starts, stops, happens,
  after,
}
use mini_drop.System.Site.Tasks.{
  created, all_created, executed, waiting, all_executed, IsAnswered, happens-ip_addr,
  tasks_conserved,
}
use mini_drop.System.Site.Counts.{popped-length, length-executed, beaten-queue}

-- How often the worker asks for a task with an answered heartbeat since it asked the last time; `beaten` says
-- whether there was one before these events.
abbrev pub turns : Bool → List Event → ℕ
turns beaten [] = 0
turns beaten (beats_answered now ∷ events) = turns true events
turns true (pops ∷ events) = suc (turns false events)
turns false (pops ∷ events) = turns false events
turns beaten (serves c ∷ events) = turns beaten events
turns beaten (beats_unanswered now message ∷ events) = turns beaten events
turns beaten (beats_unsent message ∷ events) = turns beaten events
turns beaten (starts ∷ events) = turns beaten events
turns beaten (stops ∷ events) = turns beaten events

module _ (env : String → Option String) where
  -- After an answered heartbeat the worker finds a task if one waits.
  HasTask : Bool → Site → Type 0
  HasTask beaten s = beaten ≡ true → min 1 (length (waiting s)) ≤ length s.channel.task_queue

  -- An event that is neither an answered heartbeat nor a call of PopTask.
  IsIdle : Event → Type 0
  IsIdle e =
      (s : Site)
      → (executed s e ≡ []) × ((happens env s e).channel.task_queue ≡ s.channel.task_queue)

  AtLeast : Bool → List Event → String → Type 0
  AtLeast beaten events ip =
      (s : Site)
      → s.channel.ip_addr ≡ ip
      → HasTask beaten s
      → min (turns beaten events) (length (waiting s)) ≤ length (all_executed env s events)

  executes :
      (s : Site) (e : Event) (ip : String)
      → s.channel.ip_addr ≡ ip
      → IsAnswered ip e
      → created ip e ≡ []
      → length (executed s e) + length (waiting (happens env s e)) ≡ length (waiting s)
  executes s e ip same h none_new =
      length-executed env s e (subst (λ j. IsAnswered j e) (sym same) h)
        (subst (λ j. created j e ≡ []) (sym same) none_new)

  idle_step :
      (beaten : Bool) (e : Event) (events : List Event) (ip : String)
      → IsIdle e
      → IsAnswered ip e
      → created ip e ≡ []
      → turns beaten (e ∷ events) ≡ turns beaten events
      → AtLeast beaten events ip
      → AtLeast beaten (e ∷ events) ip
  unfolding IsIdle AtLeast HasTask
  idle_step beaten e events ip idle h none_new same_turns later s same has =
      let t = happens env s e in
      let moved = executes s e ip same h none_new in
      let (nothing, kept) = idle s in
      let less : length (waiting t) ≡ length (waiting s) =
        omega (arith, moved, ap length nothing) in
      let rest =
        later t (happens-ip_addr env s e ∙ same)
          (λ b. omega (arith, has b, less, ap length kept)) in
      omega
        (arith, rest, less, same_turns, length-append (executed s e) (all_executed env t events))

  beat_step :
      (beaten : Bool) (now : ℕ) (events : List Event) (ip : String)
      → AtLeast true events ip
      → AtLeast beaten (beats_answered now ∷ events) ip
  unfolding AtLeast HasTask
  beat_step beaten now events ip later s same has =
      let t = happens env s (beats_answered now) in
      let moved = executes s (beats_answered now) ip same tt refl in
      let rest =
        later t (happens-ip_addr env s (beats_answered now) ∙ same) (λ b. beaten-queue env s now) in
      omega (arith, rest, moved)

  pop_step :
      (beaten : Bool) (events : List Event) (ip : String)
      → AtLeast false events ip
      → AtLeast beaten (pops ∷ events) ip
  unfolding AtLeast HasTask
  pop_step true events ip later s same has =
      let t = happens env s pops in
      let moved = executes s pops ip same tt refl in
      let rest = later t (happens-ip_addr env s pops ∙ same) (λ b. absurd (cc b)) in
      omega (
        arith,
        rest,
        moved,
        has refl,
        popped-length s.channel s.channel.task_queue refl,
        length-append (executed s pops) (all_executed env t events),
      )
  pop_step false events ip later s same has =
      let t = happens env s pops in
      let moved = executes s pops ip same tt refl in
      let rest = later t (happens-ip_addr env s pops ∙ same) (λ b. absurd (cc b)) in
      omega (arith, rest, moved, length-append (executed s pops) (all_executed env t events))

  serves-IsIdle : (c : Call) → IsIdle (serves c)
  unfolding IsIdle happens
  serves-IsIdle c s = (refl, refl)

  unsent-IsIdle : (message : String) → IsIdle (beats_unsent message)
  unfolding IsIdle happens receive
  unsent-IsIdle message s = (refl, refl)

  starts-IsIdle : IsIdle starts
  unfolding IsIdle happens start
  starts-IsIdle s = (refl, refl)

  stops-IsIdle : IsIdle stops
  unfolding IsIdle happens stop
  stops-IsIdle s = (refl, refl)

  abbrev pub CreatesNone : String → Event → Type 0
  CreatesNone ip e = created ip e ≡ []

  turns-AtLeast :
      (beaten : Bool) (ip : String) (events : List Event)
      → All (IsAnswered ip) events
      → All (CreatesNone ip) events
      → AtLeast beaten events ip
  turns-AtLeast beaten ip [] h none_new = unfold AtLeast in λ s same has. omega arith
  turns-AtLeast beaten ip (beats_answered now ∷ events) h none_new =
      beat_step beaten now events ip (turns-AtLeast true ip events h.1 none_new.1)
  turns-AtLeast beaten ip (pops ∷ events) h none_new =
      pop_step beaten events ip (turns-AtLeast false ip events h.1 none_new.1)
  turns-AtLeast beaten ip (serves c ∷ events) h none_new =
      idle_step beaten (serves c) events ip (serves-IsIdle c) h.0 none_new.0 refl
        (turns-AtLeast beaten ip events h.1 none_new.1)
  turns-AtLeast beaten ip (beats_unanswered now message ∷ events) h none_new = absurd h.0
  turns-AtLeast beaten ip (beats_unsent message ∷ events) h none_new =
      idle_step beaten (beats_unsent message) events ip (unsent-IsIdle message) h.0 none_new.0 refl
        (turns-AtLeast beaten ip events h.1 none_new.1)
  turns-AtLeast beaten ip (starts ∷ events) h none_new =
      idle_step beaten starts events ip starts-IsIdle h.0 none_new.0 refl
        (turns-AtLeast beaten ip events h.1 none_new.1)
  turns-AtLeast beaten ip (stops ∷ events) h none_new =
      idle_step beaten stops events ip stops-IsIdle h.0 none_new.0 refl
        (turns-AtLeast beaten ip events h.1 none_new.1)

  all_created-none :
      (ip : String) (events : List Event) → All (CreatesNone ip) events → all_created ip events ≡ []
  all_created-none ip [] h = refl
  all_created-none ip (e ∷ events) h =
      ap (λ xs. xs ++ all_created ip events) h.0 ∙ all_created-none ip events h.1

  -- If every heartbeat that the server serves for the agent's address is this agent's and its answer arrives,
  -- no task is created for it, and the worker asks for a task, each time with a heartbeat since the time
  -- before, at least as often as there are tasks waiting: then all of them are executed, in their order, and
  -- none waits afterwards, whatever else happens.
  pub turns_execute :
      (s : Site) (events : List Event)
      → All (IsAnswered s.channel.ip_addr) events
      → All (CreatesNone s.channel.ip_addr) events
      → length (waiting s) ≤ turns false events
      → (all_executed env s events ≡ waiting s) × (waiting (after env s events) ≡ [])
  unfolding AtLeast HasTask
  turns_execute s events h none_new enough =
      let ip = s.channel.ip_addr in
      let done = turns-AtLeast false ip events h none_new s refl (λ b. absurd (cc b)) in
      let left = waiting (after env s events) in
      let kept : all_executed env s events ++ left ≡ waiting s =
        tasks_conserved env s events h
        ∙ ap (◌++◌ (waiting s)) (all_created-none ip events none_new)
        ∙ append-nil (waiting s) in
      let nothing : left ≡ [] = length-zero left (
        omega
          (arith, done, enough, ap length kept, length-append (all_executed env s events) left)) in
      (
        sym (append-nil (all_executed env s events))
            ∙ ap (◌++◌ (all_executed env s events)) (sym nothing)
            ∙ kept,
        nothing,
      )
