-- ===== src/Server/Control/Views/Schedules.antt =====
-- ControlService.cpp: any number of calls, in any order that keeps the calls about each agent in theirs.
use text.Mathlib.TextEquality.{IsScalar-prop}
use mathlib.Core.Quot
use mathlib.Core.Quot.{Quot, Quot-set}
use mini_drop.Base.{
  String, true, false, ◌==◌, string_eq, eq_iff, if◌then◌else◌, Option, List, [], ◌∷◌, filter, ◌≡◌,
  refl, sym, ap, ◌∙◌, Bool-cases, inl, inr,
}
use mini_drop.Proto.Hotmethod.{TaskDesc}
use mini_drop.Server.Control.{ControlService}
use mini_drop.Server.Control.Queue.{queued}
use mini_drop.Server.Control.Views.{
  Queues, Operation, agent_of, perform, changed, given, queued-perform, given-perform, run,
}

-- The operations about one agent.
abbrev pub about : String → List Operation → List Operation
about ip ops = filter (λ o. agent_of o == ip) ops

abbrev pub after_all : List Operation → Queues → Queues
after_all [] v = v
after_all (o ∷ ops) v = after_all ops (run o v).1

-- What the operations about one agent give.
abbrev pub given_to : String → List Operation → Queues → List (Option TaskDesc)
given_to ip [] v = []
given_to ip (o ∷ ops) v =
    let rest = given_to ip ops (run o v).1 in if agent_of o == ip then (run o v).0 ∷ rest else rest

-- The same on the queue of the agent alone.
abbrev queue_after : List Operation → List TaskDesc → List TaskDesc
queue_after [] tasks = tasks
queue_after (o ∷ ops) tasks = queue_after ops (changed o tasks)

abbrev given_from : List Operation → List TaskDesc → List (Option TaskDesc)
given_from [] tasks = []
given_from (o ∷ ops) tasks = given o tasks ∷ given_from ops (changed o tasks)

abbrev apply_all : List Operation → ControlService → ControlService
apply_all [] s = s
apply_all (o ∷ ops) s = apply_all ops (perform o s).1

after_all-mk :
    (ops : List Operation) (s : ControlService)
    → after_all ops (Quot.mk s) ≡ Quot.mk (apply_all ops s)
unfolding run
after_all-mk [] s = refl
after_all-mk (o ∷ ops) s = after_all-mk ops (perform o s).1

queued-mine :
    (o : Operation) (s : ControlService) (ip : String)
    → (agent_of o == ip) ≡ true
    → queued ip (perform o s).1 ≡ changed o (queued ip s)
queued-mine o s ip mine =
    queued-perform o s ip ∙ ap (λ b. if b then changed o (queued ip s) else queued ip s) mine

queued-other :
    (o : Operation) (s : ControlService) (ip : String)
    → (agent_of o == ip) ≡ false
    → queued ip (perform o s).1 ≡ queued ip s
queued-other o s ip other =
    queued-perform o s ip ∙ ap (λ b. if b then changed o (queued ip s) else queued ip s) other

given-mine :
    (o : Operation) (s : ControlService) (ip : String)
    → (agent_of o == ip) ≡ true
    → (perform o s).0 ≡ given o (queued ip s)
given-mine o s ip mine =
    given-perform o s ∙ ap (λ j. given o (queued j s)) ((eq_iff (agent_of o) ip).0 mine)

queued-apply_all :
    (ip : String) (ops : List Operation) (s : ControlService)
    → queued ip (apply_all ops s) ≡ queue_after (about ip ops) (queued ip s)
queued-apply_all ip [] s = refl
queued-apply_all ip (o ∷ ops) s =
    queued-apply_all ip ops (perform o s).1 ∙ elim (Bool-cases (agent_of o == ip)) [
      | inl mine ↦ rw mine (ap (queue_after (about ip ops)) (queued-mine o s ip mine))
      | inr other ↦ rw other (ap (queue_after (about ip ops)) (queued-other o s ip other))
    ]

given_to-mk :
    (ip : String) (ops : List Operation) (s : ControlService)
    → given_to ip ops (Quot.mk s) ≡ given_from (about ip ops) (queued ip s)
unfolding run
given_to-mk ip [] s = refl
given_to-mk ip (o ∷ ops) s =
    let later = given_to-mk ip ops (perform o s).1 in
    elim (Bool-cases (agent_of o == ip)) [
      | inl mine ↦
          let rest = later ∙ ap (given_from (about ip ops)) (queued-mine o s ip mine) in
          rw mine (λ i. given-mine o s ip mine i ∷ rest i)
      | inr other ↦ rw other (later ∙ ap (given_from (about ip ops)) (queued-other o s ip other))
    ]

same_after :
    (ops more : List Operation) (s : ControlService)
    → ((ip : String) → about ip ops ≡ about ip more)
    → after_all ops (Quot.mk s) ≡ after_all more (Quot.mk s)
same_after ops more s h =
    after_all-mk ops s
    ∙ Quot.sound (λ ip.
      queued-apply_all ip ops s
      ∙ ap (λ xs. queue_after xs (queued ip s)) (h ip)
      ∙ sym (queued-apply_all ip more s))
    ∙ sym (after_all-mk more s)

given-set : IsSet (List (Option TaskDesc))
given-set = hlevel IsScalar-prop

-- If two histories of calls have the same calls about each agent in the same order, however the calls about
-- different agents are interleaved, then from every table they lead to the same table, and every agent is
-- given the same tasks.
pub schedules_agree :
    (ops more : List Operation) (v : Queues) (ip : String)
    → ((j : String) → about j ops ≡ about j more)
    → (after_all ops v ≡ after_all more v) × (given_to ip ops v ≡ given_to ip more v)
schedules_agree ops more v ip h = (
  Quot.ind {β = λ v. after_all ops v ≡ after_all more v} (λ v. Quot-set _ _)
      (λ s. same_after ops more s h) v,
  Quot.ind {β = λ v. given_to ip ops v ≡ given_to ip more v} (λ v. given-set _ _)
      (λ s.
        given_to-mk ip ops s
        ∙ ap (λ xs. given_from xs (queued ip s)) (h ip)
        ∙ sym (given_to-mk ip more s))
      v,
)
