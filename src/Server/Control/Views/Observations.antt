-- ===== src/Server/Control/Views/Observations.antt =====
-- ControlService.cpp: what calls can see of the state.
use mathlib.Core.Quot
use mathlib.Core.Path.{fun_ext}
use mathlib.Core.List.{◌++◌, head?}
use mini_drop.Base.{
  Bool, true, false, none, push_back, push_back-append_nil, ◌==◌, ℕ, zero, suc, String, string_eq,
  eq_iff, if◌then◌else◌, Option, List, [], ◌∷◌, ◌≡◌, ◌↔◌, refl, sym, ap, ◌∙◌, drop,
}
use mini_drop.Proto.Hotmethod.{TaskDesc}
use mini_drop.Server.Control.{ControlService}
use mini_drop.Server.Control.Queue.{queued}
use mini_drop.Server.Control.Views.{
  SameQueues, Queues, Operation, creates, pops, perform, mk-eq_iff, queued-perform, given-perform,
  perform-SameQueues, given-SameQueues,
}

-- What the operations give, one after another.
abbrev pub answers : List Operation → ControlService → List (Option TaskDesc)
answers [] s = []
answers (o ∷ ops) s = (perform o s).0 ∷ answers ops (perform o s).1

abbrev pub pop_times : ℕ → String → List Operation
pop_times zero ip = []
pop_times (suc n) ip = pops ip ∷ pop_times n ip

-- The fronts that n pops find.
abbrev fronts : ℕ → List TaskDesc → List (Option TaskDesc)
fronts zero tasks = []
fronts (suc n) tasks = head? tasks ∷ fronts n (drop 1 tasks)

answers-SameQueues :
    (ops : List Operation) (a b : ControlService) → SameQueues a b → answers ops a ≡ answers ops b
answers-SameQueues [] a b h i = []
answers-SameQueues (o ∷ ops) a b h i =
    given-SameQueues o a b h i
    ∷ answers-SameQueues ops (perform o a).1 (perform o b).1 (perform-SameQueues o a b h) i

queued-pops :
    (ip : String) (s : ControlService) → queued ip (perform (pops ip) s).1 ≡ drop 1 (queued ip s)
queued-pops ip s =
    queued-perform (pops ip) s ip
    ∙ ap (λ b. if b then drop 1 (queued ip s) else queued ip s) ((eq_iff ip ip).1 refl)

answers-pops :
    (ip : String) (n : ℕ) (s : ControlService) → answers (pop_times n ip) s ≡ fronts n (queued ip s)
answers-pops ip zero s = refl
answers-pops ip (suc n) s =
    let rest = answers-pops ip n (perform (pops ip) s).1 ∙ ap (fronts n) (queued-pops ip s) in
    λ i. given-perform (pops ip) s i ∷ rest i

same_fronts : (xs ys : List TaskDesc) → ((n : ℕ) → fronts n xs ≡ fronts n ys) → xs ≡ ys
same_fronts [] [] h = refl
same_fronts [] (y ∷ ys) h = cc (h 1)
same_fronts (x ∷ xs) [] h = cc (h 1)
same_fronts (x ∷ xs) (y ∷ ys) h =
    let first : x ≡ y = cc (h 1) in
    let rest = same_fronts xs ys (λ n. cc (h (suc n))) in λ i. first i ∷ rest i

-- Two states of the service are one table exactly if no calls can tell them apart by what they give.
observed_iff :
    (a b : ControlService)
    → (◌≡◌ {A = Queues} (Quot.mk a) (Quot.mk b))
      ↔ ((ops : List Operation) → answers ops a ≡ answers ops b)
observed_iff a b = (
  λ e ops. answers-SameQueues ops a b ((mk-eq_iff a b).0 e),
  λ h. Quot.sound (λ ip.
      same_fronts (queued ip a) (queued ip b)
        (λ n. sym (answers-pops ip n a) ∙ h (pop_times n ip) ∙ answers-pops ip n b)),
)

-- A queue for each address, first in and first out: what the calls give there.
abbrev pub fifo : List Operation → (String → List TaskDesc) → List (Option TaskDesc)
fifo [] queue = []
fifo (creates q ∷ ops) queue =
    none ∷ fifo ops (λ ip. if q.target_ip == ip then queue ip ++ (q.task_desc ∷ []) else queue ip)
fifo (pops ip ∷ ops) queue =
    head? (queue ip) ∷ fifo ops (λ j. if ip == j then drop 1 (queue j) else queue j)

appended :
    (b : Bool) (tasks : List TaskDesc) (task : TaskDesc)
    → (if b then push_back tasks task else tasks) ≡ (if b then tasks ++ (task ∷ []) else tasks)
appended true tasks task = push_back-append_nil tasks task
appended false tasks task = refl

answers-fifo :
    (ops : List Operation) (s : ControlService) → answers ops s ≡ fifo ops (λ ip. queued ip s)
answers-fifo [] s = refl
answers-fifo (creates q ∷ ops) s =
    let queues = fun_ext (λ ip.
      queued-perform (creates q) s ip ∙ appended (q.target_ip == ip) (queued ip s) q.task_desc) in
    ap (◌∷◌ none) (answers-fifo ops (perform (creates q) s).1 ∙ ap (fifo ops) queues)
answers-fifo (pops ip ∷ ops) s =
    let rest =
      answers-fifo ops (perform (pops ip) s).1
      ∙ ap (fifo ops) (fun_ext (queued-perform (pops ip) s)) in
    λ i. given-perform (pops ip) s i ∷ rest i

-- On whatever state: any calls of CreateTask and pops for heartbeats give what a first-in-first-out queue for each
-- address gives, from the queues of the state on. And the table of queues holds just what they can see: two states
-- are one table exactly if no such calls can tell them apart.
pub answers-fifo_iff :
    (ops : List Operation) (a b : ControlService)
    → (answers ops a ≡ fifo ops (λ ip. queued ip a))
      × ((◌≡◌ {A = Queues} (Quot.mk a) (Quot.mk b))
          ↔ ((others : List Operation) → answers others a ≡ answers others b))
answers-fifo_iff ops a b = (answers-fifo ops a, observed_iff a b)
