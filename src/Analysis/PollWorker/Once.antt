-- ===== src/Analysis/PollWorker/Once.antt =====
-- poll_worker.py, hotmethod_analyzer.py: how often the analysis of a task gets through.
use mathlib.Core.List.{◌++◌}
use mini_drop.Base.{
  String, Bool, true, false, string_eq, eq_iff, if◌then◌else◌, List, [], ◌∷◌, take, drop, filter,
  take-drop, All, ◌≡◌, sym, subst, arith, Bool-cases, inl, inr,
}
use mini_drop.Analysis.PollWorker.{TaskRows, Attempt, Round, poll, polls}
use mini_drop.Analysis.PollWorker.Rows.{contains, Distinct, DistinctTids}
use mini_drop.Analysis.PollWorker.Waiting.{keeps}
use mini_drop.Analysis.PollWorker.Rounds.{queue, poll-queue, poll-Distinct}
use mini_drop.Analysis.PollWorker.Ids.{
  contains-append, contains-filter, contains-take-drop, DistinctTids-append, DistinctTids-apart,
  DistinctTids-filter, DistinctTids-take, DistinctTids-waiting_tids,
}
use mini_drop.Analysis.PollWorker.Attempts.{succeeds, keeps-succeeds}

-- An id whose analysis got through was in the queue and is no more; and none is new in it.
abbrev Left : List String → List String → List String → String → Type 0
Left before after got x =
    (contains after x ≡ true → contains before x ≡ true)
    × (contains got x ≡ true → (contains before x ≡ true) × (contains after x ≡ false))

Left-append :
    (a b c got more : List String) (x : String)
    → Left a b got x
    → Left b c more x
    → Left a c (got ++ more) x
Left-append a b c got more x (back, now) (back', later) =
    ground (arith, contains-append got more x, back, now, back', later)

Left-gone :
    (a b got : List String) (x : String)
    → Left a b got x
    → contains a x ≡ false
    → contains got x ≡ false
Left-gone a b got x left out = ground (arith, left.1)

Left-queue :
    (attempt : String → Attempt) (q : List String) (queries : Bool) (x : String)
    → DistinctTids q
    → Left q
        (if queries then filter (keeps attempt) (take 5 q) ++ drop 5 q else q)
        (filter
          (λ tid. succeeds tid (attempt tid))
          (if queries then filter (λ tid. (attempt tid).connects) (take 5 q) else []))
        x
Left-queue attempt q false x d = (λ h. h, λ h. absurd (ground arith))
Left-queue attempt q true x d =
    let five = take 5 q in
    let others = drop 5 q in
    let launched = filter (λ tid. (attempt tid).connects) five in
    let apart : contains five x ≡ true → contains others x ≡ false =
      DistinctTids-apart five others x (subst DistinctTids (sym (take-drop 5 q)) d) in
    let stay = contains-append (filter (keeps attempt) five) others x in
    let kept = contains-filter (keeps attempt) five x in
    let all = contains-take-drop 5 q x in
    let good = contains-filter (λ tid. succeeds tid (attempt tid)) launched x in
    let taken = contains-filter (λ tid. (attempt tid).connects) five x in
    ground (arith, apart, stay, kept, all, good, taken, keeps-succeeds attempt x)

module _ (db : TaskRows) where
  open db use {Table, rows}

  -- The tasks whose analysis gets through in a round, in the order of the worker.
  abbrev pub suggested_in : Round → Table → List String
  suggested_in round t = filter (λ tid. succeeds tid (round.attempt tid)) (poll db round t).1

  abbrev pub suggested : List Round → Table → List String
  suggested [] t = []
  suggested (round ∷ rounds) t = suggested_in round t ++ suggested rounds (poll db round t).0

  in_round :
      (round : Round) (t : Table) (x : String)
      → Distinct (rows t)
      → Left (queue db t) (queue db (poll db round t).0) (suggested_in round t) x
  in_round round t x distinct =
      let q = queue db t in
      let got : List String → List String =
        λ xs. filter (λ tid. succeeds tid (round.attempt tid)) xs in
      let (left, launched) = poll-queue db round t distinct in
      subst (λ after. Left q after (suggested_in round t) x) (sym left)
        (subst
          (λ xs.
            Left q
              (if round.queries then filter (keeps round.attempt) (take 5 q) ++ drop 5 q else q)
              (got xs) x)
          (sym launched)
          (Left-queue round.attempt q round.queries x
            (DistinctTids-waiting_tids (rows t) distinct)))

  in_round-Distinct :
      (round : Round) (t : Table) → Distinct (rows t) → DistinctTids (suggested_in round t)
  in_round-Distinct round t distinct =
      let q = DistinctTids-waiting_tids (rows t) distinct in
      let five = take 5 (queue db t) in
      let (left, launched) = poll-queue db round t distinct in
      DistinctTids-filter (λ tid. succeeds tid (round.attempt tid)) (poll db round t).1
        (subst DistinctTids (sym launched) (elim (Bool-cases round.queries) [
          | inl on ↦ rw on (
              DistinctTids-filter (λ tid. (round.attempt tid).connects) five
                (DistinctTids-take 5 (queue db t) q))
          | inr off ↦ rw off tt
        ]))

  in_rounds :
      (rounds : List Round) (t : Table) (x : String)
      → Distinct (rows t)
      → Left (queue db t) (queue db (polls db rounds t).0) (suggested rounds t) x
  unfolding polls
  in_rounds [] t x distinct = (λ h. h, λ h. absurd (ground arith))
  in_rounds (round ∷ rounds) t x distinct =
      let t1 = (poll db round t).0 in
      Left-append (queue db t) (queue db t1) (queue db (polls db rounds t1).0)
        (suggested_in round t) (suggested rounds t1) x (in_round round t x distinct)
        (in_rounds rounds t1 x (poll-Distinct db round t distinct))

  suggested-Distinct :
      (rounds : List Round) (t : Table) → Distinct (rows t) → DistinctTids (suggested rounds t)
  suggested-Distinct [] t distinct = tt
  suggested-Distinct (round ∷ rounds) t distinct =
      let t1 = (poll db round t).0 in
      let next = poll-Distinct db round t distinct in
      DistinctTids-append (suggested_in round t) (suggested rounds t1)
        (in_round-Distinct round t distinct) (suggested-Distinct rounds t1 next)
        (λ x h.
          Left-gone (queue db t1) (queue db (polls db rounds t1).0) (suggested rounds t1) x
            (in_rounds rounds t1 x next) ((in_round round t x distinct).1 h).1)

  waits_no_more :
      (rounds : List Round) (t : Table) (tids : List String)
      → Distinct (rows t)
      → ((x : String) → contains tids x ≡ true → contains (suggested rounds t) x ≡ true)
      → All (λ tid. contains (queue db (polls db rounds t).0) tid ≡ false) tids
  waits_no_more rounds t [] distinct h = tt
  waits_no_more rounds t (tid ∷ tids) distinct h = (
    ((in_rounds rounds t tid distinct).1 (h tid (ground (arith, eq_iff tid tid)))).1,
    waits_no_more rounds t tids distinct (λ x k. h x (ground arith)),
  )

  -- If no two tasks have one id, then over any rounds, however their attempts go, no task has two runs of
  -- the analyzer that get through, and a task that had one does not wait afterwards.
  pub suggested_once :
      (rounds : List Round) (t : Table)
      → Distinct (rows t)
      → DistinctTids (suggested rounds t)
        × All (λ tid. contains (queue db (polls db rounds t).0) tid ≡ false) (suggested rounds t)
  suggested_once rounds t distinct = (
    suggested-Distinct rounds t distinct,
    waits_no_more rounds t (suggested rounds t) distinct (λ x h. h),
  )
