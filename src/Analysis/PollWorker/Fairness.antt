-- ===== src/Analysis/PollWorker/Fairness.antt =====
-- poll_worker.py: which of the waiting tasks get analysed over many rounds.
use mathlib.Core.List.{◌++◌, append_assoc, append-nil}
use mini_drop.Base.{
  ◌-◌, ◌*◌, ◌≤◌, String, Bool, true, false, not, string_eq, eq_iff, if◌then◌else◌, List, [], ◌∷◌,
  take, drop, filter, length, All, All-append, take_append, drop_append, filter-All, filter-none,
  take-drop, length-drop, length-zero, All-take, All-drop, ◌≡◌, refl, sym, ap, ◌∙◌, subst, arith,
}
use mini_drop.Analysis.PollWorker.{TaskRows, Attempt, Round, poll, polls}
use mini_drop.Analysis.PollWorker.Rows.{contains, Distinct}
use mini_drop.Analysis.PollWorker.Waiting.{keeps}
use mini_drop.Analysis.PollWorker.Rounds.{queue, poll-queue, poll-Distinct}
use mini_drop.Analysis.PollWorker.Attempts.{Goes, keeps-Goes}

-- A round with a connection, in which each of these tasks goes the same way.
abbrev pub AllGo : Bool → List String → Round → Type 0
AllGo fine tids round = (round.queries ≡ true) × All (λ tid. Goes fine tid (round.attempt tid)) tids

All-connected :
    (fine : Bool) (attempt : String → Attempt) (tids : List String)
    → All (λ tid. Goes fine tid (attempt tid)) tids
    → All (λ tid. (attempt tid).connects ≡ true) tids
All-connected fine attempt [] h = tt
All-connected fine attempt (tid ∷ tids) h = (h.0.connected, All-connected fine attempt tids h.1)

All-keeps :
    (fine : Bool) (attempt : String → Attempt) (tids : List String)
    → All (λ tid. Goes fine tid (attempt tid)) tids
    → All (λ tid. keeps attempt tid ≡ not fine) tids
All-keeps fine attempt [] h = tt
All-keeps fine attempt (tid ∷ tids) h =
    (keeps-Goes attempt tid fine h.0, All-keeps fine attempt tids h.1)

All-contains_more :
    (x : String) (xs tids : List String)
    → All (λ tid. contains xs tid ≡ true) tids
    → All (λ tid. contains (x ∷ xs) tid ≡ true) tids
All-contains_more x xs [] h = tt
All-contains_more x xs (tid ∷ tids) h = (ground arith, All-contains_more x xs tids h.1)

All-contains : (xs : List String) → All (λ tid. contains xs tid ≡ true) xs
All-contains [] = tt
All-contains (x ∷ xs) = (ground (arith, eq_iff x x), All-contains_more x xs xs (All-contains xs))

module _ (db : TaskRows) where
  open db use {Table, rows}

  round_taken :
      (fine : Bool) (round : Round) (t : Table)
      → Distinct (rows t)
      → AllGo fine (take 5 (queue db t)) round
      → (queue db (poll db round t).0
          ≡ filter (keeps round.attempt) (take 5 (queue db t)) ++ drop 5 (queue db t))
        × ((poll db round t).1 ≡ take 5 (queue db t))
  round_taken fine round t distinct (queries, go) =
      let (q, launched) = poll-queue db round t distinct in
      (
        q
            ∙ ap
                (λ b.
                  if b
                  then filter (keeps round.attempt) (take 5 (queue db t)) ++ drop 5 (queue db t)
                  else queue db t)
                queries,
        launched
            ∙ ap
                (λ b.
                  if b then filter (λ x. (round.attempt x).connects) (take 5 (queue db t)) else [])
                queries
            ∙ filter-All (λ x. (round.attempt x).connects) (take 5 (queue db t))
                (All-connected fine round.attempt (take 5 (queue db t)) go),
      )

  good_round :
      (round : Round) (t : Table)
      → Distinct (rows t)
      → AllGo true (queue db t) round
      → (queue db (poll db round t).0 ≡ drop 5 (queue db t))
        × ((poll db round t).1 ≡ take 5 (queue db t))
  good_round round t distinct h =
      let five = take 5 (queue db t) in
      let go = All-take _ 5 (queue db t) h.1 in
      let (q, launched) = round_taken true round t distinct (h.0, go) in
      (
        q
            ∙ ap (λ xs. xs ++ drop 5 (queue db t))
                (filter-none _ five (All-keeps true round.attempt five go)),
        launched,
      )

  bad_round :
      (round : Round) (t : Table) (first others : List String)
      → Distinct (rows t)
      → queue db t ≡ first ++ others
      → length first ≡ 5
      → AllGo false first round
      → (queue db (poll db round t).0 ≡ first ++ others) × ((poll db round t).1 ≡ first)
  bad_round round t first others distinct q five h =
      let taken : take 5 (queue db t) ≡ first =
        ap (take 5) q ∙ ap (λ n. take n (first ++ others)) (sym five) ∙ take_append first others in
      let left : drop 5 (queue db t) ≡ others =
        ap (drop 5) q ∙ ap (λ n. drop n (first ++ others)) (sym five) ∙ drop_append first others in
      let (q', launched) =
        round_taken false round t distinct
          (h.0, subst (λ xs. All (λ tid. Goes false tid (round.attempt tid)) xs) (sym taken) h.1) in
      (
        q'
            ∙ ap (λ xs. filter (keeps round.attempt) xs ++ drop 5 (queue db t)) taken
            ∙ ap (λ xs. filter (keeps round.attempt) first ++ xs) left
            ∙ ap (λ xs. xs ++ others)
                (filter-All _ first (All-keeps false round.attempt first h.1)),
        launched ∙ taken,
      )

  good_after :
      (t t' : Table) (rounds : List Round)
      → queue db t' ≡ drop 5 (queue db t)
      → All (AllGo true (queue db t)) rounds
      → All (AllGo true (queue db t')) rounds
  good_after t t' [] e h = tt
  good_after t t' (round ∷ rounds) e h = (
    (
      h.0.0,
      subst (λ xs. All (λ tid. Goes true tid (round.attempt tid)) xs) (sym e)
          (All-drop _ 5 (queue db t) h.0.1),
    ),
    good_after t t' rounds e h.1,
  )

  taken_in_order :
      (rounds : List Round) (t : Table)
      → Distinct (rows t)
      → All (AllGo true (queue db t)) rounds
      → ((polls db rounds t).1 ++ queue db (polls db rounds t).0 ≡ queue db t)
        × (length (queue db (polls db rounds t).0) ≤ length (queue db t) - length rounds * 5)
  unfolding polls
  taken_in_order [] t distinct h = (refl, omega arith)
  taken_in_order (round ∷ rounds) t distinct h =
      let t1 = (poll db round t).0 in
      let (q, launched) = good_round round t distinct h.0 in
      let (order, left) =
        taken_in_order rounds t1 (poll-Distinct db round t distinct)
          (good_after t t1 rounds q h.1) in
      (
        append_assoc (poll db round t).1 (polls db rounds t1).1 (queue db (polls db rounds t1).0)
            ∙ ap (λ xs. (poll db round t).1 ++ xs) (order ∙ q)
            ∙ ap (λ xs. xs ++ drop 5 (queue db t)) launched
            ∙ take-drop 5 (queue db t),
        omega (arith, left, ap length q, length-drop 5 (queue db t)),
      )

  -- If no two tasks have one id, each round has a connection and each analysis succeeds, and there are five
  -- waiting tasks at most for each round: the worker takes up all the waiting tasks, each once and in the
  -- order of their creation, and none waits any more.
  pub polls_drain :
      (rounds : List Round) (t : Table)
      → Distinct (rows t)
      → All (AllGo true (queue db t)) rounds
      → length (queue db t) ≤ length rounds * 5
      → ((polls db rounds t).1 ≡ queue db t) × (queue db (polls db rounds t).0 ≡ [])
  polls_drain rounds t distinct h enough =
      let (order, left) = taken_in_order rounds t distinct h in
      let empty = length-zero (queue db (polls db rounds t).0) (omega (arith, left)) in
      (sym (append-nil _) ∙ ap (λ xs. (polls db rounds t).1 ++ xs) (sym empty) ∙ order, empty)

  -- If no two tasks have one id, and the analysis of each of the five oldest waiting tasks fails in every
  -- round: after any number of rounds the same tasks wait in the same order, and the worker has taken up
  -- none but these five.
  pub polls_starve :
      (rounds : List Round) (t : Table) (first others : List String)
      → Distinct (rows t)
      → queue db t ≡ first ++ others
      → length first ≡ 5
      → All (AllGo false first) rounds
      → (queue db (polls db rounds t).0 ≡ first ++ others)
        × All (λ tid. contains first tid ≡ true) (polls db rounds t).1
  unfolding polls
  polls_starve [] t first others distinct q five h = (q, tt)
  polls_starve (round ∷ rounds) t first others distinct q five h =
      let t1 = (poll db round t).0 in
      let (q1, launched) = bad_round round t first others distinct q five h.0 in
      let (q2, taken) =
        polls_starve rounds t1 first others (poll-Distinct db round t distinct) q1 five h.1 in
      (
        q2,
        All-append _ (poll db round t).1 (polls db rounds t1).1
            (subst (λ xs. All (λ tid. contains first tid ≡ true) xs) (sym launched)
              (All-contains first))
            taken,
      )
