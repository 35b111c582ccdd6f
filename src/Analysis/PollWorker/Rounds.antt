-- ===== src/Analysis/PollWorker/Rounds.antt =====
-- poll_worker.py: the rounds of the worker, each against the queue of the tasks that wait.
use mathlib.Core.List.{◌++◌}
use mini_drop.Base.{
  ℕ, String, ◌==◌, string_eq, if◌then◌else◌, List, [], ◌∷◌, map, take, drop, filter, ◌≡◌, ◌↔◌, refl,
  sym, ap, ◌∙◌, subst, Bool-cases, inl, inr,
}
use mini_drop.ApiServer.Tasks.{Row}
use mini_drop.Analysis.PollWorker.{
  with_analysis_of, TaskRows, Attempt, statuses, Round, get_pending, set_all, process, poll,
}
use mini_drop.Analysis.PollWorker.Rows.{DistinctTids, tids_of, waiting_tids, Distinct, mark_rows}
use mini_drop.Analysis.PollWorker.Waiting.{keeps, process_rows, Polled, waiting_tids-process_rows}

tids_of-with_analysis_of :
    (tid : String) (s : ℕ) (rs : List Row) → tids_of (map (with_analysis_of tid s) rs) ≡ tids_of rs
tids_of-with_analysis_of tid s [] = refl
tids_of-with_analysis_of tid s (r ∷ rs) = elim (Bool-cases (r.tid == tid)) [
  | inl same ↦ rw same (ap (◌∷◌ r.tid) (tids_of-with_analysis_of tid s rs))
  | inr other ↦ rw other (ap (◌∷◌ r.tid) (tids_of-with_analysis_of tid s rs))
]

-- `Distinct` speaks of the ids alone.
Distinct-tids_of : (rs : List Row) → Distinct rs ↔ DistinctTids (tids_of rs)
Distinct-tids_of [] = (λ h. h, λ h. h)
Distinct-tids_of (r ∷ rs) =
    let (to, from) = Distinct-tids_of rs in (λ h. (h.0, to h.1), λ h. (h.0, from h.1))

Distinct-same_tids : (rs qs : List Row) → tids_of qs ≡ tids_of rs → Distinct rs → Distinct qs
Distinct-same_tids rs qs e h =
    (Distinct-tids_of qs).1 (subst DistinctTids (sym e) ((Distinct-tids_of rs).0 h))

tids_of-mark_rows :
    (tid : String) (ss : List ℕ) (rs : List Row) → tids_of (mark_rows tid ss rs) ≡ tids_of rs
tids_of-mark_rows tid [] rs = refl
tids_of-mark_rows tid (s ∷ ss) rs =
    tids_of-mark_rows tid ss (map (with_analysis_of tid s) rs) ∙ tids_of-with_analysis_of tid s rs

tids_of-process_rows :
    (attempt : String → Attempt) (xs : List String) (rs : List Row)
    → tids_of (process_rows attempt xs rs) ≡ tids_of rs
tids_of-process_rows attempt [] rs = refl
tids_of-process_rows attempt (x ∷ xs) rs =
    tids_of-process_rows attempt xs (mark_rows x (statuses x (attempt x)) rs)
    ∙ tids_of-mark_rows x (statuses x (attempt x)) rs

module _ (db : TaskRows) where
  open db use {Table, rows, set_analysis, rows-set_analysis}

  -- The ids of the tasks that wait for their analysis, the oldest first.
  abbrev pub queue : Table → List String
  queue t = waiting_tids (rows t)

  rows-set_all :
      (tid : String) (ss : List ℕ) (t : Table)
      → rows (set_all db tid ss t) ≡ mark_rows tid ss (rows t)
  unfolding set_all
  rows-set_all tid [] t = refl
  rows-set_all tid (s ∷ ss) t =
      rows-set_all tid ss (set_analysis tid s t) ∙ ap (mark_rows tid ss) (rows-set_analysis tid s t)

  rows-process :
      (attempt : String → Attempt) (xs : List String) (t : Table)
      → rows (process db attempt xs t).0 ≡ process_rows attempt xs (rows t)
  unfolding process
  rows-process attempt [] t = refl
  rows-process attempt (x ∷ xs) t =
      let ss = statuses x (attempt x) in
      rows-process attempt xs (set_all db x ss t)
      ∙ ap (process_rows attempt xs) (rows-set_all x ss t)

  process-launches :
      (attempt : String → Attempt) (xs : List String) (t : Table)
      → (process db attempt xs t).1 ≡ filter (λ x. (attempt x).connects) xs
  unfolding process
  process-launches attempt [] t = refl
  process-launches attempt (x ∷ xs) t =
      ap (λ ys. if (attempt x).connects then x ∷ ys else ys)
        (process-launches attempt xs (set_all db x (statuses x (attempt x)) t))

  process-Distinct :
      (attempt : String → Attempt) (xs : List String) (t : Table)
      → Distinct (rows t)
      → Distinct (rows (process db attempt xs t).0)
  process-Distinct attempt xs t h =
      Distinct-same_tids (rows t) (rows (process db attempt xs t).0)
        (ap tids_of (rows-process attempt xs t) ∙ tids_of-process_rows attempt xs (rows t)) h

  process-queue :
      (attempt : String → Attempt) (t : Table)
      → Distinct (rows t)
      → queue (process db attempt (take 5 (queue t)) t).0
        ≡ filter (keeps attempt) (take 5 (queue t)) ++ drop 5 (queue t)
  process-queue attempt t h =
      ap waiting_tids (rows-process attempt (take 5 (queue t)) t)
      ∙ unfold Polled in waiting_tids-process_rows attempt 5 (rows t) h

  pub poll-Distinct :
      (round : Round) (t : Table) → Distinct (rows t) → Distinct (rows (poll db round t).0)
  unfolding poll get_pending
  poll-Distinct round t h = elim (Bool-cases round.queries) [
    | inl q ↦ rw q (process-Distinct round.attempt (take 5 (queue t)) t h)
    | inr q ↦ rw q h
  ]

  -- A round against the queue of the waiting tasks, if no two tasks have one id: it takes up the first five
  -- at most, in their order, those of them that its first statement reaches; of these it leaves in the
  -- queue, in front of the others, exactly those whose status ends as pending or failed. Without a
  -- connection nothing happens.
  pub poll-queue :
      (round : Round) (t : Table)
      → Distinct (rows t)
      → (queue (poll db round t).0 ≡ (
          if round.queries
          then filter (keeps round.attempt) (take 5 (queue t)) ++ drop 5 (queue t)
          else queue t))
        × ((poll db round t).1 ≡ (
            if round.queries
            then filter (λ x. (round.attempt x).connects) (take 5 (queue t))
            else []))
  unfolding poll get_pending
  poll-queue round t h = elim (Bool-cases round.queries) [
    | inl q ↦
        rw q (process-queue round.attempt t h, process-launches round.attempt (take 5 (queue t)) t)
    | inr q ↦ rw q (refl, refl)
  ]
