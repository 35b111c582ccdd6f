-- ===== src/Analysis/PollWorker.antt =====
-- analysis/poll_worker.py: `main` looks every 5 seconds for tasks whose data are uploaded and not yet
-- analysed, and runs the analyzer for them. The database is an interface with the law of its UPDATE.
pub mod Rows
pub mod Waiting
pub mod Rounds
pub mod Attempts
pub mod Fairness
pub mod Ids
pub mod Once
use mini_drop.Base.{
  ℕ, String, Bool, true, false, not, ◌&&◌, ◌||◌, eqb, ◌==◌, string_eq, if◌then◌else◌, Option, none,
  some, List, [], ◌∷◌, map, take, filter, ◌≡◌,
}
use mathlib.Core.List.{◌++◌}
use mini_drop.ApiServer.Tasks.{
  Row, done_status, analysis_pending, analysis_failed, analysis_running,
}
use mini_drop.Analysis.Analyzer.{Surroundings, analyze}

-- The condition of the query.
abbrev pub waits : ℕ → Bool
waits analysis = eqb analysis analysis_pending || eqb analysis analysis_failed

abbrev pub is_waiting : Row → Bool
is_waiting r = eqb r.status done_status && waits r.analysis_status

abbrev pub with_analysis : ℕ → Row → Row
with_analysis analysis r = record r { analysis_status = analysis }

abbrev pub with_analysis_of : String → ℕ → Row → Row
with_analysis_of tid analysis r = if r.tid == tid then with_analysis analysis r else r

-- `rows` are those that are not deleted, by `create_time`.
pub record TaskRows : Type 1 where
  pub Table : Type 0
  pub rows : Table → List Row
  pub set_analysis : String → ℕ → Table → Table
  pub rows-set_analysis :
      (tid : String) (analysis : ℕ) (t : Table)
      → rows (set_analysis tid analysis t) ≡ map (with_analysis_of tid analysis) (rows t)

-- How one task of a round goes: whether the first status is written, what the analyzer meets (`none` if it
-- cannot be started), and whether the last status can be written.
pub record Attempt : Type 0 where
  pub connects : Bool
  pub analyzer : Option Surroundings
  pub reconnects : Bool

-- The values that the task's `analysis_status` is given after the first one.
unfoldable pub statuses_after_start : String → Attempt → Option Surroundings → List ℕ
unfolding analyze
statuses_after_start tid attempt none = []
statuses_after_start tid attempt (some env) =
    let run = analyze env tid in
    run.statuses
    ++ (if eqb run.exit_code 0 then [] else if attempt.reconnects then analysis_failed ∷ [] else [])

-- The body of the `for`: all values that it is given.
unfoldable pub statuses : String → Attempt → List ℕ
unfolding statuses_after_start
statuses tid attempt =
    if not attempt.connects
    then []
    else analysis_running ∷ statuses_after_start tid attempt attempt.analyzer

-- A round of the `while`: whether the query goes through, and how each task would go.
pub record Round : Type 0 where
  pub queries : Bool
  pub attempt : String → Attempt

module _ (db : TaskRows) where
  open db use {Table, rows, set_analysis}

  -- `_get_pending`.
  unfoldable pub get_pending : Table → List String
  get_pending t = take 5 (map (λ r. r.tid) (filter is_waiting (rows t)))

  unfoldable pub set_all : String → List ℕ → Table → Table
  set_all tid [] t = t
  set_all tid (s ∷ ss) t = set_all tid ss (set_analysis tid s t)

  -- The `for`, and the tasks whose analyzer is started.
  unfoldable pub process : (String → Attempt) → List String → Table → Table × List String
  unfolding set_all statuses
  process attempt [] t = (t, [])
  process attempt (tid ∷ tids) t =
      let rest = process attempt tids (set_all tid (statuses tid (attempt tid)) t) in
      (rest.0, if (attempt tid).connects then tid ∷ rest.1 else rest.1)

  unfoldable pub poll : Round → Table → Table × List String
  unfolding process get_pending
  poll round t = if not round.queries then (t, []) else process round.attempt (get_pending t) t

  unfoldable pub polls : List Round → Table → Table × List String
  unfolding poll
  polls [] t = (t, [])
  polls (round ∷ rounds) t =
      let now = poll round t in let later = polls rounds now.0 in (later.0, now.1 ++ later.1)
