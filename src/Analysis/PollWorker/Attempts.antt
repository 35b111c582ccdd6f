-- ===== src/Analysis/PollWorker/Attempts.antt =====
-- poll_worker.py: what an attempt at one task leaves in its `analysis_status`.
use mathlib.Core.List.{◌++◌}
use mini_drop.Base.{
  ℕ, String, Bool, true, false, not, eqb, string_eq, if◌then◌else◌, some, List, [], ◌∷◌, ◌≡◌, refl,
  ap, ◌∙◌, arith, Option, none, ◌&&◌,
}
use mini_drop.ApiServer.Tasks.{analysis_running, analysis_failed}
use mini_drop.Analysis.Analyzer.{
  Step, finish, Surroundings, steps_of, analyze, status_done, status_failed,
}
use mini_drop.Analysis.Analyzer.Ending.{
  up_to_failure, try_steps_lem, all_succeed, last_status, analyze-exit_code,
}
use mini_drop.Analysis.PollWorker.{waits, Attempt, statuses, statuses_after_start}
use mini_drop.Analysis.PollWorker.Rows.{still_waits}
use mini_drop.Analysis.PollWorker.Waiting.{keeps}

-- The attempt gets through to the analyzer, whose run ends with a status in the database, of success or
-- failure.
pub record Goes (fine : Bool) (tid : String) (a : Attempt) : Type 0 where
  pub env : Surroundings
  pub connected : a.connects ≡ true
  pub started : a.analyzer ≡ some env
  pub made : env.work_dir_made ≡ true
  pub ended : env.ends ≡ true
  pub outcome : all_succeed env.succeeds (steps_of env.resolve tid) ≡ fine

still_waits-last_status :
    (s : ℕ) (ss : List ℕ) → still_waits (waits s) ss ≡ waits (last_status s ss)
still_waits-last_status s [] = refl
still_waits-last_status s (t ∷ ts) = still_waits-last_status t ts

last_status-append :
    (s : ℕ) (ss ts : List ℕ) → last_status s (ss ++ ts) ≡ last_status (last_status s ss) ts
last_status-append s [] ts = refl
last_status-append s (x ∷ ss) ts = last_status-append x ss ts

-- What the worker makes of the exit code.
abbrev written : Attempt → ℕ → List ℕ
written a code = if eqb code 0 then [] else if a.reconnects then analysis_failed ∷ [] else []

written-waits :
    (a : Attempt) (fine : Bool)
    → waits (
        last_status
          (if fine then status_done else status_failed)
          (written a (if fine then 0 else 1)))
      ≡ not fine
written-waits a true = refl
written-waits a false = ground arith

-- After a run of the analyzer, and what the worker makes of its exit code.
last_after :
    (a : Attempt) (before code : ℕ) (ss : List ℕ) (fine : Bool)
    → code ≡ (if fine then 0 else 1)
    → last_status before ss ≡ (if fine then status_done else status_failed)
    → waits (last_status before (ss ++ written a code)) ≡ not fine
last_after a before code ss fine hc hs =
    let last = last_status before ss in
    ap waits (last_status-append before ss _)
    ∙ ap (λ c. waits (last_status last (written a c))) hc
    ∙ ap (λ s. waits (last_status s (written a (if fine then 0 else 1)))) hs
    ∙ written-waits a fine

after_start :
    (tid : String) (a : Attempt) (env : Surroundings) (before : ℕ)
    → env.work_dir_made ≡ true
    → env.ends ≡ true
    → waits (last_status before (statuses_after_start tid a (some env)))
      ≡ not (all_succeed env.succeeds (steps_of env.resolve tid))
unfolding statuses_after_start
after_start tid a env before made ended =
    let (code, status, steps) = analyze-exit_code env tid before made ended in
    let run = analyze env tid in
    last_after a before run.exit_code run.statuses
      (all_succeed env.succeeds (steps_of env.resolve tid)) code status

pub keeps-Goes :
    (attempt : String → Attempt) (tid : String) (fine : Bool)
    → Goes fine tid (attempt tid)
    → keeps attempt tid ≡ not fine
unfolding statuses
keeps-Goes attempt tid fine g =
    let a = attempt tid in
    let ss = statuses_after_start tid a a.analyzer in
    let last = last_status analysis_running ss in
    let e : still_waits true (statuses tid a) ≡ waits last =
      rw g.connected (still_waits-last_status analysis_running ss) in
    e
    ∙ ap (λ o. waits (last_status analysis_running (statuses_after_start tid a o))) g.started
    ∙ after_start tid a g.env analysis_running g.made g.ended
    ∙ ap not g.outcome

-- Whether a run of the analyzer gets through, and so has written the suggestions.
abbrev pub analyzer_succeeds : String → Option Surroundings → Bool
analyzer_succeeds tid none = false
analyzer_succeeds tid (some env) =
    env.work_dir_made && all_succeed env.succeeds (steps_of env.resolve tid)

abbrev pub succeeds : String → Attempt → Bool
succeeds tid a = a.connects && analyzer_succeeds tid a.analyzer

analyze-done :
    (env : Surroundings) (tid : String)
    → analyzer_succeeds tid (some env) ≡ true
    → analyze env tid ≡ finish env (up_to_failure env.succeeds (steps_of env.resolve tid), true)
unfolding analyze
analyze-done env tid h =
    let steps = steps_of env.resolve tid in
    let made : env.work_dir_made ≡ true = ground arith in
    let fine : all_succeed env.succeeds steps ≡ true = ground arith in
    rw (made, try_steps_lem env.succeeds steps, fine) refl

done_quiet :
    (env : Surroundings) (tried : List Step)
    → still_waits false ((finish env (tried, true)).statuses ++ []) ≡ false
done_quiet env tried = ground arith

after_success :
    (tid : String) (a : Attempt) (o : Option Surroundings)
    → analyzer_succeeds tid o ≡ true
    → still_waits false (statuses_after_start tid a o) ≡ false
unfolding statuses_after_start
after_success tid a none h = absurd (ground arith)
after_success tid a (some env) h =
    ap
      (λ run. still_waits false (
        run.statuses
        ++ (if eqb run.exit_code 0 then [] else if a.reconnects then analysis_failed ∷ [] else [])))
      (analyze-done env tid h)
    ∙ done_quiet env (up_to_failure env.succeeds (steps_of env.resolve tid))

pub keeps-succeeds :
    (attempt : String → Attempt) (tid : String)
    → succeeds tid (attempt tid) ≡ true
    → keeps attempt tid ≡ false
unfolding statuses
keeps-succeeds attempt tid h =
    let a = attempt tid in
    let there : a.connects ≡ true = ground arith in
    let fine : analyzer_succeeds tid a.analyzer ≡ true = ground arith in
    rw there (after_success tid a a.analyzer fine)
