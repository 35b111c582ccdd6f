-- ===== src/Analysis/Analyzer/Ending.antt =====
-- hotmethod_analyzer.py: how a run ends, and what it says of it.
use mini_drop.Base.{
  ℕ, String, Bool, true, false, ◌&&◌, if◌then◌else◌, List, [], ◌∷◌, ◌≡◌, refl, arith, Bool-cases,
  inl, inr,
}
use mini_drop.Analysis.Analyzer.{
  Step, steps_of, try_steps, Surroundings, finish, analyze, status_done, status_failed,
}

abbrev pub all_succeed : (Step → Bool) → List Step → Bool
all_succeed succeeds [] = true
all_succeed succeeds (step ∷ steps) = succeeds step && all_succeed succeeds steps

-- The status after these values have been given.
abbrev pub last_status : ℕ → List ℕ → ℕ
last_status s [] = s
last_status s (t ∷ ts) = last_status t ts

-- The steps up to the first that fails, and that one.
abbrev pub up_to_failure : (Step → Bool) → List Step → List Step
up_to_failure succeeds [] = []
up_to_failure succeeds (step ∷ steps) =
    step ∷ (if succeeds step then up_to_failure succeeds steps else [])

pub try_steps_lem :
    (succeeds : Step → Bool) (steps : List Step)
    → try_steps succeeds steps ≡ (up_to_failure succeeds steps, all_succeed succeeds steps)
unfolding try_steps
try_steps_lem succeeds [] = refl
try_steps_lem succeeds (step ∷ steps) = elim (Bool-cases (succeeds step)) [
  | inl ok ↦ rw (ok, try_steps_lem succeeds steps) refl
  | inr bad ↦ rw bad refl
]

-- A run in numbers: its exit code and its last status, by whether all steps succeeded.
abbrev exit_code_for : Bool → ℕ
exit_code_for b = if b then 0 else 1

finish-exit_code :
    (env : Surroundings) (before : ℕ) (tried : List Step) (b : Bool)
    → env.ends ≡ true
    → ((finish env (tried, b)).exit_code ≡ exit_code_for b)
      × (last_status before (finish env (tried, b)).statuses
          ≡ (if b then status_done else status_failed))
      × ((finish env (tried, b)).steps ≡ tried)
finish-exit_code env before tried true h = ground arith
finish-exit_code env before tried false h = ground arith

-- If the working directory can be made, and the last status gets into the database, then whatever status
-- the task had before: the steps are tried in their order up to the first that fails; the exit code is 0
-- and the status done exactly if all succeed, and 1 and failed otherwise.
pub analyze-exit_code :
    (env : Surroundings) (tid : String) (before : ℕ)
    → env.work_dir_made ≡ true
    → env.ends ≡ true
    → let run = analyze env tid in
      let fine = all_succeed env.succeeds (steps_of env.resolve tid) in
      (run.exit_code ≡ (if fine then 0 else 1))
      × (last_status before run.statuses ≡ (if fine then status_done else status_failed))
      × (run.steps ≡ up_to_failure env.succeeds (steps_of env.resolve tid))
unfolding analyze
analyze-exit_code env tid before made ends =
    let steps = steps_of env.resolve tid in
    rw (made, try_steps_lem env.succeeds steps)
      (finish-exit_code env before (up_to_failure env.succeeds steps)
        (all_succeed env.succeeds steps) ends)
