-- ===== src/Analysis/Analyzer.antt =====
-- analysis/hotmethod_analyzer.py: `main`, for one task. What the steps meet outside (storage, processes,
-- files, the database) enters by whether each of them succeeds.
pub mod Ending
use Prim.Native.String.{◌++◌}
use mathlib.Core.List.{◌++◌ as append}
use mini_drop.Base.{ℕ, String, Bool, true, false, not, if◌then◌else◌, List, [], ◌∷◌}

abbrev pub status_running : ℕ
status_running = 1

abbrev pub status_done : ℕ
status_done = 2

abbrev pub status_failed : ℕ
status_failed = 3

-- A step of the analysis; each may raise an exception.
pub data Step : Type 0 where
  -- `StorageClient()`.
  opens_storage : Step
  -- A key and a local path.
  downloads : String → String → Step
  -- A command, and the file that its output goes to.
  runs_to_file : List String → String → Step
  -- A script of analysis/tools for perl, by its name, the file that it reads, and the file that its output
  -- goes to.
  pipes_perl : String → String → String → Step
  -- A local path and a key.
  uploads : String → String → Step
  reads : String → Step
  -- The rules and the language model for the functions of a file, and the rows that are written.
  suggests : String → String → Step

-- The steps of `data_parser.collapsed_data_parser.parse`. `resolve` is that of `Path`.
unfoldable pub pipeline_steps : (String → String) → String → String → List Step
pipeline_steps resolve perf_data_path work_dir =
    runs_to_file ("perf" ∷ "script" ∷ "-i" ∷ resolve perf_data_path ∷ []) (work_dir ++ "/perf.txt")
    ∷ pipes_perl "stackcollapse-perf.pl" (work_dir ++ "/perf.txt") (work_dir ++ "/perf.folded")
    ∷ pipes_perl "flamegraph.pl" (work_dir ++ "/perf.folded") (work_dir ++ "/flamegraph.svg")
    ∷ []

abbrev pub work_dir_of : String → String
work_dir_of tid = "/tmp/drop_" ++ (tid ++ "_analysis")

-- The body of the `try`, up to the last status.
unfoldable pub steps_of : (String → String) → String → List Step
unfolding pipeline_steps
steps_of resolve tid =
    let work_dir = work_dir_of tid in
    opens_storage
    ∷ downloads (tid ++ "/perf.data") (work_dir ++ "/perf.data")
    ∷ append (pipeline_steps resolve (work_dir ++ "/perf.data") work_dir) (
        uploads (work_dir ++ "/flamegraph.svg") (tid ++ "/flamegraph.svg")
        ∷ reads (work_dir ++ "/perf.folded")
        ∷ suggests tid (work_dir ++ "/perf.folded")
        ∷ [])

-- The steps that are tried, and whether all succeed.
unfoldable pub try_steps : (Step → Bool) → List Step → List Step × Bool
try_steps succeeds [] = ([], true)
try_steps succeeds (step ∷ steps) =
    let rest = try_steps succeeds steps in
    if succeeds step then (step ∷ rest.0, rest.1) else (step ∷ [], false)

-- What one run meets: `starts` and `ends` say whether the first and the last status get into the database,
-- where a failure is only logged.
pub record Surroundings : Type 0 where
  pub starts : Bool
  pub ends : Bool
  pub work_dir_made : Bool
  pub succeeds : Step → Bool
  pub resolve : String → String

-- What a run did: the values that it gave the task's `analysis_status`, its steps, and the exit code.
pub record Run : Type 0 where
  pub statuses : List ℕ
  pub steps : List Step
  pub exit_code : ℕ

-- `_set_analysis_status`.
abbrev pub set_analysis_status : Bool → ℕ → List ℕ
set_analysis_status carried_out status = if carried_out then status ∷ [] else []

abbrev pub finish : Surroundings → List Step × Bool → Run
finish env (tried, true) = record {
  statuses =
      append (set_analysis_status env.starts status_running)
        (set_analysis_status env.ends status_done);
  steps = tried;
  exit_code = 0;
}
finish env (tried, false) = record {
  statuses =
      append (set_analysis_status env.starts status_running)
        (set_analysis_status env.ends status_failed);
  steps = tried;
  exit_code = 1;
}

-- `main`. The directory is made before the `try`.
unfoldable pub analyze : Surroundings → String → Run
unfolding try_steps steps_of
analyze env tid =
    if not env.work_dir_made
    then record {
      statuses = set_analysis_status env.starts status_running;
      steps = [];
      exit_code = 1;
    }
    else finish env (try_steps env.succeeds (steps_of env.resolve tid))
