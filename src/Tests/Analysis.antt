-- ===== src/Tests/Analysis.antt =====
-- The theorems about the analysis at concrete inputs.
use mathlib.Core.List.{◌++◌}
use mini_drop.Base.{
  ℕ, String, string_eq, Bool, true, false, ◌==◌, some, List, [], ◌∷◌, map, All, ◌≡◌, refl, arith,
}
use mini_drop.Base.Int.{pos, ◌+ℤ◌}
use mini_drop.Common.Scanf.{bytes}
use mini_drop.ApiServer.Tasks.{Row, done_status, analysis_pending, analysis_failed}
use mini_drop.Analysis.Collapsed.{
  strip, sample_of, Text, text_eq, split_on, FuncStat, parse_collapsed,
}
use mini_drop.Analysis.Collapsed.Sorting.{IsDescending, Distinct as DistinctStats, count_of}
use mini_drop.Analysis.Collapsed.Totals.{parse_collapsed-total}
use mini_drop.Analysis.Analyzer.{Surroundings, steps_of, analyze}
use mini_drop.Analysis.Advisor.{Setting, get_ai_suggestion, run_analysis}
use mini_drop.Analysis.Advisor.Suggestions.{run_analysis_lem}
use mini_drop.Analysis.PollWorker.{
  TaskRows, statuses, with_analysis_of, Attempt, Round, poll, polls,
}
use mini_drop.Analysis.PollWorker.Rows.{contains, DistinctTids}
use mini_drop.Analysis.PollWorker.Rounds.{queue, poll-queue}
use mini_drop.Analysis.PollWorker.Attempts.{Goes}
use mini_drop.Analysis.PollWorker.Once.{suggested, suggested_once}
use mini_drop.Analysis.PollWorker.Fairness.{AllGo, polls_drain, polls_starve}
use mini_drop.Proto.Rpc.{FetchDataResponse}
use mini_drop.System.Handover.{HandsOver, acts_at, conclude-HandsOver}

-- A table that is its rows.
abbrev rows : TaskRows
rows = record {
  Table = List Row;
  rows = λ t. t;
  set_analysis = λ tid analysis t. map (with_analysis_of tid analysis) t;
  rows-set_analysis = λ tid analysis t. refl;
}

abbrev task : String → ℕ → Row
task tid analysis = record {
  tid = tid;
  name = "";
  task_type = pos 0;
  profiler_type = pos 0;
  target_ip = "10.0.0.1";
  request_params = "";
  status = done_status;
  status_info = "collection complete";
  analysis_status = analysis;
  cos_key = tid;
  uid = "u";
  user_name = "";
}

-- The analyzer reaches everything, or its storage is closed.
abbrev meets : Bool → Surroundings
meets fine = record {
  starts = true;
  ends = true;
  work_dir_made = true;
  succeeds = λ step. fine;
  resolve = λ path. path;
}

abbrev tries : Bool → Attempt
tries fine = record { connects = true; analyzer = some (meets fine); reconnects = true }

abbrev round_of : Bool → Round
round_of fine = record { queries = true; attempt = λ tid. tries fine }

abbrev two_tasks : List Row
two_tasks = task "a" analysis_pending ∷ task "b" analysis_failed ∷ []

poll-queue_example :
    (queue rows (poll rows (round_of false) two_tasks).0 ≡ "a" ∷ "b" ∷ [])
    × ((poll rows (round_of false) two_tasks).1 ≡ "a" ∷ "b" ∷ [])
unfolding analyze statuses
poll-queue_example = poll-queue rows (round_of false) two_tasks (refl, (refl, tt))

goes : (fine : Bool) (tid : String) → Goes fine tid (tries fine)
unfolding steps_of
goes true tid = record {
  env = meets true;
  connected = refl;
  started = refl;
  made = refl;
  ended = refl;
  outcome = refl;
}
goes false tid = record {
  env = meets false;
  connected = refl;
  started = refl;
  made = refl;
  ended = refl;
  outcome = refl;
}

polls_drain_example :
    ((polls rows (round_of true ∷ []) two_tasks).1 ≡ "a" ∷ "b" ∷ [])
    × (queue rows (polls rows (round_of true ∷ []) two_tasks).0 ≡ [])
polls_drain_example =
    polls_drain rows (round_of true ∷ []) two_tasks (refl, (refl, tt))
      ((refl, (goes true "a", (goes true "b", tt))), tt) (omega arith)

abbrev six_tasks : List Row
six_tasks =
    map (λ tid. task tid analysis_failed) ("a" ∷ "b" ∷ "c" ∷ "d" ∷ "e" ∷ [])
    ++ (task "f" analysis_pending ∷ [])

abbrev failing : List String
failing = "a" ∷ "b" ∷ "c" ∷ "d" ∷ "e" ∷ []

all_go : (fine : Bool) (tids : List String) → AllGo fine tids (round_of fine)
all_go fine [] = (refl, tt)
all_go fine (tid ∷ tids) = (refl, (goes fine tid, (all_go fine tids).1))

polls_starve_example :
    (queue rows (polls rows (round_of false ∷ round_of false ∷ []) six_tasks).0
      ≡ failing ++ ("f" ∷ []))
    × All
        (λ tid. contains failing tid ≡ true)
        (polls rows (round_of false ∷ round_of false ∷ []) six_tasks).1
polls_starve_example =
    polls_starve rows (round_of false ∷ round_of false ∷ []) six_tasks failing ("f" ∷ [])
      (refl, (refl, (refl, (refl, (refl, (refl, tt)))))) refl refl
      (all_go false failing, (all_go false failing, tt))

abbrev stacks : Text
stacks = bytes "main;work 3\nmain;work;work 2\nno count\nmain;idle 4\n"

parse_collapsed-total_example :
    IsDescending (parse_collapsed stacks)
    × DistinctStats (parse_collapsed stacks)
    × (count_of (bytes "work") (parse_collapsed stacks) ≡ some (pos 7))
unfolding split_on sample_of ◌+ℤ◌
parse_collapsed-total_example = parse_collapsed-total stacks (bytes "work")

abbrev advisor : Setting
advisor = record {
  rules = some (
      record { pattern = bytes "malloc"; suggestion = bytes "pool" }
      ∷ record { pattern = bytes "mall"; suggestion = bytes "never" }
      ∷ []);
  re_search = λ pattern name. pattern == name;
  llm = record {
    environ = λ key. some (bytes "x");
    client = λ key url. true;
    complete = λ model prompt. some (bytes " arena ");
  };
  connects = true;
  accepts = λ row. true;
  commits = true;
}

abbrev found : List FuncStat
found =
    record { name = bytes "malloc"; count = pos 9 }
    ∷ record { name = bytes "main"; count = pos 4 }
    ∷ []

run_analysis_lem_example : run_analysis advisor "t" true found [] ≡ (
  record {
    tid = "t";
    func = bytes "malloc";
    suggestion = bytes "pool";
    ai_suggestion = bytes "arena";
    status = 1;
  }
      ∷ record { tid = "t"; func = bytes "main"; suggestion = []; ai_suggestion = []; status = 0 }
      ∷ [],
  true,
)
unfolding get_ai_suggestion strip
run_analysis_lem_example = run_analysis_lem advisor "t" true found []

abbrev uploaded : FetchDataResponse
uploaded = record { success = true; cos_key = "t/perf.data"; error_message = "" }

conclude-HandsOver_example :
    HandsOver "t" (task "t" 2) true (acts_at "python3" "analyzer.py" "t" (pos 0) uploaded)
conclude-HandsOver_example =
    conclude-HandsOver "python3" "analyzer.py" "t" (pos 0) uploaded (task "t" 2) true refl refl

-- The first round fails, and the second gets through.
suggested_once_example :
    DistinctTids (suggested rows (round_of false ∷ round_of true ∷ []) two_tasks)
    × All
        (λ tid.
          contains (queue rows (polls rows (round_of false ∷ round_of true ∷ []) two_tasks).0) tid
          ≡ false)
        (suggested rows (round_of false ∷ round_of true ∷ []) two_tasks)
suggested_once_example =
    suggested_once rows (round_of false ∷ round_of true ∷ []) two_tasks (refl, (refl, tt))
