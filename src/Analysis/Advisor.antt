-- ===== src/Analysis/Advisor.antt =====
-- analysis/analysis_advisor.py and analysis/llm_advisor.py: the suggestions for the hottest functions of a
-- task. `re.search`, the language model and PostgreSQL are not part of the program: they enter by what they
-- answer.
pub mod Suggestions
use mathlib.Core.List.{◌++◌}
use mini_drop.Base.{
  ℕ, String, Bool, true, false, not, ◌&&◌, ◌||◌, if◌then◌else◌, Option, none, some, List, [], ◌∷◌,
}
use mini_drop.Common.Scanf.{bytes}
use mini_drop.Analysis.Collapsed.{Text, is_text, strip, FuncStat}

pub record Rule : Type 0 where
  pub pattern : Text
  pub suggestion : Text

-- `_match_rule`.
unfoldable pub match_rule : (Text → Text → Bool) → Text → List Rule → Text
match_rule re_search func_name [] = []
match_rule re_search func_name (rule ∷ rules) =
    let rest = match_rule re_search func_name rules in
    if re_search rule.pattern func_name then rule.suggestion else rest

-- How a call ends: with a text, with an AnalysisError, or with another exception.
pub data Advice : Type 0 where
  gives : Text → Advice
  analysis_error : Advice
  other_error : Advice

-- The environment variables; whether `OpenAI(...)` can be made of a key and a URL; and what a model answers
-- to a prompt, `none` for an exception or an answer without content.
pub record Llm : Type 0 where
  pub environ : String → Option Text
  pub client : Text → Text → Bool
  pub complete : Text → Text → Option Text

abbrev or_default : Text → Option Text → Text
or_default default none = default
or_default default (some value) = value

abbrev pub environ_or : Llm → String → Text → Text
environ_or llm key default = or_default default (llm.environ key)

unfoldable pub prompt : Text → Text → Text
prompt func_name rule_suggestion =
    bytes "You are a Linux performance engineering expert. During CPU profiling a function named '"
    ++ (func_name
        ++ (bytes "' was identified as a hotspot. Preliminary rule-based analysis says: "
            ++ (rule_suggestion
                ++ bytes
                    "\n\nGive a concise, actionable optimization recommendation in 2-3 sentences. Focus on concrete code-level changes, not general advice.")))

abbrev answered : Option Text → Advice
answered none = analysis_error
answered (some content) = gives (strip content)

unfoldable pub get_ai_suggestion : Llm → Text → Text → Advice
get_ai_suggestion llm func_name rule_suggestion =
    let api_key = strip (environ_or llm "LLM_API_KEY" []) in
    let base_url = strip (environ_or llm "LLM_BASE_URL" []) in
    let model = environ_or llm "LLM_MODEL" (bytes "gemini-1.5-flash") in
    if not (is_text api_key) || not (is_text base_url)
    then gives []
    else if not (llm.client api_key base_url)
    then other_error
    else answered (llm.complete model (prompt func_name rule_suggestion))

-- A row of `analysis_suggestion`.
pub record Suggestion : Type 0 where
  pub tid : String
  pub func : Text
  pub suggestion : Text
  pub ai_suggestion : Text
  pub status : ℕ

-- What a run meets; the rules are `none` if the file cannot be read.
pub record Setting : Type 0 where
  pub rules : Option (List Rule)
  pub re_search : Text → Text → Bool
  pub llm : Llm
  pub connects : Bool
  pub accepts : Suggestion → Bool
  pub commits : Bool

-- The `except` round the model; `none` for an exception that goes on.
abbrev pub caught : Advice → Option Text
caught (gives text) = some text
caught analysis_error = some []
caught other_error = none

abbrev pub ai_suggestion_for : Llm → Bool → Text → Text → Option Text
ai_suggestion_for llm enable_llm func suggestion =
    if enable_llm && is_text suggestion
    then caught (get_ai_suggestion llm func suggestion)
    else some []

abbrev pub new_suggestion : String → Text → Text → Text → Suggestion
new_suggestion tid name text ai_text = record {
  tid = tid;
  func = name;
  suggestion = text;
  ai_suggestion = ai_text;
  status = if is_text text || is_text ai_text then 1 else 0;
}

module _ (env : Setting) where
  abbrev pub insert_row : Option Suggestion → List Suggestion → Option (List Suggestion)
  insert_row none table = none
  insert_row (some row) table = if env.accepts row then some (table ++ (row ∷ [])) else none

  -- `with conn`: the table afterwards, and whether there was no exception.
  abbrev pub transaction : List Suggestion → Option (List Suggestion) → List Suggestion × Bool
  transaction table none = (table, false)
  transaction table (some after) = if env.commits then (after, true) else (table, false)

module _ (env : Setting) (tid : String) (enable_llm : Bool) where
  -- The row for a function.
  unfoldable pub suggest : List Rule → FuncStat → Option Suggestion
  unfolding match_rule get_ai_suggestion
  suggest rules stat =
      let text = match_rule env.re_search stat.name rules in
      elim (ai_suggestion_for env.llm enable_llm stat.name text) [
        | none ↦ none
        | some ai_text ↦ some (new_suggestion tid stat.name text ai_text)
      ]

  -- The `for`; `none` for an exception.
  unfoldable pub insert_all : List Rule → List FuncStat → List Suggestion → Option (List Suggestion)
  unfolding suggest
  insert_all rules [] table = some table
  insert_all rules (stat ∷ stats) table = elim (insert_row env (suggest rules stat) table) [
    | none ↦ none
    | some longer ↦ insert_all rules stats longer
  ]

  abbrev pub with_rules :
      Option (List Rule) → List FuncStat → List Suggestion → List Suggestion × Bool
  with_rules none stats table = (table, false)
  with_rules (some rules) stats table =
      if not env.connects
      then (table, false)
      else transaction env table (insert_all rules stats table)

  unfoldable pub run_analysis : List FuncStat → List Suggestion → List Suggestion × Bool
  unfolding insert_all
  run_analysis top_funcs table = with_rules env.rules top_funcs table
