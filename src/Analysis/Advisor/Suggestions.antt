-- ===== src/Analysis/Advisor/Suggestions.antt =====
-- analysis_advisor.py: what `run_analysis` leaves in the table of the suggestions.
use mathlib.Core.List.{◌++◌, append_assoc, append-nil}
use mini_drop.Base.{
  String, Bool, true, false, not, ◌&&◌, ◌||◌, if◌then◌else◌, Option, none, some, List, [], ◌∷◌, map,
  filter, ◌≡◌, refl, sym, ap, ◌∙◌, arith, Bool-cases, inl, inr,
}
use mini_drop.Analysis.Collapsed.{Text, is_text, FuncStat}
use mini_drop.Analysis.Advisor.{
  Rule, match_rule, Advice, gives, analysis_error, other_error, get_ai_suggestion, Suggestion,
  Setting, caught, new_suggestion, suggest, insert_row, insert_all, transaction, with_rules,
  run_analysis,
}

-- The suggestion of the first of some rules.
abbrev pub first_suggestion : List Rule → Text
first_suggestion [] = []
first_suggestion (rule ∷ rules) = rule.suggestion

match_rule_lem :
    (re_search : Text → Text → Bool) (name : Text) (rules : List Rule)
    → match_rule re_search name rules
      ≡ first_suggestion (filter (λ r. re_search r.pattern name) rules)
unfolding match_rule
match_rule_lem re_search name [] = refl
match_rule_lem re_search name (rule ∷ rules) = elim (Bool-cases (re_search rule.pattern name)) [
  | inl hit ↦ rw hit refl
  | inr miss ↦ rw miss (match_rule_lem re_search name rules)
]

abbrev pub is_caught : Advice → Bool
is_caught (gives text) = true
is_caught analysis_error = true
is_caught other_error = false

abbrev pub text_of : Advice → Text
text_of (gives text) = text
text_of analysis_error = []
text_of other_error = []

caught_lem : (a : Advice) → caught a ≡ (if is_caught a then some (text_of a) else none)
caught_lem (gives text) = refl
caught_lem analysis_error = refl
caught_lem other_error = refl

module _ (env : Setting) (tid : String) (enable_llm : Bool) where
  -- The suggestion of the first rule that matches.
  abbrev pub rule_text : List Rule → FuncStat → Text
  rule_text rules stat = first_suggestion (filter (λ r. env.re_search r.pattern stat.name) rules)

  -- Whether the model is asked.
  abbrev pub is_asked : List Rule → FuncStat → Bool
  is_asked rules stat = enable_llm && is_text (rule_text rules stat)

  abbrev pub advice : List Rule → FuncStat → Advice
  advice rules stat = get_ai_suggestion env.llm stat.name (rule_text rules stat)

  abbrev pub row_of : List Rule → FuncStat → Suggestion
  row_of rules stat = record {
    tid = tid;
    func = stat.name;
    suggestion = rule_text rules stat;
    ai_suggestion = if is_asked rules stat then text_of (advice rules stat) else [];
    status = if is_text (rule_text rules stat) then 1 else 0;
  }

  -- Whether a row comes about and is taken.
  abbrev pub row_passes : List Rule → FuncStat → Bool
  row_passes rules stat =
      (not (is_asked rules stat) || is_caught (advice rules stat))
      && env.accepts (row_of rules stat)

  abbrev pub all_pass : List Rule → List FuncStat → Bool
  all_pass rules [] = true
  all_pass rules (stat ∷ stats) = row_passes rules stat && all_pass rules stats

  abbrev pub passes : Option (List Rule) → List FuncStat → Bool
  passes none stats = false
  passes (some rules) stats = env.connects && all_pass rules stats && env.commits

  abbrev pub rows_of : Option (List Rule) → List FuncStat → List Suggestion
  rows_of none stats = []
  rows_of (some rules) stats = map (row_of rules) stats

  suggested : Bool → Advice → Text → Text → Option Suggestion
  suggested asked a name text = elim (if asked then caught a else some []) [
    | none ↦ none
    | some ai_text ↦ some (new_suggestion tid name text ai_text)
  ]

  suggested_lem :
      (enable : Bool) (a : Advice) (name text : Text)
      → suggested (enable && is_text text) a name text ≡ (
          if not (enable && is_text text) || is_caught a
          then some (record {
            tid = tid;
            func = name;
            suggestion = text;
            ai_suggestion = if enable && is_text text then text_of a else [];
            status = if is_text text then 1 else 0;
          })
          else none)
  unfolding suggested
  suggested_lem enable a name [] = ground arith
  suggested_lem false a name (c ∷ s) = refl
  suggested_lem true (gives text) name (c ∷ s) = refl
  suggested_lem true analysis_error name (c ∷ s) = refl
  suggested_lem true other_error name (c ∷ s) = refl

  suggest_lem :
      (rules : List Rule) (stat : FuncStat)
      → suggest env tid enable_llm rules stat ≡ (
          if not (is_asked rules stat) || is_caught (advice rules stat)
          then some (row_of rules stat)
          else none)
  unfolding suggest suggested
  suggest_lem rules stat =
      ap
        (λ text.
          suggested (enable_llm && is_text text) (get_ai_suggestion env.llm stat.name text)
            stat.name text)
        (match_rule_lem env.re_search stat.name rules)
      ∙ suggested_lem enable_llm (advice rules stat) stat.name (rule_text rules stat)

  insert_row_lem :
      (b : Bool) (row : Suggestion) (table : List Suggestion)
      → insert_row env (if b then some row else none) table
        ≡ (if b && env.accepts row then some (table ++ (row ∷ [])) else none)
  insert_row_lem true row table = refl
  insert_row_lem false row table = refl

  inserted : List Rule → List FuncStat → Option (List Suggestion) → Option (List Suggestion)
  inserted rules stats none = none
  inserted rules stats (some longer) = insert_all env tid enable_llm rules stats longer

  insert_all_lem :
      (rules : List Rule) (stats : List FuncStat) (table : List Suggestion)
      → insert_all env tid enable_llm rules stats table
        ≡ (if all_pass rules stats then some (table ++ map (row_of rules) stats) else none)
  unfolding insert_all inserted
  insert_all_lem rules [] table = ap some (sym (append-nil table))
  insert_all_lem rules (stat ∷ stats) table =
      let row = row_of rules stat in
      let asked = not (is_asked rules stat) || is_caught (advice rules stat) in
      let longer = table ++ (row ∷ []) in
      let rest = insert_all_lem rules stats longer in
      ap (λ o. inserted rules stats (insert_row env o table)) (suggest_lem rules stat)
      ∙ ap (inserted rules stats) (insert_row_lem asked row table)
      ∙ elim (Bool-cases (row_passes rules stat)) [
        | inl good ↦ rw good (
            rest
            ∙ ap (λ t. if all_pass rules stats then some t else none)
                (append_assoc table (row ∷ []) (map (row_of rules) stats)))
        | inr bad ↦ rw bad refl
      ]

  transaction_lem :
      (connects all : Bool) (table after : List Suggestion)
      → (if not connects
          then (table, false)
          else transaction env table (if all then some after else none))
        ≡ (if connects && all && env.commits then (after, true) else (table, false))
  transaction_lem false all table after = refl
  transaction_lem true false table after = refl
  transaction_lem true true table after = refl

  with_rules_lem :
      (rules : Option (List Rule)) (stats : List FuncStat) (table : List Suggestion)
      → with_rules env tid enable_llm rules stats table
        ≡ (if passes rules stats then (table ++ rows_of rules stats, true) else (table, false))
  with_rules_lem none stats table = refl
  with_rules_lem (some rules) stats table =
      ap (λ o. if not env.connects then (table, false) else transaction env table o)
        (insert_all_lem rules stats table)
      ∙ transaction_lem env.connects (all_pass rules stats) table
          (table ++ map (row_of rules) stats)

  -- For every table: if the rules can be read, the database is reached, no exception but an AnalysisError
  -- comes from the language model, and every row and the commit are taken, the table grows by one row for
  -- each function in their order, and nothing is raised; otherwise the table stays as it was, and an
  -- exception is raised. A row carries the suggestion of the first rule that matches, the text of the
  -- model where it was asked (only with such a suggestion) and answered, and status 1 exactly if there is
  -- such a suggestion.
  pub run_analysis_lem :
      (top_funcs : List FuncStat) (table : List Suggestion)
      → run_analysis env tid enable_llm top_funcs table ≡ (
          if passes env.rules top_funcs
          then (table ++ rows_of env.rules top_funcs, true)
          else (table, false))
  unfolding run_analysis
  run_analysis_lem top_funcs table = with_rules_lem env.rules top_funcs table
