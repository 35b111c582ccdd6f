-- ===== src/Common/Log/Threshold.antt =====
-- Log.cpp: which messages the minimum level lets through.
use mathlib.Core.List.{Sublistᴰ}
use mini_drop.Base.{
  ◌≤◌, ◌<◌, ◌⊎◌, Option, some, none, String, ◌≡◌, refl, inl, inr, List, [], ◌∷◌, arith, ltb, ltb→lt,
  Bool-cases,
}
use mini_drop.Common.Log.{
  Level, debug, info, warn, error, severity, level_name, parse_level, Log, line, write, write_all,
  append_line,
}

-- The name of a level, written in the configuration, selects that level.
pub parse_level-level_name : (l : Level) → parse_level (level_name l) ≡ l
unfolding parse_level level_name
parse_level-level_name debug = refl
parse_level-level_name info = refl
parse_level-level_name warn = refl
parse_level-level_name error = refl

write_cases :
    (log : Log) (time : String) (level : Level) (msg : String)
    → ((severity level < severity log.min_level) × (write log time level msg ≡ none))
      ⊎ ((severity log.min_level ≤ severity level)
          × (write log time level msg ≡ some (line time level msg)))
unfolding write
write_cases log time level msg = elim (Bool-cases (ltb (severity level) (severity log.min_level))) [
  | inl hidden ↦ inl (ltb→lt _ _ hidden, rw hidden)
  | inr shown ↦ inr (ground arith, rw shown)
]

-- A higher minimum level prints a part of what a lower one prints, in the same order.
pub write_all-Sublist :
    (low high : Log) (calls : List (String × Level × String))
    → severity low.min_level ≤ severity high.min_level
    → Sublistᴰ (write_all high calls) (write_all low calls)
unfolding write_all
write_all-Sublist low high [] h = Sublistᴰ.slnil
write_all-Sublist low high ((time, level, msg) ∷ calls) h =
    let rest = write_all-Sublist low high calls h in
    elim (write_cases low time level msg) [
      | inl (less, hidden) ↦ elim (write_cases high time level msg) [
        | inl (_, hidden_too) ↦ rw (hidden, hidden_too) rest
        | inr (more, _) ↦ absurd (omega arith)
      ]
      | inr (_, shown) ↦ elim (write_cases high time level msg) [
        | inl (_, hidden) ↦ rw (shown, hidden) (Sublistᴰ.cons rest)
        | inr (_, shown_too) ↦ rw (shown, shown_too) (Sublistᴰ.cons-cons refl rest)
      ]
    ]

-- The lines of the calls of `Error`.
abbrev pub error_lines : List (String × Level × String) → List String
error_lines [] = []
error_lines ((time, error, msg) ∷ calls) = line time error msg ∷ error_lines calls
error_lines ((time, _, msg) ∷ calls) = error_lines calls

Sublist-append_line :
    (o : Option String) (xs ys : List String) → Sublistᴰ xs ys → Sublistᴰ xs (append_line o ys)
Sublist-append_line none xs ys s = s
Sublist-append_line (some l) xs ys s = Sublistᴰ.cons s

-- Whatever level the configuration names, no error is hidden: the lines of the errors are printed,
-- in the order of the calls.
pub error_lines-Sublist :
    (log : Log) (calls : List (String × Level × String))
    → Sublistᴰ (error_lines calls) (write_all log calls)
unfolding write_all
error_lines-Sublist log [] = Sublistᴰ.slnil
error_lines-Sublist log ((time, error, msg) ∷ calls) = elim (write_cases log time error msg) [
  | inl (less, _) ↦ absurd (ground arith)
  | inr (_, shown) ↦ rw shown (Sublistᴰ.cons-cons refl (error_lines-Sublist log calls))
]
error_lines-Sublist log ((time, debug, msg) ∷ calls) =
    Sublist-append_line (write log time debug msg) _ _ (error_lines-Sublist log calls)
error_lines-Sublist log ((time, _, msg) ∷ calls) =
    Sublist-append_line (write log time _ msg) _ _ (error_lines-Sublist log calls)
