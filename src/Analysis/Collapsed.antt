-- ===== src/Analysis/Collapsed.antt =====
-- analysis/hotmethod_common.py: the functions of a file of collapsed stacks, by their counts. A text is the
-- list of its code points. `int` is taken on ASCII digits.
pub mod Sorting
pub mod Totals
pub mod Top
use mathlib.Core.List.{◌++◌}
use mini_drop.Base.{
  ℕ, zero, suc, ◌+◌, ◌*◌, String, Bool, true, false, not, ◌&&◌, ◌||◌, eqb, leb, Key, ◌==◌,
  if◌then◌else◌, Option, none, some, List, [], ◌∷◌, map, take, filter, ◌≡◌, ◌↔◌, refl, arith,
}
use mini_drop.Base.Int.{ℤ, pos, negsuc, ◌+ℤ◌, leb_ℤ}
use mini_drop.Base.Dict.{Dict, insert, get_or}
use mini_drop.Common.Scanf.{digit_of}

abbrev pub Text : Type 0
Text = List ℕ

abbrev same_text : Text → Text → Bool
same_text [] [] = true
same_text (c ∷ s) (d ∷ t) = eqb c d && same_text s t
same_text _ _ = false

pub same_text_iff : (s t : Text) → (same_text s t ≡ true) ↔ (s ≡ t)
same_text_iff [] [] = ground arith
same_text_iff [] (d ∷ t) = ground arith
same_text_iff (c ∷ s) [] = ground arith
same_text_iff (c ∷ s) (d ∷ t) = ground (arith, same_text_iff s t)

instance abbrev pub text_eq : Key Text
text_eq = record { same = same_text; same_iff = same_text_iff }

-- `str.isspace`.
abbrev pub is_space : ℕ → Bool
is_space c =
    (leb 9 c && leb c 13)
    || (leb 28 c && leb c 32)
    || eqb c 133
    || eqb c 160
    || eqb c 5760
    || (leb 8192 c && leb c 8202)
    || eqb c 8232
    || eqb c 8233
    || eqb c 8239
    || eqb c 8287
    || eqb c 12288

abbrev pub is_line_end : ℕ → Bool
is_line_end c =
    (leb 10 c && leb c 13) || (leb 28 c && leb c 30) || eqb c 133 || eqb c 8232 || eqb c 8233

abbrev pub lstrip : Text → Text
lstrip [] = []
lstrip (c ∷ s) = let rest = lstrip s in if is_space c then rest else c ∷ s

abbrev unless_blank : ℕ → Text → Text
unless_blank c [] = if is_space c then [] else c ∷ []
unless_blank c (d ∷ s) = c ∷ d ∷ s

abbrev pub rstrip : Text → Text
rstrip [] = []
rstrip (c ∷ s) = unless_blank c (rstrip s)

unfoldable pub strip : Text → Text
strip s = rstrip (lstrip s)

abbrev onto_first : ℕ → List Text → List Text
onto_first c [] = (c ∷ []) ∷ []
onto_first c (piece ∷ pieces) = (c ∷ piece) ∷ pieces

-- The pieces between the characters of a kind: `split(";")`; and `splitlines()` but for empty lines, which
-- the caller skips.
unfoldable pub split_on : (ℕ → Bool) → Text → List Text
split_on is_sep [] = [] ∷ []
split_on is_sep (c ∷ s) =
    let rest = split_on is_sep s in if is_sep c then [] ∷ rest else onto_first c rest

-- `rsplit(" ", 1)`, with `none` where it gives one part.
unfoldable pub split_last : Text → Option (Text × Text)
split_last [] = none
split_last (c ∷ s) = elim (split_last s) [
  | some (stack, n_str) ↦ some (c ∷ stack, n_str)
  | none ↦ if eqb c b' ' then some ([], s) else none
]

-- Digits with single underscores between them; `after` is whether a digit stands before.
unfoldable pub int_digits : Bool → ℕ → Text → Option ℕ
int_digits after n [] = if after then some n else none
int_digits after n (c ∷ s) = elim (digit_of c) [
  | some d ↦ int_digits true (n * 10 + d) s
  | none ↦ elim (after && eqb c b'_') [ true ↦ int_digits false n s | false ↦ none ]
]

abbrev positive : Option ℕ → Option ℤ
positive none = none
positive (some n) = some (pos n)

abbrev negative : Option ℕ → Option ℤ
negative none = none
negative (some zero) = some (pos 0)
negative (some (suc n)) = some (negsuc n)

abbrev int_signed : Text → Option ℤ
int_signed [] = none
int_signed (c ∷ s) =
    if eqb c b'-'
    then negative (int_digits false 0 s)
    else if eqb c b'+'
    then positive (int_digits false 0 s)
    else positive (int_digits false 0 (c ∷ s))

-- `int(n_str)`, with `none` for a ValueError.
unfoldable pub int : Text → Option ℤ
unfolding int_digits strip
int s = int_signed (strip s)

abbrev pub is_text : Text → Bool
is_text [] = false
is_text (c ∷ s) = true

-- The functions of a stack.
unfoldable pub functions_of : Text → List Text
unfolding split_on strip
functions_of stack = filter is_text (map strip (split_on (λ c. eqb c b';') stack))

abbrev pub Sample : Type 0
Sample = List Text × ℤ

abbrev with_count : List Text → Option ℤ → Option Sample
with_count names none = none
with_count names (some n) = some (names, n)

abbrev sample_of_parts : Option (Text × Text) → Option Sample
sample_of_parts none = none
sample_of_parts (some (stack, n_str)) = with_count (functions_of stack) (int n_str)

-- What a line says; `none` where the loop goes on with the next.
unfoldable pub sample_of : Text → Option Sample
unfolding functions_of int split_last strip
sample_of line = sample_of_parts (split_last (strip line))

-- `counts[func] = counts.get(func, 0) + n` for each function of a stack.
unfoldable pub add_names : ℤ → List Text → Dict Text ℤ → Dict Text ℤ
unfolding insert get_or
add_names n [] counts = counts
add_names n (func ∷ funcs) counts =
    add_names n funcs (insert func (get_or func (pos 0) counts +ℤ n) counts)

abbrev pub add_sample : Option Sample → Dict Text ℤ → Dict Text ℤ
add_sample none counts = counts
add_sample (some (names, n)) counts = add_names n names counts

unfoldable pub add_lines : List Text → Dict Text ℤ → Dict Text ℤ
unfolding add_names sample_of
add_lines [] counts = counts
add_lines (line ∷ lines) counts = add_lines lines (add_sample (sample_of line) counts)

pub record FuncStat : Type 0 where
  pub name : Text
  pub count : ℤ

abbrev pub stats_of : Dict Text ℤ → List FuncStat
stats_of [] = []
stats_of ((k, v) ∷ counts) = record { name = k; count = v } ∷ stats_of counts

-- `sort` by falling count; it is stable.
unfoldable pub insert_stat : FuncStat → List FuncStat → List FuncStat
insert_stat x [] = x ∷ []
insert_stat x (y ∷ ys) =
    let rest = insert_stat x ys in if leb_ℤ y.count x.count then x ∷ y ∷ ys else y ∷ rest

unfoldable pub sort_stats : List FuncStat → List FuncStat
unfolding insert_stat
sort_stats [] = []
sort_stats (x ∷ xs) = insert_stat x (sort_stats xs)

unfoldable pub parse_collapsed : Text → List FuncStat
unfolding sort_stats add_lines split_on
parse_collapsed text = sort_stats (stats_of (add_lines (split_on is_line_end text) []))

unfoldable pub top_n : Text → ℕ → List FuncStat
unfolding parse_collapsed
top_n text n = take n (parse_collapsed text)
