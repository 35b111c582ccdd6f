-- ===== src/Analysis/Collapsed/Totals.antt =====
-- hotmethod_common.py: the counts of `parse_collapsed` against the sum over the lines.
use mini_drop.Base.{
  Bool, true, false, ◌==◌, if◌then◌else◌, Option, none, some, List, [], ◌∷◌, ◌≡◌, refl, sym, ap,
  ◌∙◌, Bool-cases, inl, inr,
}
use mini_drop.Base.Int.{ℤ, pos, ◌+ℤ◌, +ℤ_assoc, zero-+ℤ}
use mini_drop.Base.Dict.{Dict, lookup, insert, get_or, lookup-insert}
use mini_drop.Analysis.Collapsed.{
  Text, text_eq, same_text_iff, Sample, sample_of, is_line_end, split_on, add_names, add_sample,
  add_lines, stats_of, parse_collapsed,
}
use mini_drop.Analysis.Collapsed.Sorting.{
  Distinct, IsDescending, count_of, count_of-stats_of, count_of-sort_stats, Distinct-sort_stats,
  IsDescending-sort_stats, Distinct-stats_of-insert,
}

-- A sum that says whether it has summands.
abbrev pub add_to : Option ℤ → Option ℤ → Option ℤ
add_to none b = b
add_to (some a) none = some a
add_to (some a) (some b) = some (a +ℤ b)

add_to_assoc : (a b c : Option ℤ) → add_to (add_to a b) c ≡ add_to a (add_to b c)
add_to_assoc none b c = refl
add_to_assoc (some a) none c = refl
add_to_assoc (some a) (some b) none = refl
add_to_assoc (some a) (some b) (some c) = ap some (+ℤ_assoc a b c)

-- The count of a stack, once for each place where the function stands in it.
abbrev pub share : Text → ℤ → List Text → Option ℤ
share f n [] = none
share f n (g ∷ names) = if g == f then add_to (some n) (share f n names) else share f n names

abbrev pub share_of : Text → Option Sample → Option ℤ
share_of f none = none
share_of f (some (names, n)) = share f n names

-- The sum over the lines; `none` if the function stands in no stack.
abbrev pub total : Text → List Text → Option ℤ
total f [] = none
total f (line ∷ lines) = add_to (share_of f (sample_of line)) (total f lines)

add_to-none : (o : Option ℤ) → add_to o none ≡ o
add_to-none none = refl
add_to-none (some a) = refl

added :
    (o : Option ℤ) (n : ℤ) → some ((elim o [ none ↦ pos 0 | some v ↦ v ]) +ℤ n) ≡ add_to o (some n)
added none n = ap some (zero-+ℤ n)
added (some v) n = refl

lookup-add_one :
    (f g : Text) (n : ℤ) (m : Dict Text ℤ)
    → lookup f (insert g (get_or g (pos 0) m +ℤ n) m)
      ≡ (if g == f then add_to (lookup f m) (some n) else lookup f m)
unfolding get_or
lookup-add_one f g n m =
    lookup-insert g f (get_or g (pos 0) m +ℤ n) m ∙ elim (Bool-cases (g == f)) [
      | inl same ↦ rw same (
          added (lookup g m) n
          ∙ ap (λ k. add_to (lookup k m) (some n)) ((same_text_iff g f).0 same))
      | inr other ↦ rw other refl
    ]

shared :
    (b : Bool) (o : Option ℤ) (n : ℤ) (rest : Option ℤ)
    → add_to (if b then add_to o (some n) else o) rest
      ≡ add_to o (if b then add_to (some n) rest else rest)
shared true o n rest = add_to_assoc o (some n) rest
shared false o n rest = refl

lookup-add_names :
    (f : Text) (n : ℤ) (names : List Text) (m : Dict Text ℤ)
    → lookup f (add_names n names m) ≡ add_to (lookup f m) (share f n names)
unfolding add_names
lookup-add_names f n [] m = sym (add_to-none (lookup f m))
lookup-add_names f n (g ∷ names) m =
    lookup-add_names f n names (insert g (get_or g (pos 0) m +ℤ n) m)
    ∙ ap (λ o. add_to o (share f n names)) (lookup-add_one f g n m)
    ∙ shared (g == f) (lookup f m) n (share f n names)

lookup-add_sample :
    (f : Text) (o : Option Sample) (m : Dict Text ℤ)
    → lookup f (add_sample o m) ≡ add_to (lookup f m) (share_of f o)
lookup-add_sample f none m = sym (add_to-none (lookup f m))
lookup-add_sample f (some (names, n)) m = lookup-add_names f n names m

lookup-add_lines :
    (f : Text) (lines : List Text) (m : Dict Text ℤ)
    → lookup f (add_lines lines m) ≡ add_to (lookup f m) (total f lines)
unfolding add_lines
lookup-add_lines f [] m = sym (add_to-none (lookup f m))
lookup-add_lines f (line ∷ lines) m =
    lookup-add_lines f lines (add_sample (sample_of line) m)
    ∙ ap (λ o. add_to o (total f lines)) (lookup-add_sample f (sample_of line) m)
    ∙ add_to_assoc (lookup f m) (share_of f (sample_of line)) (total f lines)

Distinct-add_names :
    (n : ℤ) (names : List Text) (m : Dict Text ℤ)
    → Distinct (stats_of m)
    → Distinct (stats_of (add_names n names m))
unfolding add_names
Distinct-add_names n [] m d = d
Distinct-add_names n (g ∷ names) m d =
    Distinct-add_names n names (insert g (get_or g (pos 0) m +ℤ n) m)
      (Distinct-stats_of-insert g (get_or g (pos 0) m +ℤ n) m d)

Distinct-add_sample :
    (o : Option Sample) (m : Dict Text ℤ)
    → Distinct (stats_of m)
    → Distinct (stats_of (add_sample o m))
Distinct-add_sample none m d = d
Distinct-add_sample (some (names, n)) m d = Distinct-add_names n names m d

Distinct-add_lines :
    (lines : List Text) (m : Dict Text ℤ)
    → Distinct (stats_of m)
    → Distinct (stats_of (add_lines lines m))
unfolding add_lines
Distinct-add_lines [] m d = d
Distinct-add_lines (line ∷ lines) m d =
    Distinct-add_lines lines (add_sample (sample_of line) m)
      (Distinct-add_sample (sample_of line) m d)

-- For every text and every function: the results stand by falling count, no function stands in two of
-- them, and this one has a result exactly if it stands in the stack of some line that can be read, with
-- the sum of the counts of these lines, each as often as the function stands in its stack.
pub parse_collapsed-total :
    (text f : Text)
    → IsDescending (parse_collapsed text)
      × Distinct (parse_collapsed text)
      × (count_of f (parse_collapsed text) ≡ total f (split_on is_line_end text))
unfolding parse_collapsed
parse_collapsed-total text f =
    let lines = split_on is_line_end text in
    let counts = add_lines lines [] in
    let distinct = Distinct-add_lines lines [] tt in
    (
      IsDescending-sort_stats (stats_of counts),
      Distinct-sort_stats (stats_of counts) distinct,
      count_of-sort_stats f (stats_of counts) distinct
          ∙ count_of-stats_of f counts
          ∙ unfold lookup in lookup-add_lines f lines [],
    )
