-- ===== src/Analysis/Collapsed/Sorting.antt =====
-- hotmethod_common.py: the list of results that `parse_collapsed` makes of the counts and sorts.
use mini_drop.Base.{
  Bool, true, false, ◌==◌, if◌then◌else◌, Option, none, some, List, [], ◌∷◌, ◌≡◌, refl, sym, ap,
  ◌∙◌, subst, arith, Bool-cases, inl, inr,
}
use mini_drop.Base.Int.{ℤ, leb_ℤ}
use mini_drop.Base.Dict.{Dict, lookup, insert, lookup-insert}
use mini_drop.Analysis.Collapsed.{
  Text, text_eq, same_text_iff, FuncStat, stats_of, insert_stat, sort_stats,
}

-- The count that a list of results gives a function.
abbrev pub count_of : Text → List FuncStat → Option ℤ
count_of f [] = none
count_of f (x ∷ xs) = if x.name == f then some x.count else count_of f xs

-- No function stands in two results.
abbrev pub Distinct : List FuncStat → Type 0
Distinct [] = Unit
Distinct (x ∷ xs) = (count_of x.name xs ≡ none) × Distinct xs

abbrev pub below : ℤ → List FuncStat → Bool
below n [] = true
below n (x ∷ xs) = leb_ℤ x.count n

-- The counts fall.
abbrev pub IsDescending : List FuncStat → Type 0
IsDescending [] = Unit
IsDescending (x ∷ xs) = (below x.count xs ≡ true) × IsDescending xs

pub count_of-stats_of : (f : Text) (m : Dict Text ℤ) → count_of f (stats_of m) ≡ lookup f m
unfolding lookup
count_of-stats_of f [] = refl
count_of-stats_of f ((k, v) ∷ m) = ap (λ o. if k == f then some v else o) (count_of-stats_of f m)

count_of-insert_stat :
    (f : Text) (x : FuncStat) (xs : List FuncStat)
    → count_of x.name xs ≡ none
    → count_of f (insert_stat x xs) ≡ count_of f (x ∷ xs)
unfolding insert_stat
count_of-insert_stat f x [] h = refl
count_of-insert_stat f x (y ∷ ys) h = ground (
  arith,
  count_of-insert_stat f x ys,
  same_text_iff y.name f,
  same_text_iff x.name f,
  same_text_iff y.name x.name,
)

pub count_of-sort_stats :
    (f : Text) (xs : List FuncStat) → Distinct xs → count_of f (sort_stats xs) ≡ count_of f xs
unfolding sort_stats
count_of-sort_stats f [] d = refl
count_of-sort_stats f (x ∷ xs) d =
    count_of-insert_stat f x (sort_stats xs) (count_of-sort_stats x.name xs d.1 ∙ d.0)
    ∙ ap (λ o. if x.name == f then some x.count else o) (count_of-sort_stats f xs d.1)

Distinct-insert_stat :
    (x : FuncStat) (xs : List FuncStat)
    → count_of x.name xs ≡ none
    → Distinct xs
    → Distinct (insert_stat x xs)
unfolding insert_stat
Distinct-insert_stat x [] h d = (refl, tt)
Distinct-insert_stat x (y ∷ ys) h d =
    let new : count_of x.name ys ≡ none = ground arith in
    let other : count_of y.name (x ∷ ys) ≡ none =
      ground (arith, d.0, same_text_iff x.name y.name, same_text_iff y.name x.name) in
    elim (Bool-cases (leb_ℤ y.count x.count)) [
      | inl le ↦ rw le (h, d)
      | inr gt ↦
          rw gt (count_of-insert_stat y.name x ys new ∙ other, Distinct-insert_stat x ys new d.1)
    ]

below-insert_stat :
    (n : ℤ) (x : FuncStat) (xs : List FuncStat)
    → leb_ℤ x.count n ≡ true
    → below n xs ≡ true
    → below n (insert_stat x xs) ≡ true
unfolding insert_stat
below-insert_stat n x [] h1 h2 = h1
below-insert_stat n x (y ∷ ys) h1 h2 = ground arith

IsDescending-insert_stat :
    (x : FuncStat) (xs : List FuncStat) → IsDescending xs → IsDescending (insert_stat x xs)
unfolding insert_stat
IsDescending-insert_stat x [] h = (refl, tt)
IsDescending-insert_stat x (y ∷ ys) h = elim (Bool-cases (leb_ℤ y.count x.count)) [
  | inl le ↦ rw le (le, h)
  | inr gt ↦
      let less : leb_ℤ x.count y.count ≡ true = ground arith in
      rw gt (below-insert_stat y.count x ys less h.0, IsDescending-insert_stat x ys h.1)
]

pub Distinct-sort_stats : (xs : List FuncStat) → Distinct xs → Distinct (sort_stats xs)
unfolding sort_stats
Distinct-sort_stats [] d = tt
Distinct-sort_stats (x ∷ xs) d =
    Distinct-insert_stat x (sort_stats xs) (count_of-sort_stats x.name xs d.1 ∙ d.0)
      (Distinct-sort_stats xs d.1)

pub IsDescending-sort_stats : (xs : List FuncStat) → IsDescending (sort_stats xs)
unfolding sort_stats
IsDescending-sort_stats [] = tt
IsDescending-sort_stats (x ∷ xs) =
    IsDescending-insert_stat x (sort_stats xs) (IsDescending-sort_stats xs)

-- One entry for each key, as results.
pub Distinct-stats_of-insert :
    (f : Text) (n : ℤ) (m : Dict Text ℤ)
    → Distinct (stats_of m)
    → Distinct (stats_of (insert f n m))
unfolding insert
Distinct-stats_of-insert f n [] d = (refl, tt)
Distinct-stats_of-insert f n ((k, v) ∷ m) d = elim (Bool-cases (k == f)) [
  | inl same ↦
      rw same (subst (λ j. count_of j (stats_of m) ≡ none) ((same_text_iff k f).0 same) d.0, d.1)
  | inr other ↦
      let not_new : (f == k) ≡ false = ground (arith, same_text_iff f k, same_text_iff k f) in
      rw other (
        count_of-stats_of k (insert f n m)
            ∙ lookup-insert f k n m
            ∙ rw not_new (sym (count_of-stats_of k m) ∙ d.0),
        Distinct-stats_of-insert f n m d.1,
      )
]
