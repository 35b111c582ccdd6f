-- ===== src/Analysis/Collapsed/Top.antt =====
-- hotmethod_common.py: what `top_n` leaves out.
use mini_drop.Base.{
  ℕ, zero, suc, true, ◌==◌, some, List, [], ◌∷◌, take, length, All, ◌≡◌, refl, ◌∙◌, arith,
  Bool-cases, ◌⊎◌, inl, inr,
}
use mini_drop.Base.Int.{ℤ, leb_ℤ}
use mini_drop.Analysis.Collapsed.{
  Text, text_eq, is_line_end, split_on, FuncStat, parse_collapsed, top_n,
}
use mini_drop.Analysis.Collapsed.Sorting.{IsDescending, below, count_of}
use mini_drop.Analysis.Collapsed.Totals.{total, parse_collapsed-total}

leb_ℤ_trans : (a b c : ℤ) → leb_ℤ a b ≡ true → leb_ℤ b c ≡ true → leb_ℤ a c ≡ true
leb_ℤ_trans a b c h1 h2 = ground arith

-- All counts of a falling list are below what its first count is below.
below-count_of :
    (f : Text) (top c : ℤ) (xs : List FuncStat)
    → below top xs ≡ true
    → IsDescending xs
    → count_of f xs ≡ some c
    → leb_ℤ c top ≡ true
below-count_of f top c [] h d e = absurd (ground arith)
below-count_of f top c (x ∷ xs) h d e = elim (Bool-cases (x.name == f)) [
  | inl same ↦ ground arith
  | inr other ↦ leb_ℤ_trans c x.count top (below-count_of f x.count c xs d.0 d.1 (ground arith)) h
]

take-largest :
    (f : Text) (c : ℤ) (n : ℕ) (xs : List FuncStat)
    → IsDescending xs
    → count_of f xs ≡ some c
    → (count_of f (take n xs) ≡ some c)
      ⊎ ((length (take n xs) ≡ n) × All (λ x. leb_ℤ c x.count ≡ true) (take n xs))
take-largest f c zero xs d e = inr (refl, tt)
take-largest f c (suc n) [] d e = absurd (ground arith)
take-largest f c (suc n) (x ∷ xs) d e = elim (Bool-cases (x.name == f)) [
  | inl same ↦ inl (ground arith)
  | inr other ↦
      let later : count_of f xs ≡ some c = ground arith in
      let less = below-count_of f x.count c xs d.0 d.1 later in
      elim (take-largest f c n xs d.1 later) [
        | inl found ↦ inl (ground arith)
        | inr (long, above) ↦ inr (omega (arith, long), (less, above))
      ]
]

-- For every text and every function that has a total in its lines: the function is among the results with
-- this count, or there are as many results as asked for, and none of them has a smaller count.
pub top_n-largest :
    (text f : Text) (n : ℕ) (c : ℤ)
    → total f (split_on is_line_end text) ≡ some c
    → (count_of f (top_n text n) ≡ some c)
      ⊎ ((length (top_n text n) ≡ n) × All (λ x. leb_ℤ c x.count ≡ true) (top_n text n))
unfolding top_n
top_n-largest text f n c h =
    let (descending, distinct, count) = parse_collapsed-total text f in
    take-largest f c n (parse_collapsed text) descending (count ∙ h)
