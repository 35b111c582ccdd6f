-- ===== src/Base/Lists.antt =====
-- Lists over the native numbers, under the library's names.
use Prim.Native.Nat.{ℕ, zero, suc, ◌+◌, ◌-◌, ◌≤◌}
use mathlib.Core.Path.{◌≡◌, refl, sym, ap, ◌∙◌, subst}
use mathlib.Core.Logic.{◌≢◌}
use mathlib.Core.List.{List, [], ◌∷◌, ◌++◌, append_assoc, Sublistᴰ}
use mathlib.Core.List.Sublistᴰ
use native.Mathlib.Omega.{arith}
use mathlib.Core.Bool.{Bool, true, false}
use mini_drop.Base.Tests.{if◌then◌else◌}

module _ {ℓ} {A : Type ℓ} where
  abbrev pub length : List A → ℕ
  length [] = 0
  length (x ∷ xs) = suc (length xs)

  abbrev pub take : ℕ → List A → List A
  take zero xs = []
  take (suc n) [] = []
  take (suc n) (x ∷ xs) = x ∷ take n xs

  abbrev pub drop : ℕ → List A → List A
  drop zero xs = xs
  drop (suc n) [] = []
  drop (suc n) (x ∷ xs) = drop n xs

  abbrev pub filter : (A → Bool) → List A → List A
  filter p [] = []
  filter p (x ∷ xs) = if p x then x ∷ filter p xs else filter p xs

  -- `push_back` of `std::deque` and `std::vector`, `push` of `std::queue`.
  abbrev pub push_back : List A → A → List A
  push_back [] a = a ∷ []
  push_back (x ∷ xs) a = x ∷ push_back xs a

  pub length-append : (xs ys : List A) → length (xs ++ ys) ≡ length xs + length ys
  length-append [] ys = omega arith
  length-append (x ∷ xs) ys = omega (arith, length-append xs ys)

  pub length-push_back : (xs : List A) (a : A) → length (push_back xs a) ≡ suc (length xs)
  length-push_back [] a = refl
  length-push_back (x ∷ xs) a = omega (arith, length-push_back xs a)

  pub append-push_back : (xs ys : List A) (a : A) → xs ++ push_back ys a ≡ push_back (xs ++ ys) a
  append-push_back [] ys a = refl
  append-push_back (x ∷ xs) ys a = λ i. x ∷ append-push_back xs ys a i

  pub push_back-append : (xs ys : List A) (a : A) → push_back xs a ++ ys ≡ xs ++ (a ∷ ys)
  push_back-append [] ys a = refl
  push_back-append (x ∷ xs) ys a = λ i. x ∷ push_back-append xs ys a i

  pub push_back-append_nil : (xs : List A) (a : A) → push_back xs a ≡ xs ++ (a ∷ [])
  push_back-append_nil [] a = refl
  push_back-append_nil (x ∷ xs) a = λ i. x ∷ push_back-append_nil xs a i

  -- A predicate that holds of every element; it computes to tuples.
  abbrev pub All {κ} : (A → Type κ) → List A → Type κ
  All P [] = Unit
  All P (x ∷ xs) = P x × All P xs

  pub All-push_back {κ} :
      (P : A → Type κ) (xs : List A) (a : A) → All P xs → P a → All P (push_back xs a)
  All-push_back P [] a ps p = (p, tt)
  All-push_back P (x ∷ xs) a ps p = (ps.0, All-push_back P xs a ps.1 p)

  pub push_back-ne-nil : (xs : List A) (a : A) → push_back xs a ≢ []
  push_back-ne-nil [] a h = cc
  push_back-ne-nil (x ∷ xs) a h = cc

  pub All-append {κ} : (P : A → Type κ) (xs ys : List A) → All P xs → All P ys → All P (xs ++ ys)
  All-append P [] ys ps qs = qs
  All-append P (x ∷ xs) ys ps qs = (ps.0, All-append P xs ys ps.1 qs)

  pub take_append : (xs ys : List A) → take (length xs) (xs ++ ys) ≡ xs
  take_append [] ys = refl
  take_append (x ∷ xs) ys = ap (◌∷◌ x) (take_append xs ys)

  pub drop_append : (xs ys : List A) → drop (length xs) (xs ++ ys) ≡ ys
  drop_append [] ys = refl
  drop_append (x ∷ xs) ys = drop_append xs ys

  pub filter-All : (p : A → Bool) (xs : List A) → All (λ x. p x ≡ true) xs → filter p xs ≡ xs
  filter-All p [] h = refl
  filter-All p (x ∷ xs) h = rw h.0 (ap (◌∷◌ x) (filter-All p xs h.1))

  pub filter-none : (p : A → Bool) (xs : List A) → All (λ x. p x ≡ false) xs → filter p xs ≡ []
  filter-none p [] h = refl
  filter-none p (x ∷ xs) h = rw h.0 (filter-none p xs h.1)

  pub take-drop : (n : ℕ) (xs : List A) → take n xs ++ drop n xs ≡ xs
  take-drop zero xs = refl
  take-drop (suc n) [] = refl
  take-drop (suc n) (x ∷ xs) = ap (◌∷◌ x) (take-drop n xs)

  pub length-drop : (n : ℕ) (xs : List A) → length (drop n xs) ≤ length xs - n
  length-drop zero xs = omega arith
  length-drop (suc n) [] = omega arith
  length-drop (suc n) (x ∷ xs) = omega (arith, length-drop n xs)

  pub length-zero : (xs : List A) → length xs ≤ 0 → xs ≡ []
  length-zero [] h = refl
  length-zero (x ∷ xs) h = absurd (omega arith)

  pub All-take {κ} : (P : A → Type κ) (n : ℕ) (xs : List A) → All P xs → All P (take n xs)
  All-take P zero xs h = tt
  All-take P (suc n) [] h = tt
  All-take P (suc n) (x ∷ xs) h = (h.0, All-take P n xs h.1)

  pub All-drop {κ} : (P : A → Type κ) (n : ℕ) (xs : List A) → All P xs → All P (drop n xs)
  All-drop P zero xs h = h
  All-drop P (suc n) [] h = tt
  All-drop P (suc n) (x ∷ xs) h = All-drop P n xs h.1

  -- A step of a run that moves elements along: `a` leave and `g` join in the step, `b` leave and `e` join
  -- after it.
  pub append_step :
      (a b c d e f g : List A) → b ++ c ≡ d ++ e → a ++ d ≡ f ++ g → (a ++ b) ++ c ≡ f ++ (g ++ e)
  append_step a b c d e f g later now =
      append_assoc a b c
      ∙ ap (◌++◌ a) later
      ∙ sym (append_assoc a d e)
      ∙ ap (λ xs. xs ++ e) now
      ∙ append_assoc f g e

  -- The same where some are dropped on the way.
  pub sublist_step :
      (a b c d e f g : List A)
      → Sublistᴰ (b ++ c) (d ++ e)
      → Sublistᴰ (a ++ d) (f ++ g)
      → Sublistᴰ ((a ++ b) ++ c) (f ++ (g ++ e))
  sublist_step a b c d e f g later now =
      subst (λ xs. Sublistᴰ xs (f ++ (g ++ e))) (sym (append_assoc a b c))
        (subst (Sublistᴰ (a ++ (b ++ c))) (append_assoc f g e) (
          Sublistᴰ.trans (Sublistᴰ.append (Sublistᴰ.refl a) later) (
            subst (λ xs. Sublistᴰ xs ((f ++ g) ++ e)) (append_assoc a d e)
              (Sublistᴰ.append now (Sublistᴰ.refl e)))))
