-- ===== src/Base/Decimal.antt =====
-- `std::to_string` of an integer.
use Prim.Native.Nat.{ℕ, zero, suc, ◌+◌, ◌*◌, ◌/◌, ◌%◌, ◌<◌}
use Prim.Native.String.{String}
use Prim.Native.String.{◌++◌ as text_append}
use mathlib.Core.Path.{◌≡◌, refl}
use mathlib.Core.List.{List, [], ◌∷◌}
use native.Mathlib.Omega.{arith}
use mathlib.Core.Logic.{◌≢◌, inl, inr}
use mini_drop.Base.Tests.{ltb, ltb→lt, Bool-cases, if◌then◌else◌}
use mini_drop.Base.Lists.{push_back, All, All-push_back, push_back-ne-nil}
use mini_drop.Base.Int.{ℤ, pos, negsuc}

-- The decimal digits, most significant first; `n + 1` rounds are always enough.
digits_fuel : ℕ → ℕ → List ℕ
digits_fuel zero n = []
digits_fuel (suc f) n =
    let rest = digits_fuel f (n / 10) in if ltb n 10 then n ∷ [] else push_back rest (n % 10)

unfoldable pub digits : ℕ → List ℕ
unfolding digits_fuel
digits n = digits_fuel (suc n) n

abbrev digit_text : ℕ → String
digit_text zero = "0"
digit_text (suc zero) = "1"
digit_text (suc (suc zero)) = "2"
digit_text (suc (suc (suc zero))) = "3"
digit_text (suc (suc (suc (suc zero)))) = "4"
digit_text (suc (suc (suc (suc (suc zero))))) = "5"
digit_text (suc (suc (suc (suc (suc (suc zero)))))) = "6"
digit_text (suc (suc (suc (suc (suc (suc (suc zero))))))) = "7"
digit_text (suc (suc (suc (suc (suc (suc (suc (suc zero)))))))) = "8"
digit_text _ = "9"

abbrev digits_text : List ℕ → String
digits_text [] = ""
digits_text (d ∷ ds) = text_append (digit_text d) (digits_text ds)

unfoldable pub to_string : ℕ → String
unfolding digits
to_string n = digits_text (digits n)

unfoldable pub to_string_ℤ : ℤ → String
unfolding to_string
to_string_ℤ (pos n) = to_string n
to_string_ℤ (negsuc n) = text_append "-" (to_string (suc n))

-- The number that a list of digits stands for, read from the left onto `acc`.
abbrev pub value_onto : ℕ → List ℕ → ℕ
value_onto acc [] = acc
value_onto acc (d ∷ ds) = value_onto (acc * 10 + d) ds

value_onto-push_back :
    (acc : ℕ) (ds : List ℕ) (d : ℕ) → value_onto acc (push_back ds d) ≡ value_onto acc ds * 10 + d
value_onto-push_back acc [] d = refl
value_onto-push_back acc (x ∷ ds) d = value_onto-push_back (acc * 10 + x) ds d

value-digits_fuel : (f n : ℕ) → n < f → value_onto 0 (digits_fuel f n) ≡ n
unfolding digits_fuel
value-digits_fuel zero n h = absurd (omega arith)
value-digits_fuel (suc f) n h =
    ground (
      arith,
      value_onto-push_back 0 (digits_fuel f (n / 10)) (n % 10),
      value-digits_fuel f (n / 10),
    )

pub value-digits : (n : ℕ) → value_onto 0 (digits n) ≡ n
unfolding digits
value-digits n = value-digits_fuel (suc n) n (omega arith)

digits_fuel-All : (f n : ℕ) → All (λ d. d < 10) (digits_fuel f n)
unfolding digits_fuel
digits_fuel-All zero n = tt
digits_fuel-All (suc f) n = elim (Bool-cases (ltb n 10)) [
  | inl small ↦ rw small (ltb→lt n 10 small, tt)
  | inr large ↦
      rw large (
        All-push_back _ (digits_fuel f (n / 10)) (n % 10) (digits_fuel-All f (n / 10))
          (omega arith))
]

pub digits-All : (n : ℕ) → All (λ d. d < 10) (digits n)
unfolding digits
digits-All n = digits_fuel-All (suc n) n

digits_fuel-ne-nil : (f n : ℕ) → digits_fuel (suc f) n ≢ []
unfolding digits_fuel
digits_fuel-ne-nil f n h = ground (arith, push_back-ne-nil (digits_fuel f (n / 10)) (n % 10))

pub digits-ne-nil : (n : ℕ) → digits n ≢ []
unfolding digits
digits-ne-nil n = digits_fuel-ne-nil n n

to_string_test : to_string 4294967295 ≡ "4294967295"
unfolding to_string
to_string_test = refl
