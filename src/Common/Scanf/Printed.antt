-- ===== src/Common/Scanf/Printed.antt =====
-- drop/common/Process.cpp: what the conversions read of a number that the kernel has printed.
use mathlib.Core.List.{◌++◌}
use mini_drop.Base.{
  ℕ, ◌+◌, ◌<◌, false, eqb, ◌||◌, none, some, List, [], ◌∷◌, map, ◌≡◌, ◌≢◌, refl, true, subst, arith,
  All,
}
use mini_drop.Base.Decimal.{digits, digits-All, digits-ne-nil, value-digits, value_onto}
use mini_drop.Common.Scanf.{
  is_space, digit_of, skip_spaces, scan_sign, scan_digits, scan_number, number_of,
}

abbrev pub to_bytes : List ℕ → List ℕ
to_bytes ds = map (λ d. b'0' + d) ds

abbrev pub print : ℕ → List ℕ
print n = to_bytes (digits n)

-- A byte that no conversion reads: no digit, no sign and no blank.
abbrev pub IsOther : ℕ → Type 0
IsOther c = (is_space c ≡ false) × (digit_of c ≡ none) × ((eqb c b'-' || eqb c b'+') ≡ false)

digit_of-digit : (d : ℕ) → d < 10 → digit_of (b'0' + d) ≡ some d
digit_of-digit d h = ground arith

scan_digits-to_bytes :
    (ds : List ℕ) (c : ℕ) (rest : List ℕ)
    → All (λ d. d < 10) ds
    → digit_of c ≡ none
    → scan_digits (to_bytes ds ++ (c ∷ rest)) ≡ (ds, c ∷ rest)
unfolding scan_digits
scan_digits-to_bytes [] c rest small stop = ground arith
scan_digits-to_bytes (d ∷ ds) c rest small stop =
    ground (arith, scan_digits-to_bytes ds c rest small.1 stop)

scan_digits-to_bytes_end :
    (ds : List ℕ) → All (λ d. d < 10) ds → scan_digits (to_bytes ds ++ []) ≡ (ds, [])
unfolding scan_digits
scan_digits-to_bytes_end [] small = refl
scan_digits-to_bytes_end (d ∷ ds) small = ground (arith, scan_digits-to_bytes_end ds small.1)

pub skip_spaces-space :
    (c : ℕ) (rest : List ℕ) → is_space c ≡ true → skip_spaces (c ∷ rest) ≡ skip_spaces rest
unfolding skip_spaces
skip_spaces-space c rest h = rw h refl

pub skip_spaces-other :
    (c : ℕ) (rest : List ℕ) → is_space c ≡ false → skip_spaces (c ∷ rest) ≡ c ∷ rest
unfolding skip_spaces
skip_spaces-other c rest h = rw h refl

-- Nothing is read of a byte that belongs to no number, and it is left where it is.
pub scan_number-other :
    (c : ℕ) (rest : List ℕ) → IsOther c → scan_number (c ∷ rest) ≡ (none, c ∷ rest)
unfolding scan_number scan_sign scan_digits number_of
scan_number-other c rest (h1, h2, h3) = rw (skip_spaces-other c rest h1) (ground arith)

pub scan_number-space :
    (c : ℕ) (rest : List ℕ) → is_space c ≡ true → scan_number (c ∷ rest) ≡ scan_number rest
unfolding scan_number skip_spaces
scan_number-space c rest h = rw h refl

scan_number-to_bytes :
    (ds tail : List ℕ)
    → All (λ d. d < 10) ds
    → ds ≢ []
    → scan_digits (to_bytes ds ++ tail) ≡ (ds, tail)
    → scan_number (to_bytes ds ++ tail) ≡ (some (false, value_onto 0 ds), tail)
unfolding scan_number number_of
scan_number-to_bytes [] tail small some_digit read = absurd (some_digit refl)
scan_number-to_bytes (d ∷ ds) tail small some_digit read =
    rw (skip_spaces-digit, scan_sign-digit, read) refl
  where
    skip_spaces-digit : skip_spaces (to_bytes (d ∷ ds) ++ tail) ≡ to_bytes (d ∷ ds) ++ tail
    skip_spaces-digit = skip_spaces-other (b'0' + d) (to_bytes ds ++ tail) (ground arith)

    scan_sign-digit : scan_sign (to_bytes (d ∷ ds) ++ tail) ≡ (false, to_bytes (d ∷ ds) ++ tail)
    scan_sign-digit = unfold scan_sign in ground arith

scan_number-digits :
    (n : ℕ) (tail : List ℕ)
    → scan_digits (print n ++ tail) ≡ (digits n, tail)
    → scan_number (print n ++ tail) ≡ (some (false, n), tail)
scan_number-digits n tail read =
    subst (λ v. scan_number (print n ++ tail) ≡ (some (false, v), tail)) (value-digits n)
      (scan_number-to_bytes (digits n) tail (digits-All n) (digits-ne-nil n) read)

-- A printed number is read back, up to the byte after it,
pub scan_number-print :
    (n c : ℕ) (rest : List ℕ)
    → digit_of c ≡ none
    → scan_number (print n ++ (c ∷ rest)) ≡ (some (false, n), c ∷ rest)
scan_number-print n c rest stop =
    scan_number-digits n (c ∷ rest) (scan_digits-to_bytes (digits n) c rest (digits-All n) stop)

-- and up to the end of the line.
pub scan_number-print_end : (n : ℕ) → scan_number (print n ++ []) ≡ (some (false, n), [])
scan_number-print_end n =
    scan_number-digits n [] (scan_digits-to_bytes_end (digits n) (digits-All n))
