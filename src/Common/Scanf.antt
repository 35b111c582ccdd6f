-- ===== src/Common/Scanf.antt =====
-- The part of `scanf` and `getline` that drop/common/Process.cpp uses, on the bytes of a file: `%d`,
-- `%lld`, `%llu` and `%255s`. A conversion that fails leaves the byte that it stops at.
pub mod Printed
use Prim.Native.String.{String}
use Prim.Native.Char.{code}
use mini_drop.Base.{
  ℕ, zero, suc, ◌+◌, ◌-◌, ◌%◌, ◌^◌, Bool, true, false, ◌&&◌, ◌||◌, eqb, leb, ltb, if◌then◌else◌,
  Option, none, some, List, [], ◌∷◌,
}
use mini_drop.Base.Int.{ℤ, pos, negsuc}
use mini_drop.Base.Decimal.{value_onto}

abbrev pub bytes : String → List ℕ
bytes String.[] = []
bytes (String.◌∷◌ c s) = code c ∷ bytes s

-- `isspace`.
abbrev pub is_space : ℕ → Bool
is_space c = eqb c b' ' || (leb 9 c && leb c 13)

abbrev pub digit_of : ℕ → Option ℕ
digit_of c = if leb b'0' c && leb c b'9' then some (c - b'0') else none

unfoldable pub skip_spaces : List ℕ → List ℕ
skip_spaces [] = []
skip_spaces (c ∷ s) = let rest = skip_spaces s in if is_space c then rest else c ∷ s

unfoldable pub scan_digits : List ℕ → List ℕ × List ℕ
scan_digits [] = ([], [])
scan_digits (c ∷ s) =
    let rest = scan_digits s in
    elim (digit_of c) [ none ↦ ([], c ∷ s) | some d ↦ (d ∷ rest.0, rest.1) ]

-- Whether the number is negative.
unfoldable pub scan_sign : List ℕ → Bool × List ℕ
scan_sign [] = (false, [])
scan_sign (c ∷ s) =
    if eqb c b'-' then (true, s) else if eqb c b'+' then (false, s) else (false, c ∷ s)

abbrev pub Number : Type 0
Number = Bool × ℕ

unfoldable pub number_of : Bool → List ℕ → Option Number
number_of negative [] = none
number_of negative (d ∷ ds) = some (negative, value_onto 0 (d ∷ ds))

-- The text that the three integer conversions read, before it is put into its type.
unfoldable pub scan_number : List ℕ → Option Number × List ℕ
unfolding scan_sign scan_digits skip_spaces number_of
scan_number s =
    let signed = scan_sign (skip_spaces s) in
    let scanned = scan_digits signed.1 in (number_of signed.0 scanned.0, scanned.1)

abbrev at_most : ℕ → ℕ → ℕ
at_most bound n = if leb n bound then n else bound

abbrev negate : ℕ → ℤ
negate zero = pos zero
negate (suc n) = negsuc n

-- `%lld`, which stops at the ends of its range.
unfoldable pub to_lld : Number → ℤ
to_lld (false, n) = pos (at_most (2 ^ 63 - 1) n)
to_lld (true, n) = negate (at_most (2 ^ 63) n)

-- `%llu`, which stops at the end of its range; the sign is applied to the unsigned value.
unfoldable pub to_llu : Number → ℕ
to_llu (false, n) = at_most (2 ^ 64 - 1) n
to_llu (true, n) = if ltb n (2 ^ 64) then (2 ^ 64 - n) % 2 ^ 64 else 2 ^ 64 - 1

-- `%255s` after its blanks, with its bound.
unfoldable pub scan_word : ℕ → List ℕ → List ℕ × List ℕ
scan_word zero s = ([], s)
scan_word (suc n) [] = ([], [])
scan_word (suc n) (c ∷ s) =
    let rest = scan_word n s in if is_space c then ([], c ∷ s) else (c ∷ rest.0, rest.1)

abbrev onto_first : ℕ → List (List ℕ) → List (List ℕ)
onto_first c [] = (c ∷ []) ∷ []
onto_first c (line ∷ lines) = (c ∷ line) ∷ lines

-- The lines that the loop over `getline` sees: a last line counts without its newline too.
unfoldable pub lines : List ℕ → List (List ℕ)
lines [] = []
lines (c ∷ s) = let rest = lines s in if eqb c b'\n' then [] ∷ rest else onto_first c rest

-- `compare(0, n, key) == 0`: what follows the key, where the line begins with it.
unfoldable pub after_key : List ℕ → List ℕ → Option (List ℕ)
after_key [] line = some line
after_key (k ∷ key) [] = none
after_key (k ∷ key) (c ∷ line) = let rest = after_key key line in if eqb k c then rest else none
