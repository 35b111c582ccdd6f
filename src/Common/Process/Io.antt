-- ===== src/Common/Process/Io.antt =====
-- drop/common/Process.cpp, `ReadIoBytes`: the two lines of the file that it reads.
use mathlib.Core.List.{◌++◌, append-nil}
use mini_drop.Base.{
  ℕ, ◌^◌, ◌<◌, String, Option, none, some, List, [], ◌∷◌, ◌≡◌, refl, arith, All, All-append, ap,
  ◌∙◌, sym,
}
use mini_drop.Base.Int.{ℤ}
use mini_drop.Base.Decimal.{digits, digits-All}
use mini_drop.Common.Scanf.{bytes, lines, after_key, to_llu}
use mini_drop.Common.Scanf.Printed.{print, scan_number-print_end, scan_number-space}
use mini_drop.Common.Process.{proc_path, scan_llu, io_line, io_lines, read_io_bytes}
use mini_drop.Common.Process.Memory.{with_newlines, IsLine, lines-with_newlines, IsLine-to_bytes}

-- A line of the file: its key with the colon, a blank, and the number.
abbrev pub field : String → ℕ → List ℕ
field key n = bytes key ++ (b' ' ∷ (print n ++ []))

-- Neither of the two keys begins the line.
abbrev pub IsOtherLine : List ℕ → Type 0
IsOtherLine line =
    (after_key (bytes "read_bytes:") line ≡ none) × (after_key (bytes "write_bytes:") line ≡ none)

io_lines-other :
    (io : ℕ × ℕ) (ls rest : List (List ℕ))
    → All IsOtherLine ls
    → io_lines io (ls ++ rest) ≡ io_lines io rest
unfolding io_lines after_key
io_lines-other io [] rest h = refl
io_lines-other io (line ∷ ls) rest h =
    ap (λ x. io_lines x (ls ++ rest)) (io_line-other io line h.0) ∙ io_lines-other io ls rest h.1
  where
    io_line-other : (io : ℕ × ℕ) (line : List ℕ) → IsOtherLine line → io_line io line ≡ io
    io_line-other io line (h1, h2) = unfold io_line in rw (h1, h2) refl

scan_llu-printed : (old n : ℕ) → n < 2 ^ 64 → scan_llu old (b' ' ∷ (print n ++ [])) ≡ n
unfolding scan_llu to_llu
scan_llu-printed old n small =
    ap (λ r. elim r.0 [ none ↦ old | some m ↦ to_llu m ])
      (scan_number-space b' ' (print n ++ []) refl ∙ scan_number-print_end n)
    ∙ ground arith

io_lines-fields :
    (n m : ℕ) (later : List (List ℕ))
    → n < 2 ^ 64
    → m < 2 ^ 64
    → All IsOtherLine later
    → io_lines (0, 0) (field "read_bytes:" n ∷ field "write_bytes:" m ∷ later) ≡ (n, m)
unfolding io_lines io_line after_key
io_lines-fields n m later h1 h2 other =
    ap (λ r. io_lines (r, scan_llu 0 (b' ' ∷ (print m ++ []))) later) (scan_llu-printed 0 n h1)
    ∙ ap (λ w. io_lines (n, w) later) (scan_llu-printed 0 m h2)
    ∙ ap (λ ls. io_lines (n, m) ls) (sym (append-nil later))
    ∙ io_lines-other (n, m) later [] other

abbrev pub io_file : List (List ℕ) → ℕ → ℕ → List (List ℕ) → List (List ℕ)
io_file before n m later = before ++ (field "read_bytes:" n ∷ field "write_bytes:" m ∷ later)

field-IsLine : (key : String) (n : ℕ) → IsLine (bytes key) → IsLine (field key n)
field-IsLine key n h =
    All-append _ (bytes key) _ h
      (refl, All-append _ (print n) [] (IsLine-to_bytes (digits n) (digits-All n)) tt)

bytes-IsLine_read : IsLine (bytes "read_bytes:")
bytes-IsLine_read =
    (refl, (refl, (refl, (refl, (refl, (refl, (refl, (refl, (refl, (refl, (refl, tt)))))))))))

bytes-IsLine_write : IsLine (bytes "write_bytes:")
bytes-IsLine_write = (
  refl,
  (refl, (refl, (refl, (refl, (refl, (refl, (refl, (refl, (refl, (refl, (refl, tt))))))))))),
)

-- The file as the kernel prints it, a key with a number on each line: `ReadIoBytes` gives the numbers of
-- the two keys, for all numbers of 64 bits, if the lines before and after begin with neither key.
read_io_bytes-io_file :
    (files : String → Option (List ℕ)) (pid : ℤ) (before later : List (List ℕ)) (n m : ℕ)
    → files (proc_path pid "io") ≡ some (with_newlines (io_file before n m later))
    → All IsLine before
    → All IsLine later
    → All IsOtherLine before
    → All IsOtherLine later
    → n < 2 ^ 64
    → m < 2 ^ 64
    → read_io_bytes files pid ≡ (n, m)
unfolding read_io_bytes
read_io_bytes-io_file files pid before later n m opened good_before good_later h1 h2 small_n
      small_m =
    rw (opened, read_io_bytes)
      (ap (io_lines (0, 0)) (
          lines-file (io_file before n m later) (
            All-append _ before _ good_before (
              field-IsLine "read_bytes:" n bytes-IsLine_read,
              (field-IsLine "write_bytes:" m bytes-IsLine_write, good_later),
            )))
        ∙ io_lines-other (0, 0) before _ h1
        ∙ io_lines-fields n m later small_n small_m h2)
  where
    lines-file : (ls : List (List ℕ)) → All IsLine ls → lines (with_newlines ls) ≡ ls
    lines-file ls h =
        unfold lines in
        ap lines (sym (append-nil (with_newlines ls))) ∙ lines-with_newlines ls [] h ∙ append-nil ls
