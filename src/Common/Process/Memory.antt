-- ===== src/Common/Process/Memory.antt =====
-- drop/common/Process.cpp, `ReadRssKb`: the line of the file that it reads.
use mathlib.Core.List.{◌++◌, append_assoc}
use mini_drop.Base.{
  ℕ, ◌^◌, ◌<◌, String, false, true, eqb, Option, none, some, List, [], ◌∷◌, ◌≡◌, refl, arith, All,
  All-append, ap, ◌∙◌, subst, sym,
}
use mini_drop.Base.Int.{ℤ}
use mini_drop.Base.Decimal.{digits, digits-All}
use mini_drop.Common.Scanf.{bytes, is_space, lines, after_key, scan_number, to_llu}
use mini_drop.Common.Scanf.Printed.{print, to_bytes, scan_number-print, scan_number-space}
use mini_drop.Common.Process.{proc_path, scan_llu, find_rss, read_rss_kb}

-- Lines, each with its newline.
abbrev pub with_newlines : List (List ℕ) → List ℕ
with_newlines [] = []
with_newlines (line ∷ rest) = line ++ (b'\n' ∷ with_newlines rest)

-- No newline in the line.
abbrev pub IsLine : List ℕ → Type 0
IsLine = All (λ c. eqb c b'\n' ≡ false)

pub lines-line :
    (line text : List ℕ) → IsLine line → lines (line ++ (b'\n' ∷ text)) ≡ line ∷ lines text
unfolding lines
lines-line [] text h = refl
lines-line (c ∷ line) text h = rw (h.0, lines-line line text h.1) refl

pub lines-with_newlines :
    (ls : List (List ℕ)) (text : List ℕ)
    → All IsLine ls
    → lines (with_newlines ls ++ text) ≡ ls ++ lines text
lines-with_newlines [] text h = refl
lines-with_newlines (line ∷ ls) text h =
    subst (λ t. lines t ≡ line ∷ (ls ++ lines text))
      (sym (append_assoc line (b'\n' ∷ with_newlines ls) text))
      (lines-line line (with_newlines ls ++ text) h.0
        ∙ ap (λ r. line ∷ r) (lines-with_newlines ls text h.1))

find_rss-skip :
    (ls rest : List (List ℕ))
    → All (λ line. after_key (bytes "VmRSS:") line ≡ none) ls
    → find_rss (ls ++ rest) ≡ find_rss rest
unfolding find_rss
find_rss-skip [] rest h = refl
find_rss-skip (line ∷ ls) rest h = rw (h.0, find_rss) (find_rss-skip ls rest h.1)

-- Blanks within a line.
abbrev pub AreBlank : List ℕ → Type 0
AreBlank = All (λ c. (is_space c ≡ true) × (eqb c b'\n' ≡ false))

-- The line as the kernel prints it.
abbrev pub rss_line : List ℕ → ℕ → List ℕ
rss_line blanks n = bytes "VmRSS:" ++ (blanks ++ (print n ++ bytes " kB"))

IsLine-blanks : (blanks : List ℕ) → AreBlank blanks → IsLine blanks
IsLine-blanks [] h = tt
IsLine-blanks (c ∷ blanks) h = (h.0.1, IsLine-blanks blanks h.1)

pub IsLine-to_bytes : (ds : List ℕ) → All (λ d. d < 10) ds → IsLine (to_bytes ds)
IsLine-to_bytes [] h = tt
IsLine-to_bytes (d ∷ ds) h = (ground arith, IsLine-to_bytes ds h.1)

rss_line-IsLine : (blanks : List ℕ) (n : ℕ) → AreBlank blanks → IsLine (rss_line blanks n)
rss_line-IsLine blanks n h =
    All-append (λ c. eqb c b'\n' ≡ false) (bytes "VmRSS:") _
      (refl, (refl, (refl, (refl, (refl, (refl, tt))))))
      (All-append (λ c. eqb c b'\n' ≡ false) blanks _ (IsLine-blanks blanks h)
        (All-append (λ c. eqb c b'\n' ≡ false) (print n) _
          (IsLine-to_bytes (digits n) (digits-All n)) (refl, (refl, (refl, tt)))))

scan_number-blanks :
    (blanks text : List ℕ) → AreBlank blanks → scan_number (blanks ++ text) ≡ scan_number text
scan_number-blanks [] text h = refl
scan_number-blanks (c ∷ blanks) text h =
    scan_number-space c (blanks ++ text) h.0.0 ∙ scan_number-blanks blanks text h.1

find_rss-line :
    (blanks : List ℕ) (n : ℕ) (rest : List (List ℕ))
    → AreBlank blanks
    → n < 2 ^ 64
    → find_rss (rss_line blanks n ∷ rest) ≡ n
unfolding find_rss after_key scan_llu to_llu
find_rss-line blanks n rest h small =
    ap (λ r. elim r.0 [ none ↦ 0 | some m ↦ to_llu m ])
      (scan_number-blanks blanks _ h ∙ scan_number-print n b' ' (bytes "kB") refl)
    ∙ ground arith

-- `ReadRssKb` gives the number of the first line that begins with `VmRSS:`, for every number of 64 bits
-- and every run of blanks before it, whatever the lines before and the text after are. No line before
-- it begins so.
pub read_rss_kb-rss_line :
    (files : String → Option (List ℕ)) (pid : ℤ) (before : List (List ℕ)) (blanks : List ℕ) (n : ℕ)
    (text : List ℕ)
    → files (proc_path pid "status")
      ≡ some (with_newlines before ++ (rss_line blanks n ++ (b'\n' ∷ text)))
    → All IsLine before
    → All (λ line. after_key (bytes "VmRSS:") line ≡ none) before
    → AreBlank blanks
    → n < 2 ^ 64
    → read_rss_kb files pid ≡ n
unfolding read_rss_kb
read_rss_kb-rss_line files pid before blanks n text opened good other blank small =
    rw (opened, read_rss_kb)
      (ap find_rss (
          lines-with_newlines before (rss_line blanks n ++ (b'\n' ∷ text)) good
          ∙ ap (λ r. before ++ r)
              (lines-line (rss_line blanks n) text (rss_line-IsLine blanks n blank)))
        ∙ find_rss-skip before (rss_line blanks n ∷ lines text) other
        ∙ find_rss-line blanks n (lines text) blank small)
