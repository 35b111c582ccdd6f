-- ===== src/Common/Process/Ticks.antt =====
-- drop/common/Process.cpp, `ReadCpuTicks`: what it reads of a line as the kernel prints it.
use mathlib.Core.List.{◌++◌}
use mini_drop.Base.{
  ℕ, zero, suc, ◌≤◌, String, false, Option, some, List, [], ◌∷◌, ◌≡◌, ◌≢◌, ◌∙◌, refl, arith, All,
  length, ap,
}
use mini_drop.Base.Int.{ℤ}
use mini_drop.Common.Scanf.{is_space, scan_word, skip_spaces}
use mini_drop.Common.Scanf.Printed.{
  print, IsOther, scan_number-print, scan_number-other, scan_number-space, skip_spaces-space,
  skip_spaces-other,
}
use mini_drop.Common.Process.{
  proc_path, after_pid, skip_pid_comm, skip_fields, sum_times, read_cpu_ticks,
}

-- The process id, a name without blanks, and the byte after the blank, which is the state.
abbrev pub stat_text : ℕ → List ℕ → ℕ → List ℕ → List ℕ
stat_text n name state rest = print n ++ (b' ' ∷ (name ++ (b' ' ∷ state ∷ rest)))

pub record IsName (name : List ℕ) : Type 0 where
  pub no_blank : All (λ c. is_space c ≡ false) name
  pub some_byte : name ≢ []
  pub not_long : length name ≤ 255

scan_word-name :
    (bound : ℕ) (name rest : List ℕ)
    → All (λ c. is_space c ≡ false) name
    → length name ≤ bound
    → (scan_word bound (name ++ (b' ' ∷ rest))).1 ≡ b' ' ∷ rest
unfolding scan_word
scan_word-name zero [] rest h small = refl
scan_word-name (suc bound) [] rest h small = refl
scan_word-name zero (c ∷ name) rest h small = absurd (ground arith)
scan_word-name (suc bound) (c ∷ name) rest h small =
    ground (arith, scan_word-name bound name rest h.1)

skip_spaces-name :
    (name rest : List ℕ)
    → name ≢ []
    → All (λ c. is_space c ≡ false) name
    → skip_spaces (name ++ rest) ≡ name ++ rest
skip_spaces-name [] rest some_byte h = absurd (some_byte refl)
skip_spaces-name (c ∷ name) rest some_byte h = skip_spaces-other c (name ++ rest) h.0

skip_fields-other : (n c : ℕ) (rest : List ℕ) → IsOther c → skip_fields n (c ∷ rest) ≡ c ∷ rest
unfolding skip_fields
skip_fields-other zero c rest h = refl
skip_fields-other (suc n) c rest h =
    rw (scan_number-other c rest h, skip_fields-other n c rest h) refl

skip_pid_comm-stat_text :
    (n : ℕ) (name : List ℕ) (state : ℕ) (rest : List ℕ)
    → IsName name
    → skip_pid_comm (stat_text n name state rest) ≡ b' ' ∷ state ∷ rest
unfolding skip_pid_comm after_pid
skip_pid_comm-stat_text n name state rest h =
    ap after_pid (scan_number-print n b' ' (name ++ (b' ' ∷ state ∷ rest)) refl)
    ∙ ap (λ t. (scan_word 255 t).1)
        (skip_spaces-space b' ' _ refl
          ∙ skip_spaces-name name (b' ' ∷ state ∷ rest) h.some_byte h.no_blank)
    ∙ scan_word-name 255 name (state ∷ rest) h.no_blank h.not_long

skip_fields-state :
    (n c : ℕ) (rest : List ℕ) → IsOther c → skip_fields (suc n) (b' ' ∷ c ∷ rest) ≡ c ∷ rest
unfolding skip_fields
skip_fields-state n c rest h =
    ap (λ r. skip_fields n r.1)
      (scan_number-space b' ' (c ∷ rest) refl ∙ scan_number-other c rest h)
    ∙ skip_fields-other n c rest h

sum_times-other : (c : ℕ) (rest : List ℕ) → IsOther c → sum_times (c ∷ rest) ≡ 0
unfolding sum_times
sum_times-other c rest h = rw (scan_number-other c rest h, sum_times) refl

-- The state of a process is a letter. No conversion reads a letter or goes past it, so `ReadCpuTicks`
-- gives 0 for every line as the kernel prints it: a process id, a name without blanks, and a state
-- that is no digit, sign or blank, whatever the counters after it are.
pub read_cpu_ticks-zero :
    (files : String → Option (List ℕ)) (pid : ℤ) (n : ℕ) (name : List ℕ) (state : ℕ) (rest : List ℕ)
    → files (proc_path pid "stat") ≡ some (stat_text n name state rest)
    → IsName name
    → IsOther state
    → read_cpu_ticks files pid ≡ 0
unfolding read_cpu_ticks skip_fields
read_cpu_ticks-zero files pid n name state rest opened good letter =
    rw
      (
        opened,
        read_cpu_ticks,
        skip_pid_comm-stat_text n name state rest good,
        skip_fields-state 10 state rest letter,
      )
      (sum_times-other state rest letter)
