-- ===== src/Tests/Process.antt =====
-- The theorems about drop/common/Process.cpp at concrete files.
use mathlib.Core.List.{◌++◌}
use mini_drop.Base.{
  ℕ, ◌*◌, ◌/◌, String, ◌==◌, string_eq, if◌then◌else◌, Option, none, some, List, [], ◌∷◌, ◌≡◌, refl,
  arith, All, length,
}
use mini_drop.Base.Int.{pos}
use mini_drop.Base.Decimal.{to_string_ℤ}
use mini_drop.Common.Scanf.{bytes, after_key}
use mini_drop.Common.Process.{FloatingPoint, read_cpu_ticks, read_rss_kb, read_io_bytes, get_stats}
use mini_drop.Common.Process.Ticks.{stat_text, IsName, read_cpu_ticks-zero}
use mini_drop.Common.Process.Memory.{with_newlines, rss_line, read_rss_kb-rss_line}
use mini_drop.Common.Process.History.{
  after, answers, asked, IsPrinted, get_stats-kb, get_stats-cpu_percent,
}

abbrev shell_stat : List ℕ
shell_stat = stat_text 7 (bytes "(sh)") b'S' (bytes " 1 7 7 0 -1 4194560 100 0 0 0 25 13 0 0 20")

abbrev shell_status : List ℕ
shell_status =
    with_newlines (bytes "Name:\tsh" ∷ [])
    ++ (rss_line (bytes "\t  ") 1536 ++ bytes "\nThreads:\t1\n")

abbrev shell_io : List ℕ
shell_io = bytes "rchar: 9\nread_bytes: 8192\nwrite_bytes: 4096\n"

abbrev proc : String → Option (List ℕ)
proc path =
    if path == "/proc/7/stat"
    then some shell_stat
    else if path == "/proc/7/status"
    then some shell_status
    else if path == "/proc/7/io"
    then some shell_io
    else none

-- Whole percents, in place of a float's bits.
abbrev rounded : FloatingPoint
rounded = record {
  hz = pos 100;
  uptime = λ text. pos (length text);
  percent = λ ticks up. ticks * 100 / up;
}

shell-IsName : IsName (bytes "(sh)")
shell-IsName = record {
  no_blank = (refl, (refl, (refl, (refl, tt))));
  some_byte = λ h. ground arith;
  not_long = omega arith;
}

read_cpu_ticks-zero_example : read_cpu_ticks proc (pos 7) ≡ 0
unfolding to_string_ℤ
read_cpu_ticks-zero_example =
    read_cpu_ticks-zero proc (pos 7) 7 (bytes "(sh)") b'S'
      (bytes " 1 7 7 0 -1 4194560 100 0 0 0 25 13 0 0 20") refl shell-IsName (refl, refl, refl)

read_rss_kb-rss_line_example : read_rss_kb proc (pos 7) ≡ 1536
unfolding to_string_ℤ
read_rss_kb-rss_line_example =
    read_rss_kb-rss_line proc (pos 7) (bytes "Name:\tsh" ∷ []) (bytes "\t  ") 1536
      (bytes "Threads:\t1\n") refl
      ((refl, (refl, (refl, (refl, (refl, (refl, (refl, (refl, tt)))))))), tt)
      (unfold after_key in refl, tt) ((refl, refl), ((refl, refl), ((refl, refl), tt)))
      (omega arith)

get_stats-kb_example :
    let stats = (get_stats rounded proc (pos 7) (after rounded ((proc, pos 7) ∷ []) [])).0 in
    (stats.read_kb ≡ (read_io_bytes proc (pos 7)).0 / 1024)
    × (stats.write_kb ≡ (read_io_bytes proc (pos 7)).1 / 1024)
unfolding asked
get_stats-kb_example = get_stats-kb rounded ((proc, pos 7) ∷ []) proc (pos 7)

shell-IsPrinted : IsPrinted (proc, pos 7)
unfolding to_string_ℤ
shell-IsPrinted = record {
  number = 7;
  name = bytes "(sh)";
  state = b'S';
  counters = bytes " 1 7 7 0 -1 4194560 100 0 0 0 25 13 0 0 20";
  text = refl;
  is_name = shell-IsName;
  is_letter = (refl, refl, refl);
}

get_stats-cpu_percent_example :
    All (λ stats. stats.cpu_percent ≡ 0) (answers rounded ((proc, pos 7) ∷ (proc, pos 7) ∷ []) [])
get_stats-cpu_percent_example =
    get_stats-cpu_percent rounded ((proc, pos 7) ∷ (proc, pos 7) ∷ []) (λ d. ground arith)
      (shell-IsPrinted, (shell-IsPrinted, tt))
