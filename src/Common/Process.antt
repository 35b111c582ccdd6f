-- ===== src/Common/Process.antt =====
-- drop/common/Process.h and Process.cpp: the readers of /proc, and the snapshot of a process. `files`
-- gives the bytes of each file that can be opened. What is computed in floating point (the number of
-- jiffies of an uptime, the percentage) is the argument `fp`.
pub mod Ticks
pub mod Memory
pub mod Io
pub mod History
use Prim.Native.String.{◌++◌}
use mini_drop.Base.{
  ℕ, zero, suc, ◌+◌, ◌-◌, ◌/◌, ◌%◌, ◌^◌, String, ltb, ◌&&◌, if◌then◌else◌, Option, none, some, List,
  [], ◌∷◌,
}
use mini_drop.Base.Int.{ℤ, pos, negsuc, int_eq}
use mini_drop.Base.Decimal.{to_string_ℤ}
use mini_drop.Base.Dict.{Dict, lookup, insert}
use mini_drop.Proto.Hotmethod.{Float32}
use mini_drop.Common.Scanf.{
  Number, bytes, skip_spaces, scan_number, scan_word, to_lld, to_llu, lines, after_key,
}

pub record ProcessStats : Type 0 where
  pub pid : ℤ
  pub rss_kb : ℕ  -- uint64
  pub cpu_percent : Float32
  pub read_kb : ℕ  -- uint64
  pub write_kb : ℕ  -- uint64

pub record CpuSnapshot : Type 0 where
  pub total_ticks : ℕ  -- uint64
  pub uptime_jiffies : ℤ

-- `g_cpu_cache`.
abbrev pub Cache : Type 0
Cache = Dict ℤ CpuSnapshot

-- `uptime` is `%lf` and `static_cast<long>(up * sysconf(_SC_CLK_TCK))` on the bytes of /proc/uptime,
-- `percent` the three operations on floats for a positive `up_delta`.
pub record FloatingPoint : Type 0 where
  pub hz : ℤ
  pub uptime : List ℕ → ℤ
  pub percent : ℕ → ℕ → Float32

abbrev pub proc_path : ℤ → String → String
proc_path pid name = "/proc/" ++ (to_string_ℤ pid ++ ("/" ++ name))

-- What `fscanf(f, "%d %255s", …)` leaves, after its first conversion.
unfoldable pub after_pid : Option Number × List ℕ → List ℕ
after_pid (none, rest) = rest
after_pid (some n, rest) = (scan_word 255 (skip_spaces rest)).1

unfoldable pub skip_pid_comm : List ℕ → List ℕ
unfolding after_pid
skip_pid_comm text = after_pid (scan_number text)

-- The loop over `fscanf(f, " %lld", &tmp)`, whose result is not looked at.
unfoldable pub skip_fields : ℕ → List ℕ → List ℕ
skip_fields zero text = text
skip_fields (suc n) text = skip_fields n (scan_number text).1

-- The conversion to `uint64_t`.
unfoldable pub to_u64 : ℤ → ℕ
to_u64 (pos n) = n % 2 ^ 64
to_u64 (negsuc n) = 2 ^ 64 - 1 - n % 2 ^ 64

-- `fscanf(f, " %lld %lld", &utime, &stime)` with both at 0 before, and the sum.
unfoldable pub sum_times : List ℕ → ℕ
unfolding to_u64
sum_times text =
    let utime = scan_number text in
    let stime = scan_number utime.1 in
    elim utime.0 [
      | none ↦ 0
      | some u ↦ elim stime.0 [
        | none ↦ to_u64 (to_lld u)
        | some v ↦ (to_u64 (to_lld u) + to_u64 (to_lld v)) % 2 ^ 64
      ]
    ]

unfoldable pub read_cpu_ticks : (String → Option (List ℕ)) → ℤ → ℕ
unfolding skip_pid_comm skip_fields sum_times
read_cpu_ticks files pid = elim (files (proc_path pid "stat")) [
  | none ↦ 0
  | some text ↦ sum_times (skip_fields 11 (skip_pid_comm text))
]

unfoldable pub read_uptime_jiffies : FloatingPoint → (String → Option (List ℕ)) → ℤ
read_uptime_jiffies fp files = elim (files "/proc/uptime") [
  | none ↦ pos 0
  | some text ↦ fp.uptime text
]

-- `sscanf(…, " %llu", &n)` where `n` is `old` before.
unfoldable pub scan_llu : ℕ → List ℕ → ℕ
scan_llu old text = elim (scan_number text).0 [ none ↦ old | some n ↦ to_llu n ]

unfoldable pub find_rss : List (List ℕ) → ℕ
unfolding scan_llu
find_rss [] = 0
find_rss (line ∷ rest) =
    let later = find_rss rest in
    elim (after_key (bytes "VmRSS:") line) [ none ↦ later | some text ↦ scan_llu 0 text ]

unfoldable pub read_rss_kb : (String → Option (List ℕ)) → ℤ → ℕ
unfolding find_rss
read_rss_kb files pid = elim (files (proc_path pid "status")) [
  | none ↦ 0
  | some text ↦ find_rss (lines text)
]

-- One line of the file; the pair is `*read_bytes` and `*write_bytes`.
unfoldable pub io_line : ℕ × ℕ → List ℕ → ℕ × ℕ
unfolding scan_llu
io_line io line = elim (after_key (bytes "read_bytes:") line) [
  | some text ↦ (scan_llu io.0 text, io.1)
  | none ↦ elim (after_key (bytes "write_bytes:") line) [
    | some text ↦ (io.0, scan_llu io.1 text)
    | none ↦ io
  ]
]

unfoldable pub io_lines : ℕ × ℕ → List (List ℕ) → ℕ × ℕ
unfolding io_line
io_lines io [] = io
io_lines io (line ∷ rest) = io_lines (io_line io line) rest

unfoldable pub read_io_bytes : (String → Option (List ℕ)) → ℤ → ℕ × ℕ
unfolding io_lines
read_io_bytes files pid = elim (files (proc_path pid "io")) [
  | none ↦ (0, 0)
  | some text ↦ io_lines (0, 0) (lines text)
]

-- `a - b` for two `uint64_t`.
abbrev pub minus_u64 : ℕ → ℕ → ℕ
minus_u64 a b = (a + 2 ^ 64 - b) % 2 ^ 64

-- `a - b` for two `long`, where it is positive, and 0 elsewhere.
abbrev pub gain : ℤ → ℤ → ℕ
gain (pos a) (pos b) = a - b
gain (pos a) (negsuc b) = suc (a + b)
gain (negsuc a) (pos b) = 0
gain (negsuc a) (negsuc b) = b - a

unfoldable pub new_stats : ℤ → ProcessStats
new_stats pid = record { pid = pid; rss_kb = 0; cpu_percent = 0; read_kb = 0; write_kb = 0 }

-- `if (it != g_cpu_cache.end())`; the first value of `read_kb` is overwritten.
unfoldable pub compare_with :
    FloatingPoint → CpuSnapshot → ℕ × ℕ → ProcessStats → Option CpuSnapshot → ProcessStats
compare_with fp cur io stats none = stats
compare_with fp cur io stats (some old) =
    let up_delta = gain cur.uptime_jiffies old.uptime_jiffies in
    let tick_delta = minus_u64 cur.total_ticks old.total_ticks in
    let difference =
      if ltb old.total_ticks io.0 then minus_u64 io.0 old.total_ticks / 1024 else 0 in
    let first = record stats {
      cpu_percent =
          if ltb 0 up_delta && ltb 0 (gain fp.hz (pos 0))
          then fp.percent tick_delta up_delta
          else stats.cpu_percent;
      read_kb = difference;
    } in
    record first { read_kb = io.0 / 1024; write_kb = io.1 / 1024 }

-- `CpuSnapshot{cur_ticks, cur_up}`.
unfoldable pub snapshot : FloatingPoint → (String → Option (List ℕ)) → ℤ → CpuSnapshot
unfolding read_cpu_ticks read_uptime_jiffies
snapshot fp files pid = record {
  total_ticks = read_cpu_ticks files pid;
  uptime_jiffies = read_uptime_jiffies fp files;
}

unfoldable pub get_stats :
    FloatingPoint → (String → Option (List ℕ)) → ℤ → Cache → ProcessStats × Cache
unfolding compare_with new_stats snapshot
get_stats fp files pid cache =
    let stats = record (new_stats pid) { rss_kb = read_rss_kb files pid } in
    let io = read_io_bytes files pid in
    let cur = snapshot fp files pid in
    (compare_with fp cur io stats (lookup pid cache), insert pid cur cache)

-- `own` is what `getpid` gives.
unfoldable pub get_self_stats :
    FloatingPoint → (String → Option (List ℕ)) → ℤ → Cache → ProcessStats × Cache
unfolding get_stats
get_self_stats fp files own cache = get_stats fp files own cache
