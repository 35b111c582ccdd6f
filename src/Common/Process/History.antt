-- ===== src/Common/Process/History.antt =====
-- drop/common/Process.cpp, `GetStats`: its answers over a history of calls, and the cache between them.
use mini_drop.Base.{
  ℕ, ◌/◌, String, Bool, true, false, ◌||◌, if◌then◌else◌, ◌==◌, Option, none, some, List, [], ◌∷◌,
  ◌≡◌, refl, arith, All, ap, ◌∙◌, subst,
}
use mini_drop.Base.Int.{ℤ, int_eq}
use mini_drop.Base.Dict.{lookup, lookup-insert}
use mini_drop.Common.Scanf.Printed.{IsOther}
use mini_drop.Common.Process.{
  minus_u64, ProcessStats, CpuSnapshot, Cache, FloatingPoint, proc_path, read_cpu_ticks,
  read_io_bytes, compare_with, snapshot, new_stats, get_stats,
}
use mini_drop.Common.Process.Ticks.{stat_text, IsName, read_cpu_ticks-zero}

-- A call: the files as they are then, and the process id.
abbrev pub Asked : Type 0
Asked = (String → Option (List ℕ)) × ℤ

unfoldable pub after : FloatingPoint → List Asked → Cache → Cache
after fp [] cache = cache
after fp (call ∷ calls) cache = after fp calls (get_stats fp call.0 call.1 cache).1

unfoldable pub answers : FloatingPoint → List Asked → Cache → List ProcessStats
answers fp [] cache = []
answers fp (call ∷ calls) cache =
    let done = get_stats fp call.0 call.1 cache in done.0 ∷ answers fp calls done.1

unfoldable pub asked : ℤ → List Asked → Bool
asked pid [] = false
asked pid (call ∷ calls) = call.1 == pid || asked pid calls

abbrev is_some : Option CpuSnapshot → Bool
is_some none = false
is_some (some old) = true

-- The stat file is as the kernel prints it.
pub record IsPrinted (call : Asked) : Type 0 where
  pub number : ℕ
  pub name : List ℕ
  pub state : ℕ
  pub counters : List ℕ
  pub text : call.0 (proc_path call.1 "stat") ≡ some (stat_text number name state counters)
  pub is_name : IsName name
  pub is_letter : IsOther state

abbrev old_ticks : Option CpuSnapshot → ℕ
old_ticks none = 0
old_ticks (some old) = old.total_ticks

no_ticks : (call : Asked) → IsPrinted call → read_cpu_ticks call.0 call.1 ≡ 0
no_ticks call h =
    read_cpu_ticks-zero call.0 call.1 h.number h.name h.state h.counters h.text h.is_name
      h.is_letter

module _ (fp : FloatingPoint) where
  is_some-get_stats :
      (call : Asked) (pid : ℤ) (cache : Cache)
      → is_some (lookup pid (get_stats fp call.0 call.1 cache).1)
        ≡ (call.1 == pid || is_some (lookup pid cache))
  unfolding get_stats
  is_some-get_stats call pid cache =
      ap is_some (lookup-insert call.1 pid (snapshot fp call.0 call.1) cache) ∙ ground arith

  is_some-after :
      (calls : List Asked) (pid : ℤ) (cache : Cache)
      → is_some (lookup pid (after fp calls cache))
        ≡ (asked pid calls || is_some (lookup pid cache))
  unfolding after asked
  is_some-after [] pid cache = refl
  is_some-after (call ∷ calls) pid cache = ground (
    arith,
    is_some-after calls pid (get_stats fp call.0 call.1 cache).1,
    is_some-get_stats call pid cache,
  )

  compare_with-kb :
      (cur : CpuSnapshot) (io : ℕ × ℕ) (stats : ProcessStats) (old : Option CpuSnapshot)
      → stats.read_kb ≡ 0
      → stats.write_kb ≡ 0
      → ((compare_with fp cur io stats old).read_kb ≡ (if is_some old then io.0 / 1024 else 0))
        × ((compare_with fp cur io stats old).write_kb ≡ (if is_some old then io.1 / 1024 else 0))
  unfolding compare_with
  compare_with-kb cur io stats none h1 h2 = (h1, h2)
  compare_with-kb cur io stats (some old) h1 h2 = (refl, refl)

  -- After any history of calls, `read_kb` and `write_kb` are the whole of what the process has read and
  -- written so far, in KB, if some call before asked for the same process, and 0 if none did. They do not
  -- depend on what the earlier calls saw.
  pub get_stats-kb :
      (calls : List Asked) (files : String → Option (List ℕ)) (pid : ℤ)
      → let stats = (get_stats fp files pid (after fp calls [])).0 in
        (stats.read_kb ≡ (if asked pid calls then (read_io_bytes files pid).0 / 1024 else 0))
        × (stats.write_kb ≡ (if asked pid calls then (read_io_bytes files pid).1 / 1024 else 0))
  unfolding get_stats new_stats lookup
  get_stats-kb calls files pid =
      subst
        (λ b.
          (stats.read_kb ≡ (if b then io.0 / 1024 else 0))
          × (stats.write_kb ≡ (if b then io.1 / 1024 else 0)))
        (is_some-after calls pid [] ∙ ground arith)
        (compare_with-kb (snapshot fp files pid) io _ (lookup pid (after fp calls [])) refl refl)
    where
      io : ℕ × ℕ
      io = read_io_bytes files pid

      stats : ProcessStats
      stats = (get_stats fp files pid (after fp calls [])).0

  old_ticks-get_stats :
      (call : Asked) (cache : Cache)
      → read_cpu_ticks call.0 call.1 ≡ 0
      → ((pid : ℤ) → old_ticks (lookup pid cache) ≡ 0)
      → (pid : ℤ) → old_ticks (lookup pid (get_stats fp call.0 call.1 cache).1) ≡ 0
  unfolding get_stats snapshot
  old_ticks-get_stats call cache h idle pid =
      ap old_ticks (lookup-insert call.1 pid (snapshot fp call.0 call.1) cache)
      ∙ ground (arith, idle pid)

  percent-zero :
      (b : Bool) (a c d percent : ℕ)
      → ((e : ℕ) → fp.percent 0 e ≡ 0)
      → percent ≡ 0
      → a ≡ 0
      → c ≡ 0
      → (if b then fp.percent (minus_u64 a c) d else percent) ≡ 0
  percent-zero true a c d percent zero_percent h1 h2 h3 =
      ap (λ t. fp.percent t d) (ap (λ x. minus_u64 x c) h2 ∙ ap (λ x. minus_u64 0 x) h3)
      ∙ zero_percent d
  percent-zero false a c d percent zero_percent h1 h2 h3 = h1

  compare_with-cpu_percent :
      (cur : CpuSnapshot) (io : ℕ × ℕ) (stats : ProcessStats) (old : Option CpuSnapshot)
      → ((d : ℕ) → fp.percent 0 d ≡ 0)
      → stats.cpu_percent ≡ 0
      → cur.total_ticks ≡ 0
      → old_ticks old ≡ 0
      → (compare_with fp cur io stats old).cpu_percent ≡ 0
  unfolding compare_with
  compare_with-cpu_percent cur io stats none zero_percent h1 h2 h3 = h1
  compare_with-cpu_percent cur io stats (some old) zero_percent h1 h2 h3 =
      percent-zero _ cur.total_ticks old.total_ticks _ stats.cpu_percent zero_percent h1 h2 h3

  answers-cpu_percent :
      (calls : List Asked) (cache : Cache)
      → ((d : ℕ) → fp.percent 0 d ≡ 0)
      → All IsPrinted calls
      → ((pid : ℤ) → old_ticks (lookup pid cache) ≡ 0)
      → All (λ stats. stats.cpu_percent ≡ 0) (answers fp calls cache)
  unfolding answers
  answers-cpu_percent [] cache zero_percent printed idle = tt
  answers-cpu_percent (call ∷ calls) cache zero_percent printed idle = (
    unfold get_stats new_stats snapshot in
        compare_with-cpu_percent (snapshot fp call.0 call.1) _ _ (lookup call.1 cache) zero_percent
          refl (no_ticks call printed.0) (idle call.1),
    answers-cpu_percent calls (get_stats fp call.0 call.1 cache).1 zero_percent printed.1
        (old_ticks-get_stats call cache (no_ticks call printed.0) idle),
  )

  -- The CPU share that `GetStats` reports is 0 at every call of every history, for every process, if the
  -- stat files are as the kernel prints them (a name without blanks, a letter for the state) and 0 ticks
  -- are 0 percent in floating point.
  pub get_stats-cpu_percent :
      (calls : List Asked)
      → ((d : ℕ) → fp.percent 0 d ≡ 0)
      → All IsPrinted calls
      → All (λ stats. stats.cpu_percent ≡ 0) (answers fp calls [])
  unfolding lookup
  get_stats-cpu_percent calls zero_percent printed =
      answers-cpu_percent calls [] zero_percent printed (λ pid. refl)
