-- ===== src/Tests/Threads.antt =====
-- The theorems about the thread of the offline scan at concrete inputs.
use mathlib.Core.List.{◌++◌}
use mini_drop.Base.{◌*◌, string_eq, true, false, some, List, ℕ, [], ◌∷◌, ◌≡◌, refl, arith}
use mini_drop.Base.Dict.{lookup}
use mini_drop.Server.HealthCheck.{HealthCheckService, second}
use mini_drop.Server.ScanThread.Detection.{Crossing, scanned_at, silence_noticed}
use mini_drop.Tests.Data.{bare, ip}

abbrev heard : HealthCheckService
heard = record { agents = (ip, record { last_seen = 0; online = true }) ∷ [] }

-- Scans at 10, 20, 30 and 40 seconds.
abbrev scans : List ℕ
scans = 10000000000 ∷ 20000000000 ∷ 30000000000 ∷ 40000000000 ∷ []

silence_noticed_example :
    (c : Crossing (31 * second) 10000000000 scans) × (lookup ip
        (scanned_at bare c.before heard).agents
      ≡ some (record { last_seen = 0; online = true }))
    × (lookup ip (scanned_at bare (c.before ++ (c.now ∷ [])) heard).agents
        ≡ some (record { last_seen = 0; online = false }))
unfolding lookup
silence_noticed_example =
    silence_noticed bare heard ip 0 10000000000 0 scans refl (omega arith)
      (omega arith, (omega arith, (omega arith, (omega arith, tt)))) (omega arith)
