-- ===== src/Server/ScanThread.antt =====
-- drop/server/HealthCheckService.cpp: the thread of `OfflineScanLoop`, from the constructor of the
-- service to its destructor.
pub mod Detection
use mini_drop.Base.{ℕ, String, Bool, true, false, Option, List, [], ◌∷◌}
use mini_drop.Common.Effect.{Effect}
use mini_drop.Server.HealthCheck.{HealthCheckService, scan_interval_sec, offline_scan}

-- `running_`, and whether `scan_thread_` holds a thread.
pub record ScanThread : Type 0 where
  pub running : Bool
  pub joinable : Bool

-- The constructor.
unfoldable pub start_scanning : ScanThread
start_scanning = record { running = true; joinable = true }

-- The destructor, and whether it joined.
unfoldable pub stop_scanning : ScanThread → ScanThread × Bool
stop_scanning t = (record { running = false; joinable = false }, t.joinable)

pub data ScanAct : Type 0 where
  sleeps : ℕ → ScanAct
  writes : List Effect → ScanAct

-- A round of the loop: it reads that `running_` is unset, or sleeps and then scans at a reading of the
-- clock.
pub data ScanRound : Type 0 where
  unset : ScanRound
  scanned : ℕ → ScanRound

unfoldable pub scan_loop :
    (String → Option String)
    → HealthCheckService
    → List ScanRound
    → HealthCheckService × List ScanAct
unfolding offline_scan
scan_loop env s [] = (s, [])
scan_loop env s (unset ∷ rounds) = (s, [])
scan_loop env s (scanned now ∷ rounds) =
    let done = offline_scan env now s in
    let rest = scan_loop env done.0 rounds in
    (rest.0, sleeps scan_interval_sec ∷ writes done.1 ∷ rest.1)
