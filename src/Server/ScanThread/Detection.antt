-- ===== src/Server/ScanThread/Detection.antt =====
-- HealthCheckService.cpp, `OfflineScanLoop`: how soon an agent that has fallen silent is noticed.

use mathlib.Core.List.{◌++◌}
use mini_drop.Base.{
  ℕ, ◌+◌, ◌*◌, ◌≤◌, ◌<◌, String, string_eq, Bool, true, false, ◌&&◌, ltb, ltb→lt, Option, some,
  List, [], ◌∷◌, map, ◌≡◌, refl, ap, ◌∙◌, inl, inr, Bool-cases, arith,
}
use mini_drop.Base.Dict.{lookup}
use mini_drop.Server.HealthCheck.{HealthCheckService, second, offline_scan}
use mini_drop.Server.HealthCheck.Scan.{offline_scan_lem, lookup-mark_all}
use mini_drop.Server.ScanThread.{scanned, scan_loop}

-- The table after scans at these times.
abbrev pub scanned_at : (String → Option String) → List ℕ → HealthCheckService → HealthCheckService
scanned_at env nows s = (scan_loop env s (map scanned nows)).0

-- Each scan comes at most `gap` after the one before.
abbrev pub IsDense : ℕ → ℕ → List ℕ → Type 0
IsDense gap start [] = Unit
IsDense gap start (now ∷ nows) = (now ≤ start + gap) × IsDense gap now nows

abbrev pub last_of : ℕ → List ℕ → ℕ
last_of start [] = start
last_of start (now ∷ nows) = last_of now nows

abbrev pub all_before : ℕ → List ℕ → Bool
all_before limit [] = true
all_before limit (now ∷ nows) = ltb now limit && all_before limit nows

-- The first scan at the limit or later.
pub record Crossing (limit gap : ℕ) (nows : List ℕ) : Type 0 where
  pub before : List ℕ
  pub now : ℕ
  pub later : List ℕ
  pub split : nows ≡ before ++ (now ∷ later)
  pub early : all_before limit before ≡ true
  pub due : limit ≤ now
  pub soon : now < limit + gap

crossing :
    (limit gap start : ℕ) (nows : List ℕ)
    → start < limit
    → IsDense gap start nows
    → limit ≤ last_of start nows
    → Crossing limit gap nows
crossing limit gap start [] h1 h2 h3 = absurd (omega arith)
crossing limit gap start (now ∷ nows) h1 h2 h3 = elim (Bool-cases (ltb now limit)) [
  | inr late ↦ record {
    before = [];
    now = now;
    later = nows;
    split = refl;
    early = refl;
    due = ground arith;
    soon = ground arith;
  }
  | inl more ↦
      let rest = crossing limit gap now nows (ltb→lt now limit more) h2.1 h3 in
      record {
        before = now ∷ rest.before;
        now = rest.now;
        later = rest.later;
        split = ap (◌∷◌ now) rest.split;
        early = rw more rest.early;
        due = rest.due;
        soon = rest.soon;
      }
]

module _ (env : String → Option String) where
  lookup-offline_scan :
      (s : HealthCheckService) (now t : ℕ) (ip : String) (b : Bool)
      → lookup ip s.agents ≡ some (record { last_seen = t; online = b })
      → lookup ip (offline_scan env now s).0.agents
        ≡ some (record { last_seen = t; online = b && ltb now (t + 31 * second) })
  lookup-offline_scan s now t ip b known =
      rw (offline_scan_lem env now s, lookup-mark_all now ip s.agents, known) (ground arith)

  lookup-scanned_at :
      (s : HealthCheckService) (nows : List ℕ) (t : ℕ) (ip : String) (b : Bool)
      → lookup ip s.agents ≡ some (record { last_seen = t; online = b })
      → lookup ip (scanned_at env nows s).agents
        ≡ some (record { last_seen = t; online = b && all_before (t + 31 * second) nows })
  unfolding scan_loop
  lookup-scanned_at s [] t ip b known = known ∙ ground arith
  lookup-scanned_at s (now ∷ nows) t ip b known =
      lookup-scanned_at (offline_scan env now s).0 nows t ip (b && ltb now (t + 31 * second))
        (lookup-offline_scan s now t ip b known)
      ∙ ap (λ o. some (record { last_seen = t; online = o })) (ground arith)

  all_before-append :
      (limit now : ℕ) (nows : List ℕ) → limit ≤ now → all_before limit (nows ++ (now ∷ [])) ≡ false
  all_before-append limit now [] h = ground arith
  all_before-append limit now (n ∷ nows) h = ground (arith, all_before-append limit now nows h)

  -- An agent was last heard of at time `t`, and beats no more. If the scans start before 31 seconds have
  -- passed, each comes at most `gap` after the one before, and they go on until then: there is a scan
  -- before which the agent is still online and after which it is offline, and it comes at least 31
  -- seconds after `t`, and less than 31 seconds and `gap` after it.
  pub silence_noticed :
      (s : HealthCheckService) (ip : String) (t gap start : ℕ) (nows : List ℕ)
      → lookup ip s.agents ≡ some (record { last_seen = t; online = true })
      → start < t + 31 * second
      → IsDense gap start nows
      → t + 31 * second ≤ last_of start nows
      → (c : Crossing (t + 31 * second) gap nows) × (lookup ip (scanned_at env c.before s).agents
          ≡ some (record { last_seen = t; online = true }))
        × (lookup ip (scanned_at env (c.before ++ (c.now ∷ [])) s).agents
            ≡ some (record { last_seen = t; online = false }))
  silence_noticed s ip t gap start nows known h1 h2 h3 =
      let c = crossing (t + 31 * second) gap start nows h1 h2 h3 in
      (
        c,
        lookup-scanned_at s c.before t ip true known
            ∙ ap (λ o. some (record { last_seen = t; online = o })) c.early,
        lookup-scanned_at s (c.before ++ (c.now ∷ [])) t ip true known
            ∙ ap (λ o. some (record { last_seen = t; online = o }))
                (all_before-append (t + 31 * second) c.now c.before c.due),
      )
