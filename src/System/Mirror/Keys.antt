-- ===== src/System/Mirror/Keys.antt =====
-- The table of HealthCheckService.cpp as a map: one entry for each address, through heartbeats and scans.
use mathlib.Core.Option
use mini_drop.Base.{
  ℕ, String, Bool, true, false, not, ◌&&◌, ◌==◌, string_eq, eq_iff, none, some, [], ◌∷◌, ◌≡◌, refl,
  ap, ◌∙◌, subst, arith, Bool-cases, inl, inr,
}
use mini_drop.Base.Dict.{Dict, lookup, insert, lookup-insert}
use mini_drop.Server.Apiserver.{offline_json}
use mini_drop.Server.HealthCheck.{AgentState}
use mini_drop.Server.HealthCheck.Scan.{goes_offline, marked, mark_all, lookup-mark_all}
use mini_drop.System.Mirror.{Binding}

-- No entry of `ip` goes offline in a scan.
abbrev pub stays : ℕ → Dict String AgentState → String → Bool
stays now [] ip = true
stays now ((k, st) ∷ m) ip = not ((k == ip) && goes_offline now st) && stays now m ip

-- One entry for each key.
abbrev pub Distinct : Dict String AgentState → Type 0
Distinct [] = Unit
Distinct ((k, st) ∷ m) = (lookup k m ≡ none) × Distinct m

pub stays-none :
    (now : ℕ) (m : Dict String AgentState) (ip : String)
    → lookup ip m ≡ none
    → stays now m ip ≡ true
unfolding lookup
stays-none now [] ip e = refl
stays-none now ((k, st) ∷ m) ip e = ground (arith, stays-none now m ip)

pub stays-some :
    (now : ℕ) (m : Dict String AgentState) (ip : String) (st : AgentState)
    → Distinct m
    → lookup ip m ≡ some st
    → stays now m ip ≡ not (goes_offline now st)
unfolding lookup
stays-some now [] ip st h e = cc
stays-some now ((k, first) ∷ m) ip st h e = elim (Bool-cases (k == ip)) [
  | inl same ↦
      let k≡ip : k ≡ ip = (eq_iff k ip).0 same in
      let none_left : lookup ip m ≡ none = subst (λ j. lookup j m ≡ none) k≡ip h.0 in
      let here : first ≡ st = ground arith in
      rw (same, stays-none now m ip none_left) (ground (arith, here))
  | inr other ↦ rw other (stays-some now m ip st h.1 (ground arith))
]

pub Distinct-insert :
    (ip : String) (st : AgentState) (m : Dict String AgentState)
    → Distinct m
    → Distinct (insert ip st m)
unfolding insert lookup
Distinct-insert ip st [] h = (refl, tt)
Distinct-insert ip st ((k, old) ∷ m) h = elim (Bool-cases (k == ip)) [
  | inl same ↦
      let k≡ip : k ≡ ip = (eq_iff k ip).0 same in
      rw same (subst (λ j. lookup j m ≡ none) k≡ip h.0, h.1)
  | inr other ↦
      let new : (ip == k) ≡ false = ground (arith, eq_iff ip k, eq_iff k ip) in
      rw other (lookup-insert ip k st m ∙ rw new h.0, Distinct-insert ip st m h.1)
]

pub Distinct-mark_all :
    (now : ℕ) (m : Dict String AgentState) → Distinct m → Distinct (mark_all now m)
Distinct-mark_all now [] h = tt
Distinct-mark_all now ((k, st) ∷ m) h =
    (lookup-mark_all now k m ∙ ap (Option.map (marked now)) h.0, Distinct-mark_all now m h.1)

-- The body of an offline post about `ip` is read as it is meant.
abbrev pub IsRead : Binding → String → Type 0
IsRead lib ip =
    lib.read_offline (offline_json "" ip) ≡ some (record { hostname = ""; ip_addr = ip })

abbrev pub AllRead : Binding → Dict String AgentState → Type 0
AllRead lib [] = Unit
AllRead lib ((k, st) ∷ m) = IsRead lib k × AllRead lib m

pub AllRead-insert :
    (lib : Binding) (ip : String) (st : AgentState) (m : Dict String AgentState)
    → IsRead lib ip
    → AllRead lib m
    → AllRead lib (insert ip st m)
unfolding insert
AllRead-insert lib ip st [] r h = (r, tt)
AllRead-insert lib ip st ((k, old) ∷ m) r h = elim (Bool-cases (k == ip)) [
  | inl same ↦ rw same (r, h.1)
  | inr other ↦ rw other (h.0, AllRead-insert lib ip st m r h.1)
]

pub AllRead-mark_all :
    (lib : Binding) (now : ℕ) (m : Dict String AgentState)
    → AllRead lib m
    → AllRead lib (mark_all now m)
AllRead-mark_all lib now [] h = tt
AllRead-mark_all lib now ((k, st) ∷ m) h = (h.0, AllRead-mark_all lib now m h.1)
