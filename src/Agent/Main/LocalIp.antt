-- ===== src/Agent/Main/LocalIp.antt =====
-- main.cpp: which address the agent reports.
use mathlib.Core.List.{◌++◌}
use mini_drop.Base.{
  String, ◌==◌, string_eq, if◌then◌else◌, Option, none, some, List, [], ◌∷◌, ◌≡◌, ◌⊎◌, refl, ap,
  inl, inr, arith, All, Bool-cases,
}
use mini_drop.Agent.Main.{
  Address, no_address, other_family, ipv4, Interface, first_ipv4, get_local_ip,
}

-- An interface with an IPv4 address that is not the loopback's.
abbrev pub external : Interface → Option String
external i = elim i.address [
  | no_address ↦ none
  | other_family ↦ none
  | ipv4 text ↦ if i.name == "lo" then none else some text
]

abbrev pub IsSkipped : Interface → Type 0
IsSkipped i = external i ≡ none

-- The interface that decides, with those before it.
pub data Found (interfaces : List Interface) (address : String) : Type 0 where
  no_other : All IsSkipped interfaces → address ≡ "127.0.0.1" → Found interfaces address
  first :
      (before after : List Interface)
      → (i : Interface) → interfaces ≡ before ++ (i ∷ after)
      → All IsSkipped before
      → external i ≡ some address
      → Found interfaces address

Found-skip :
    (i : Interface) (interfaces : List Interface) (address : String)
    → IsSkipped i
    → Found interfaces address
    → Found (i ∷ interfaces) address
Found-skip i interfaces address s (no_other all e) = no_other (s, all) e
Found-skip i interfaces address s (first before after j e all found) =
    first (i ∷ before) after j (ap (◌∷◌ i) e) (s, all) found

first_ipv4_step :
    (i : Interface) (interfaces : List Interface) (a : Address)
    → i.address ≡ a
    → ((external i ≡ none) × (first_ipv4 (i ∷ interfaces) ≡ first_ipv4 interfaces))
      ⊎ (external i ≡ some (first_ipv4 (i ∷ interfaces)))
unfolding first_ipv4
first_ipv4_step i interfaces no_address h = ground arith
first_ipv4_step i interfaces other_family h = ground arith
first_ipv4_step i interfaces (ipv4 text) h = elim (Bool-cases (i.name == "lo")) [
  | inl loopback ↦ inl (ground arith)
  | inr external_one ↦ inr (ground arith)
]

first_ipv4-Found : (interfaces : List Interface) → Found interfaces (first_ipv4 interfaces)
first_ipv4-Found [] = unfold first_ipv4 in no_other tt refl
first_ipv4-Found (i ∷ interfaces) = elim (first_ipv4_step i interfaces i.address refl) [
  | inl (skipped, same) ↦ rw same (Found-skip i interfaces _ skipped (first_ipv4-Found interfaces))
  | inr found ↦ first [] interfaces i refl tt found
]

-- The address that the agent reports is that of the first interface with an IPv4 address other than
-- the loopback's; where there is none, or the interfaces cannot be read, it is 127.0.0.1.
pub get_local_ip-Found :
    (interfaces : List Interface)
    → Found interfaces (get_local_ip (some interfaces)) × (get_local_ip none ≡ "127.0.0.1")
unfolding get_local_ip
get_local_ip-Found interfaces = (first_ipv4-Found interfaces, refl)
