-- ===== src/Common/Daemon/Streams.antt =====
-- drop/common/Daemon.cpp: which process returns from Daemonize, and what its descriptors are then.
use mini_drop.Base.{
  ℕ, String, Bool, true, false, eqb, ltb, if◌then◌else◌, Option, none, some, List, [], ◌∷◌, ◌≡◌,
  ◌↔◌, arith, inl, inr, ap, ◌∙◌, Bool-cases,
}
use mini_drop.Common.Daemon.{
  Fork, in_child, Call, open_null, duplicate, close_fd, exits, redirect, daemonize,
}

-- The file that each descriptor of the process refers to, `none` for a closed one.
abbrev pub Table : Type 0
Table = ℕ → Option String

abbrev pub refer : Table → ℕ → Option String → Table
refer t fd file = λ j. if eqb j fd then file else t j

-- What a call does to the descriptors, where `open` returned `opened`.
abbrev pub call : Option ℕ → Table → Call → Table
call none t open_null = t
call (some fd) t open_null = refer t fd (some "/dev/null")
call opened t (duplicate old new) = refer t new (t old)
call opened t (close_fd fd) = refer t fd none
call opened t _ = t

abbrev pub calls : Option ℕ → Table → List Call → Table
calls opened t [] = t
calls opened t (c ∷ cs) = calls opened (call opened t c) cs

abbrev pub returns : List Call → Bool
returns [] = true
returns (exits code ∷ cs) = false
returns (c ∷ cs) = returns cs

-- A process returns from `Daemonize` exactly if it is the child of the second fork, made by the child of
-- the first. Every other process ends in it, also where a fork fails.
pub daemonize-returns_iff :
    (first second : Fork) (opened : Option ℕ)
    → (returns (daemonize first second opened) ≡ true) ↔ ((first ≡ in_child) × (second ≡ in_child))
unfolding daemonize redirect
daemonize-returns_iff first second opened = ground arith

-- If `open` gives a descriptor that was closed before, then afterwards the three standard streams are
-- /dev/null and every other descriptor is as before: none is left over, whichever `open` gave, be it
-- one of the three.
pub daemonize-streams :
    (t : Table) (fd j : ℕ)
    → t fd ≡ none
    → calls (some fd) t (daemonize in_child in_child (some fd)) j
      ≡ (if ltb j 3 then some "/dev/null" else t j)
unfolding daemonize redirect
daemonize-streams t fd j h = elim (Bool-cases (ltb 2 fd)) [
  | inl above ↦ rw above (ground (arith, same_file))
  | inr among ↦ rw among (ground (arith, same_file))
]
  where
    same_file : j ≡ fd → t j ≡ none
    same_file e = ap t e ∙ h
