-- ===== src/Analysis/PollWorker/Ids.antt =====
-- poll_worker.py: lists of task ids, and that no id stands in one twice.
use mathlib.Core.List.{◌++◌}
use mini_drop.Base.{
  ℕ, zero, suc, String, Bool, true, false, ◌&&◌, ◌||◌, ◌==◌, string_eq, eq_iff, List, [], ◌∷◌, take,
  drop, filter, take-drop, ◌≡◌, refl, sym, ap, ◌∙◌, subst, arith, Bool-cases, inl, inr,
}
use mini_drop.ApiServer.Tasks.{Row}
use mini_drop.Analysis.PollWorker.{is_waiting}
use mini_drop.Analysis.PollWorker.Rows.{
  waiting_tids, contains, Distinct, DistinctTids, contains-waiting_tids,
}

pub contains-append :
    (xs ys : List String) (x : String) → contains (xs ++ ys) x ≡ contains xs x || contains ys x
contains-append [] ys x = refl
contains-append (y ∷ xs) ys x = ground (arith, contains-append xs ys x)

pub contains-filter :
    (p : String → Bool) (xs : List String) (x : String)
    → contains (filter p xs) x ≡ p x && contains xs x
contains-filter p [] x = ground arith
contains-filter p (y ∷ xs) x = elim (Bool-cases (y == x)) [
  | inl same ↦
      subst (λ z. contains (filter p (y ∷ xs)) z ≡ p z && contains (y ∷ xs) z) ((eq_iff y x).0 same)
        (ground (arith, contains-filter p xs y, eq_iff y y))
  | inr other ↦ ground (arith, contains-filter p xs x)
]

pub contains-take-drop :
    (n : ℕ) (xs : List String) (x : String)
    → contains xs x ≡ contains (take n xs) x || contains (drop n xs) x
contains-take-drop n xs x =
    sym (ap (λ ys. contains ys x) (take-drop n xs)) ∙ contains-append (take n xs) (drop n xs) x

pub DistinctTids-append :
    (xs ys : List String)
    → DistinctTids xs
    → DistinctTids ys
    → ((x : String) → contains xs x ≡ true → contains ys x ≡ false)
    → DistinctTids (xs ++ ys)
DistinctTids-append [] ys h1 h2 apart = h2
DistinctTids-append (x ∷ xs) ys h1 h2 apart = (
  ground (arith, contains-append xs ys x, apart x, eq_iff x x),
  DistinctTids-append xs ys h1.1 h2 (λ z h. apart z (ground arith)),
)

pub DistinctTids-apart :
    (xs ys : List String) (x : String)
    → DistinctTids (xs ++ ys)
    → contains xs x ≡ true
    → contains ys x ≡ false
DistinctTids-apart [] ys x d h = absurd (ground arith)
DistinctTids-apart (y ∷ xs) ys x d h = elim (Bool-cases (y == x)) [
  | inl same ↦
      subst (λ z. contains ys z ≡ false) ((eq_iff y x).0 same)
        (ground (arith, d.0, contains-append xs ys y))
  | inr other ↦ DistinctTids-apart xs ys x d.1 (ground arith)
]

pub DistinctTids-filter :
    (p : String → Bool) (xs : List String) → DistinctTids xs → DistinctTids (filter p xs)
DistinctTids-filter p [] d = tt
DistinctTids-filter p (x ∷ xs) d = elim (Bool-cases (p x)) [
  | inl on ↦ rw on (ground (arith, d.0, contains-filter p xs x), DistinctTids-filter p xs d.1)
  | inr off ↦ rw off (DistinctTids-filter p xs d.1)
]

pub DistinctTids-take : (n : ℕ) (xs : List String) → DistinctTids xs → DistinctTids (take n xs)
DistinctTids-take zero xs d = tt
DistinctTids-take (suc n) [] d = tt
DistinctTids-take (suc n) (x ∷ xs) d =
    (ground (arith, d.0, contains-take-drop n xs x), DistinctTids-take n xs d.1)

pub DistinctTids-waiting_tids : (rs : List Row) → Distinct rs → DistinctTids (waiting_tids rs)
DistinctTids-waiting_tids [] d = tt
DistinctTids-waiting_tids (r ∷ rs) d = elim (Bool-cases (is_waiting r)) [
  | inl w ↦ rw w (contains-waiting_tids r.tid rs d.0, DistinctTids-waiting_tids rs d.1)
  | inr w ↦ rw w (DistinctTids-waiting_tids rs d.1)
]
