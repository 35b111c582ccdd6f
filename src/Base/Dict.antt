-- ===== src/Base/Dict.antt =====
-- `std::map` and `std::unordered_map` as association lists with one entry for each key. The order
-- of the entries is the order of first insertion; no statement depends on it.
use mathlib.Core.Path.{◌≡◌, refl}
use mathlib.Core.Logic.{◌≢◌}
use mathlib.Core.Option.{Option, none, some}
use mathlib.Core.List.{List, [], ◌∷◌}
use native.Mathlib.Omega.{arith}
use mini_drop.Base.Tests.{Key, ◌==◌, if◌then◌else◌}

abbrev pub Dict {ℓ κ} : Type ℓ → Type κ → Type (ℓ ⊔ κ)
Dict K V = List (K × V)

module _ {ℓ κ} {K : Type ℓ} {V : Type κ} ⦃key : Key K⦄ where
  -- `find`, with `none` for `end()`.
  unfoldable pub lookup : K → Dict K V → Option V
  lookup wanted [] = none
  lookup wanted ((k, value) ∷ rest) = if k == wanted then some value else lookup wanted rest

  -- `m[k] = v`.
  unfoldable pub insert : K → V → Dict K V → Dict K V
  insert wanted new [] = (wanted, new) ∷ []
  insert wanted new ((k, value) ∷ rest) =
      if k == wanted then (wanted, new) ∷ rest else (k, value) ∷ insert wanted new rest

  -- The value that `m[k]` refers to, where a missing key is first given the value `d`.
  unfoldable pub get_or : K → V → Dict K V → V
  get_or k d m = elim (lookup k m) [ none ↦ d | some v ↦ v ]

  pub lookup-insert :
      (k j : K) (new : V) (m : Dict K V)
      → lookup j (insert k new m) ≡ (if k == j then some new else lookup j m)
  unfolding lookup insert
  lookup-insert k j new [] = refl
  lookup-insert k j new ((i, old) ∷ rest) =
      ground
        (arith, lookup-insert k j new rest, key.same_iff i j, key.same_iff i k, key.same_iff k j)

  pub lookup-insert_self : (k : K) (new : V) (m : Dict K V) → lookup k (insert k new m) ≡ some new
  lookup-insert_self k new m = ground (arith, lookup-insert k k new m, key.same_iff k k)

  pub lookup-insert_ne :
      (k j : K) (new : V) (m : Dict K V) → k ≢ j → lookup j (insert k new m) ≡ lookup j m
  lookup-insert_ne k j new m h = ground (arith, lookup-insert k j new m, key.same_iff k j)

-- The loop `for (auto& kv : m) kv.second = f(kv.first, kv.second)`.
module _ {ℓ κ} {K : Type ℓ} {V : Type κ} ⦃key : Key K⦄ where
  unfoldable pub update_all : (K → V → V) → Dict K V → Dict K V
  update_all f [] = []
  update_all f ((k, v) ∷ m) = (k, f k v) ∷ update_all f m
