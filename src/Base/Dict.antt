-- ===== src/Base/Dict.antt =====
-- Python's `dict` as an association list in insertion order, and `set` as a list of its elements.
use mathlib.Core.Path.{◌≡◌, refl, ◌∙◌}
use mathlib.Core.Logic.{inl, inr}
use mathlib.Core.Bool.{Bool, true, false}
use mathlib.Core.Option.{Option, none, some}
use mathlib.Core.List.{List, [], ◌∷◌}
use native.Mathlib.Omega.{arith}
use camera_ui_rpc.Base.Tests.{HasEq, Bool-cases, ◌==◌, if◌then◌else◌}

abbrev pub Dict {ℓ κ} : Type ℓ → Type κ → Type (ℓ ⊔ κ)
Dict K V = List (K × V)

module _ {ℓ κ} {K : Type ℓ} {V : Type κ} ⦃e : HasEq K⦄ where
  -- `d.get(wanted)`
  unfoldable pub lookup : K → Dict K V → Option V
  lookup wanted [] = none
  lookup wanted (item ∷ others) =
      let later = lookup wanted others in if item.0 == wanted then some item.1 else later

  -- `d[key] = value`
  unfoldable pub insert : K → V → Dict K V → Dict K V
  insert key value [] = (key, value) ∷ []
  insert key value (item ∷ others) =
      let later = insert key value others in
      if item.0 == key then (item.0, value) ∷ others else item ∷ later

  -- `d.pop(key, None)` and `del d[key]`
  unfoldable pub erase : K → Dict K V → Dict K V
  erase key [] = []
  erase key (item ∷ others) =
      let later = erase key others in if item.0 == key then later else item ∷ later

  pub lookup-insert :
      (key wanted : K) (value : V) (d : Dict K V)
      → lookup wanted (insert key value d) ≡ (if key == wanted then some value else lookup wanted d)
  unfolding lookup insert
  lookup-insert key wanted value [] = refl
  lookup-insert key wanted value (item ∷ others) = ground (
    arith,
    e.same_iff key wanted,
    e.same_iff item.0 key,
    e.same_iff item.0 wanted,
    lookup-insert key wanted value others,
  )

  pub lookup-erase :
      (key wanted : K) (d : Dict K V)
      → lookup wanted (erase key d) ≡ (if key == wanted then none else lookup wanted d)
  unfolding lookup erase
  lookup-erase key wanted [] = ground arith
  lookup-erase key wanted (item ∷ others) = ground (
    arith,
    e.same_iff key wanted,
    e.same_iff item.0 key,
    e.same_iff item.0 wanted,
    lookup-erase key wanted others,
  )

module _ {ℓ κ} {K : Type ℓ} {V : Type κ} ⦃e : HasEq K⦄ where
  -- No key stands in the dictionary twice.
  abbrev pub UniqueKeys : Dict K V → Type κ
  UniqueKeys [] = Unit
  UniqueKeys ((k, v) ∷ m) = (lookup k m ≡ none) × UniqueKeys m

  pub UniqueKeys-insert : (k : K) (v : V) (m : Dict K V) → UniqueKeys m → UniqueKeys (insert k v m)
  unfolding insert lookup
  UniqueKeys-insert k v [] u = (refl, tt)
  UniqueKeys-insert k v ((j, w) ∷ m) u = elim (Bool-cases (j == k)) [
    | inl hit ↦ rw hit u
    | inr miss ↦ rw miss (
      lookup-insert k j v m ∙ ground (arith, e.same_iff k j, e.same_iff j k, miss, u.0),
      UniqueKeys-insert k v m u.1,
    )
  ]

  pub UniqueKeys-erase : (k : K) (m : Dict K V) → UniqueKeys m → UniqueKeys (erase k m)
  unfolding erase
  UniqueKeys-erase k [] u = tt
  UniqueKeys-erase k ((j, w) ∷ m) u = elim (Bool-cases (j == k)) [
    | inl hit ↦ rw hit (UniqueKeys-erase k m u.1)
    | inr miss ↦ rw miss (lookup-erase k j m ∙ ground (arith, u.0), UniqueKeys-erase k m u.1)
  ]

module _ {ℓ} {K : Type ℓ} ⦃e : HasEq K⦄ where
  -- `k in s`
  unfoldable pub contains : K → List K → Bool
  contains k [] = false
  contains k (j ∷ s) = let rest = contains k s in if j == k then true else rest

  -- `s.add(k)`
  unfoldable pub add : K → List K → List K
  unfolding contains
  add k s = if contains k s then s else k ∷ s

  pub contains-add :
      (k j : K) (s : List K) → contains j (add k s) ≡ (if k == j then true else contains j s)
  unfolding add
  contains-add k j s = elim (Bool-cases (contains k s)) [
    | inl old ↦ rw old (ground (arith, e.same_iff k j, old))
    | inr new ↦ rw (new, contains) refl
  ]

pub ruleset dict_laws = (lookup-insert, lookup-erase, contains-add)
