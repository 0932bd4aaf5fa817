-- ===== src/Base/Map.antt =====
-- std::map and std::unordered_map as association lists. The order of the entries is not modelled:
-- an entry keeps its place, and a new one goes to the end.
use Prim.Native.Nat.{◌+◌, ◌≤◌}
use mathlib.Core.Path.{◌≡◌, refl}
use mathlib.Core.Logic.{inl, inr}
use mathlib.Core.Bool.{Bool, true, false}
use mathlib.Core.List.{List, [], ◌∷◌, ◌++◌}
use mathlib.Core.Option.{Option, none, some}
use native.Mathlib.Omega.{arith}
use multi_hardware.Base.Tests.{KeyTest, ◌==◌, if◌then◌else◌, Bool-cases}
use multi_hardware.Base.Lists.{length}

abbrev pub Map {ℓ κ} : Type ℓ → Type κ → Type (ℓ ⊔ κ)
Map K V = List (K × V)

abbrev pub is_some {ℓ} : {A : Type ℓ} → Option A → Bool
is_some none = false
is_some (some a) = true

module _ {ℓ κ} {K : Type ℓ} {V : Type κ} ⦃test : KeyTest K⦄ where
  unfoldable pub lookup : K → Map K V → Option V
  lookup key [] = none
  lookup key ((other, value) ∷ entries) = if other == key then some value else lookup key entries

  unfoldable pub has : K → Map K V → Bool
  unfolding lookup
  has key entries = is_some (lookup key entries)

  -- m[key] = value.
  unfoldable pub insert : K → V → Map K V → Map K V
  insert key value [] = (key, value) ∷ []
  insert key value ((other, held) ∷ entries) =
      if other == key then (other, value) ∷ entries else (other, held) ∷ insert key value entries

  -- m.insert({key, value}) and m.emplace(key, value): an entry that is there stays.
  unfoldable pub emplace : K → V → Map K V → Map K V
  unfolding has
  emplace key value entries = if has key entries then entries else entries ++ (key, value) ∷ []

  unfoldable pub erase : K → Map K V → Map K V
  erase key [] = []
  erase key ((other, held) ∷ entries) =
      if other == key then erase key entries else (other, held) ∷ erase key entries

  -- The loop that erases each entry whose key does not pass the test.
  unfoldable pub keep_keys : (K → Bool) → Map K V → Map K V
  keep_keys p [] = []
  keep_keys p ((other, held) ∷ entries) =
      if p other then (other, held) ∷ keep_keys p entries else keep_keys p entries

  pub lookup-insert :
      (key other : K) (value : V) (entries : Map K V)
      → lookup other (insert key value entries)
        ≡ (if key == other then some value else lookup other entries)
  unfolding lookup insert
  lookup-insert key other value [] = refl
  lookup-insert key other value ((place, held) ∷ entries) = ground (
    arith,
    test.same_iff key other,
    test.same_iff place key,
    test.same_iff place other,
    lookup-insert key other value entries,
  )

  pub lookup-erase :
      (key other : K) (entries : Map K V)
      → lookup other (erase key entries) ≡ (if key == other then none else lookup other entries)
  unfolding lookup erase
  lookup-erase key other [] = ground arith
  lookup-erase key other ((place, held) ∷ entries) = ground (
    arith,
    test.same_iff key other,
    test.same_iff place key,
    test.same_iff place other,
    lookup-erase key other entries,
  )

  lookup-append_one :
      (key other : K) (value : V) (entries : Map K V)
      → lookup key entries ≡ none
      → lookup other (entries ++ (key, value) ∷ [])
        ≡ (if key == other then some value else lookup other entries)
  unfolding lookup
  lookup-append_one key other value [] h = refl
  lookup-append_one key other value ((place, held) ∷ entries) h = ground (
    arith,
    test.same_iff key other,
    test.same_iff place key,
    test.same_iff place other,
    lookup-append_one key other value entries,
  )

  pub lookup-emplace :
      (key other : K) (value : V) (entries : Map K V)
      → lookup other (emplace key value entries) ≡ (
          if has key entries
          then lookup other entries
          else if key == other
          then some value
          else lookup other entries)
  unfolding emplace
  lookup-emplace key other value entries = ground (arith, lookup-append_one key other value entries)

  pub lookup-keep_keys :
      (p : K → Bool) (key : K) (entries : Map K V)
      → lookup key (keep_keys p entries) ≡ (if p key then lookup key entries else none)
  unfolding lookup keep_keys
  lookup-keep_keys p key [] = ground arith
  lookup-keep_keys p key ((other, held) ∷ entries) = elim (Bool-cases (p other)) [
    | inl kept ↦ rw kept (ground (arith, test.same_iff other key, lookup-keep_keys p key entries))
    | inr gone ↦ rw gone (ground (arith, test.same_iff other key, lookup-keep_keys p key entries))
  ]

  pub length-insert :
      (key : K) (value : V) (entries : Map K V)
      → length (insert key value entries) ≤ length entries + 1
  unfolding insert
  length-insert key value [] = omega arith
  length-insert key value ((other, held) ∷ entries) =
      ground (arith, length-insert key value entries)
