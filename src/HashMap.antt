-- ===== src/HashMap.antt =====
-- `std::collections::HashMap` as an association list, most recent insertion first. The order in
-- which the source iterates over a map is not specified; here it is the order of the list.
pub mod Laws
use webshell.Base.{
  ℕ, ◌≡◌, Bool, true, false, Option, none, some, List, [], ◌∷◌, if◌then◌else◌, Eq, ◌=?◌, is_some,
}

abbrev pub HashMap {ℓ κ} : Type ℓ → Type κ → Type (ℓ ⊔ κ)
HashMap K V = List (K × V)

module _ {ℓ κ} {K : Type ℓ} {V : Type κ} ⦃e : Eq K⦄ where
  -- `map.get(k)`
  unfoldable pub get : K → HashMap K V → Option V
  get k [] = none
  get k ((j, v) ∷ m) = if j =? k then some v else get k m

  -- `map.remove(k)`, the map that is left
  unfoldable pub remove : K → HashMap K V → HashMap K V
  remove k [] = []
  remove k ((j, v) ∷ m) = let rest = remove k m in if j =? k then rest else (j, v) ∷ rest

  -- `map.insert(k, v)`
  unfoldable pub insert : K → V → HashMap K V → HashMap K V
  unfolding remove
  insert k v m = (k, v) ∷ remove k m

  -- `map.contains_key(k)`
  abbrev pub contains_key : K → HashMap K V → Bool
  contains_key k m = is_some (get k m)

  -- No key stands twice.
  abbrev pub Distinct : HashMap K V → Type κ
  Distinct [] = Unit
  Distinct ((k, v) ∷ m) = (get k m ≡ none) × Distinct m

module _ {ℓ κ} {K : Type ℓ} {V : Type κ} where
  -- `map.retain(p)`
  unfoldable pub retain : (K → V → Bool) → HashMap K V → HashMap K V
  retain p [] = []
  retain p ((k, v) ∷ m) = let rest = retain p m in if p k v then (k, v) ∷ rest else rest

  -- the values in iteration order
  abbrev pub values : HashMap K V → List V
  values [] = []
  values ((k, v) ∷ m) = v ∷ values m

-- an entry that `retain` keeps
abbrev pub keep_entry {κ} : {V : Type κ} → (V → Bool) → Option V → Option V
keep_entry p none = none
keep_entry p (some v) = if p v then some v else none
