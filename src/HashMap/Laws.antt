-- ===== src/HashMap/Laws.antt =====
-- The laws by which the components use their maps.
use webshell.Base.{
  ◌+◌, ◌≤◌, ◌≡◌, refl, inl, inr, ◌≢◌, Bool, false, none, some, [], ◌∷◌, arith, if◌then◌else◌, Eq,
  ◌=?◌, =?_refl, Bool-cases, length,
}
use webshell.HashMap.{HashMap, get, remove, insert, retain, Distinct, keep_entry}

module _ {ℓ κ} {K : Type ℓ} {V : Type κ} ⦃e : Eq K⦄ where
  pub get-cons :
      (k j : K) (v : V) (m : HashMap K V)
      → get k ((j, v) ∷ m) ≡ (if j =? k then some v else get k m)
  unfolding get
  get-cons k j v m = refl

  pub get-cons_none :
      (k j : K) (v : V) (m : HashMap K V)
      → get k ((j, v) ∷ m) ≡ none
      → ((j =? k) ≡ false) × (get k m ≡ none)
  unfolding get
  get-cons_none k j v m h = ground arith

  pub get-nil : (k : K) → get {V = V} k [] ≡ none
  unfolding get
  get-nil k = refl

  pub get-remove :
      (k j : K) (m : HashMap K V) → get j (remove k m) ≡ (if k =? j then none else get j m)
  unfolding get remove
  get-remove k j [] = ground arith
  get-remove k j ((i, v) ∷ m) =
      ground (arith, e.beq_iff k j, e.beq_iff i k, e.beq_iff i j, get-remove k j m)

  pub get-remove_self : (k : K) (m : HashMap K V) → get k (remove k m) ≡ none
  get-remove_self k m = rw (get-remove k k m, =?_refl k)

  pub get-insert :
      (k j : K) (v : V) (m : HashMap K V)
      → get j (insert k v m) ≡ (if k =? j then some v else get j m)
  unfolding get insert
  get-insert k j v m = elim (Bool-cases (k =? j)) [
    | inl same ↦ rw same
    | inr other ↦ rw other (rw (get-remove k j m, other))
  ]

  pub get-insert_self : (k : K) (v : V) (m : HashMap K V) → get k (insert k v m) ≡ some v
  get-insert_self k v m = rw (get-insert k k v m, =?_refl k)

  pub get-insert_ne : (k j : K) (v : V) (m : HashMap K V) → k ≢ j → get j (insert k v m) ≡ get j m
  get-insert_ne k j v m h = rw (get-insert k j v m) (ground (arith, e.beq_iff k j))

  pub get-remove_ne : (k j : K) (m : HashMap K V) → k ≢ j → get j (remove k m) ≡ get j m
  get-remove_ne k j m h = rw (get-remove k j m) (ground (arith, e.beq_iff k j))

  get-retain-none :
      (p : K → V → Bool) (k : K) (m : HashMap K V) → get k m ≡ none → get k (retain p m) ≡ none
  unfolding get retain
  get-retain-none p k [] h = refl
  get-retain-none p k ((j, v) ∷ m) h = ground (arith, get-retain-none p k m)

  -- What `retain` leaves under a key.
  pub get-retain :
      (p : K → V → Bool) (k : K) (m : HashMap K V)
      → Distinct m
      → get k (retain p m) ≡ keep_entry (p k) (get k m)
  unfolding get retain
  get-retain p k [] d = refl
  get-retain p k ((j, v) ∷ m) d =
      ground (arith, e.beq_iff j k, get-retain p k m d.1, get-retain-none p k m)

  pub remove-Distinct : (k : K) (m : HashMap K V) → Distinct m → Distinct (remove k m)
  unfolding remove
  remove-Distinct k [] d = d
  remove-Distinct k ((j, v) ∷ m) d = ground (arith, get-remove k j m, remove-Distinct k m d.1)

  pub insert-Distinct : (k : K) (v : V) (m : HashMap K V) → Distinct m → Distinct (insert k v m)
  unfolding insert
  insert-Distinct k v m d = (get-remove_self k m, remove-Distinct k m d)

  pub retain-Distinct : (p : K → V → Bool) (m : HashMap K V) → Distinct m → Distinct (retain p m)
  unfolding retain
  retain-Distinct p [] d = d
  retain-Distinct p ((j, v) ∷ m) d = ground (arith, get-retain-none p j m, retain-Distinct p m d.1)

  pub length-remove-le : (k : K) (m : HashMap K V) → length (remove k m) ≤ length m
  unfolding remove
  length-remove-le k [] = omega arith
  length-remove-le k ((j, v) ∷ m) = ground (arith, length-remove-le k m)

  pub length-insert-le : (k : K) (v : V) (m : HashMap K V) → length (insert k v m) ≤ length m + 1
  unfolding insert
  length-insert-le k v m = omega (arith, length-remove-le k m)

  pub length-remove_present :
      (k : K) (m : HashMap K V) (v : V) → get k m ≡ some v → length (remove k m) + 1 ≤ length m
  unfolding remove get
  length-remove_present k [] v h = cc
  length-remove_present k ((j, w) ∷ m) v h =
      ground (arith, length-remove_present k m v, length-remove-le k m)

  pub remove_absent : (k : K) (m : HashMap K V) → get k m ≡ none → remove k m ≡ m
  unfolding remove get
  remove_absent k [] h = refl
  remove_absent k ((j, v) ∷ m) h = ground (arith, remove_absent k m)
