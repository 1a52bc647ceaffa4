-- ===== src/Devices/Eviction.antt =====
-- How many devices of an identity `mint` leaves.
use webshell.Base.{
  ℕ, zero, suc, ◌+◌, ◌-◌, ◌≤◌, ◌≡◌, refl, ap, sym, ◌∙◌, Bool, true, false, not, none, some, List,
  [], ◌∷◌, arith, Text, ◌=?◌, =?_iff, =?_refl, =?_sym, text_eq, ◌≢◌, inl, inr, Bool-cases, leb,
  length, length-take, take, any_of, max,
}
use webshell.Base.Sort.{sort_by, insert_sorted, any-sort_by, any-insert_sorted, length-sort_by}
use webshell.HashMap
use webshell.HashMap.{HashMap, Distinct}
use webshell.HashMap.Laws.{get-remove_ne, remove-Distinct, retain-Distinct}
use webshell.Identity.{Identity, identity_eq}
use webshell.Devices.{
  Device, DeviceStore, Client, expired, drop_expired, mine, remove_all, evict, mint, write,
}

-- A key is in the list.
abbrev has_key : Text → List (Text × ℕ) → Bool
has_key k ks = any_of (λ e. e.0 =? k) ks

-- No key twice.
abbrev NoTwice : List (Text × ℕ) → Type 0
NoTwice [] = Unit
NoTwice ((k, used) ∷ ks) = (has_key k ks ≡ false) × NoTwice ks

-- Every key is that of a device of the identity.
abbrev AllOwned : Identity → HashMap Text Device → List (Text × ℕ) → Type 0
AllOwned identity m ks =
    (k : Text)
    → has_key k ks ≡ true
    → (d : Device) × (HashMap.get k m ≡ some d) × ((d.identity =? identity) ≡ true)

length-mine-remove :
    (identity : Identity) (k : Text) (m : HashMap Text Device)
    → length (mine identity (HashMap.remove k m)) ≤ length (mine identity m)
unfolding mine HashMap.remove
length-mine-remove identity k [] = omega arith
length-mine-remove identity k ((j, d) ∷ m) = ground (arith, length-mine-remove identity k m)

length-mine-remove_owned :
    (identity : Identity) (k : Text) (m : HashMap Text Device) (d : Device)
    → HashMap.get k m ≡ some d
    → (d.identity =? identity) ≡ true
    → length (mine identity (HashMap.remove k m)) + 1 ≤ length (mine identity m)
unfolding mine HashMap.remove HashMap.get
length-mine-remove_owned identity k [] d h o = cc
length-mine-remove_owned identity k ((j, e) ∷ m) d h o =
    ground (arith, length-mine-remove_owned identity k m d, length-mine-remove identity k m)

remaining-AllOwned :
    (identity : Identity) (k : Text) (used : ℕ) (ks : List (Text × ℕ)) (m : HashMap Text Device)
    → NoTwice ((k, used) ∷ ks)
    → AllOwned identity m ((k, used) ∷ ks)
    → AllOwned identity (HashMap.remove k m) ks
remaining-AllOwned identity k used ks m n o j h =
    let (d, found, owner) = o j (ground (arith, h)) in
    let ne : k ≢ j = λ e. absurd (cc (sym n.0 ∙ ap (λ x. has_key x ks) e ∙ h)) in
    (d, get-remove_ne k j m ne ∙ found, owner)

length-remove_all :
    (identity : Identity) (ks : List (Text × ℕ)) (m : HashMap Text Device)
    → NoTwice ks
    → AllOwned identity m ks
    → length (mine identity (remove_all ks m)) + length ks ≤ length (mine identity m)
unfolding remove_all
length-remove_all identity [] m n o = omega arith
length-remove_all identity ((k, used) ∷ ks) m n o =
    let (d, found, owner) = o k (ground (arith, =?_refl k)) in
    let one = length-mine-remove_owned identity k m d found owner in
    let rest =
      length-remove_all identity ks (HashMap.remove k m) n.1
        (remaining-AllOwned identity k used ks m n o) in
    omega (arith, one, rest)

has_key-take :
    (k : Text) (n : ℕ) (ks : List (Text × ℕ)) → has_key k ks ≡ false → has_key k (take n ks) ≡ false
has_key-take k zero ks h = refl
has_key-take k (suc n) [] h = refl
has_key-take k (suc n) (e ∷ ks) h = ground (arith, has_key-take k n ks)

NoTwice-take : (n : ℕ) (ks : List (Text × ℕ)) → NoTwice ks → NoTwice (take n ks)
NoTwice-take zero ks h = tt
NoTwice-take (suc n) [] h = tt
NoTwice-take (suc n) ((k, used) ∷ ks) h = (has_key-take k n ks h.0, NoTwice-take n ks h.1)

NoTwice-insert_sorted :
    (le : Text × ℕ → Text × ℕ → Bool) (e : Text × ℕ) (ks : List (Text × ℕ))
    → has_key e.0 ks ≡ false
    → NoTwice ks
    → NoTwice (insert_sorted le e ks)
unfolding insert_sorted
NoTwice-insert_sorted le (k, used) [] h n = (h, n)
NoTwice-insert_sorted le (k, used) ((j, u) ∷ ks) h n = elim (Bool-cases (le (k, used) (j, u))) [
  | inl first ↦ rw first (h, n)
  | inr later ↦ rw later (
    any-insert_sorted le (λ e. e.0 =? j) (k, used) ks ∙ ground (arith, =?_sym k j, h, n.0),
    NoTwice-insert_sorted le (k, used) ks (ground (arith, h)) n.1,
  )
]

NoTwice-sort_by :
    (le : Text × ℕ → Text × ℕ → Bool) (ks : List (Text × ℕ)) → NoTwice ks → NoTwice (sort_by le ks)
unfolding sort_by
NoTwice-sort_by le [] n = tt
NoTwice-sort_by le ((k, used) ∷ ks) n =
    NoTwice-insert_sorted le (k, used) (sort_by le ks) (any-sort_by le (λ e. e.0 =? k) ks ∙ n.0)
      (NoTwice-sort_by le ks n.1)

has_key-mine :
    (identity : Identity) (k : Text) (m : HashMap Text Device)
    → HashMap.get k m ≡ none
    → has_key k (mine identity m) ≡ false
unfolding mine HashMap.get
has_key-mine identity k [] h = refl
has_key-mine identity k ((j, d) ∷ m) h = ground (arith, has_key-mine identity k m)

NoTwice-mine :
    (identity : Identity) (m : HashMap Text Device) → Distinct m → NoTwice (mine identity m)
unfolding mine
NoTwice-mine identity [] d = tt
NoTwice-mine identity ((k, e) ∷ m) d = elim (Bool-cases (e.identity =? identity)) [
  | inl same ↦ rw same (has_key-mine identity k m d.0, NoTwice-mine identity m d.1)
  | inr other ↦ rw other (NoTwice-mine identity m d.1)
]

AllOwned-mine :
    (identity : Identity) (m : HashMap Text Device)
    → Distinct m
    → AllOwned identity m (mine identity m)
unfolding mine HashMap.get
AllOwned-mine identity [] d k h = absurd (cc h)
AllOwned-mine identity ((j, e) ∷ m) d k h = elim (Bool-cases (j =? k)) [
  | inr other ↦
      let later : has_key k (mine identity m) ≡ true = elim (Bool-cases (e.identity =? identity)) [
        | inl same ↦ rw (same, other) at h
        | inr foreign ↦ rw foreign at h
      ] in
      let (f, found, owner) = AllOwned-mine identity m d.1 k later in (f, rw other found, owner)
  | inl here ↦ elim (Bool-cases (e.identity =? identity)) [
    | inl same ↦ (e, rw here refl, same)
    | inr foreign ↦
        let j=k : j ≡ k = (=?_iff j k).0 here in
        let later : has_key k (mine identity m) ≡ true = rw foreign at h in
        absurd (cc (sym (has_key-mine identity k m (rw j=k at d.0)) ∙ later))
  ]
]

has_key-take_some :
    (k : Text) (n : ℕ) (ks : List (Text × ℕ)) → has_key k (take n ks) ≡ true → has_key k ks ≡ true
has_key-take_some k n ks h = elim (Bool-cases (has_key k ks)) [
  | inl there ↦ there
  | inr gone ↦ absurd (cc (sym (has_key-take k n ks gone) ∙ h))
]

length-evict :
    (identity : Identity) (limit : ℕ) (m : HashMap Text Device)
    → Distinct m
    → length (mine identity (evict identity limit m)) + 1 ≤ max limit 1
unfolding evict
length-evict identity limit m d =
    let owned = mine identity m in
    let le : Text × ℕ → Text × ℕ → Bool = λ a b. leb a.1 b.1 in
    let n = length owned + 1 - max limit 1 in
    let sorted = sort_by le owned in
    let all_owned : AllOwned identity m (take n sorted) = λ k h.
      AllOwned-mine identity m d k
        (sym (any-sort_by le (λ e. e.0 =? k) owned) ∙ has_key-take_some k n sorted h) in
    let bound =
      length-remove_all identity (take n sorted) m
        (NoTwice-take n sorted (NoTwice-sort_by le owned (NoTwice-mine identity m d))) all_owned in
    ground (arith, bound, length-take n sorted, length-sort_by le owned)

remove_all-Distinct :
    (ks : List (Text × ℕ)) (m : HashMap Text Device) → Distinct m → Distinct (remove_all ks m)
unfolding remove_all
remove_all-Distinct [] m d = d
remove_all-Distinct ((k, used) ∷ ks) m d =
    remove_all-Distinct ks (HashMap.remove k m) (remove-Distinct k m d)

length-mine-insert :
    (identity : Identity) (k : Text) (d : Device) (m : HashMap Text Device)
    → length (mine identity (HashMap.insert k d m)) ≤ length (mine identity m) + 1
unfolding mine HashMap.insert
length-mine-insert identity k d m = ground (arith, length-mine-remove identity k m)

length-mine-taken_back :
    (identity : Identity) (k : Text) (d : Device) (m : HashMap Text Device)
    → length (mine identity (HashMap.remove k (HashMap.insert k d m)))
      ≤ length (mine identity m) + 1
length-mine-taken_back identity k d m =
    omega (
      arith,
      length-mine-insert identity k d m,
      length-mine-remove identity k (HashMap.insert k d m),
    )

module _ (token_hash : Text → Text) where
  -- However many devices an identity has, after `mint` it has at most the configured number, and one
  -- if that is 0, whether or not the file could be written.
  pub mint-bound :
      (works : Bool) (token id : Text) (identity : Identity) (enrolled_at window_secs limit : ℕ)
      → (client : Client) (now : ℕ) (st : DeviceStore) → Distinct st.inner
      → length (
          mine identity
            (mint token_hash works token id identity enrolled_at window_secs limit client now
              st).0.inner)
        ≤ max limit 1
  unfolding mint write
  mint-bound true token id identity enrolled_at window_secs limit client now st d =
      let m = drop_expired now st.inner in
      let small =
        length-evict identity limit m (retain-Distinct (λ _ e. not (expired e now)) st.inner d) in
      omega
        (arith, small, length-mine-insert identity (token_hash token) _ (evict identity limit m))
  mint-bound false token id identity enrolled_at window_secs limit client now st d =
      let m = drop_expired now st.inner in
      let small =
        length-evict identity limit m (retain-Distinct (λ _ e. not (expired e now)) st.inner d) in
      omega (
        arith,
        small,
        length-mine-taken_back identity (token_hash token) _ (evict identity limit m),
      )
