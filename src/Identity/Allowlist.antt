-- ===== src/Identity/Allowlist.antt =====
-- What the start-up check of the allowlist lets through.
use webshell.Base.{
  ◌≡◌, ◌≢◌, ◌↔◌, ◌⊎◌, refl, true, false, none, List, [], ◌∷◌, arith, All, =?_sym, inl, inr,
  Option-cases,
}
use webshell.Identity.{
  Identity, Provider, local, google, microsoft, apple, identity_beq_iff, identity_eq, supported,
  contains, first_unsupported, first_duplicate, check_duplicates, check_users, validate, valid,
}

-- No identity is listed twice.
abbrev pub Unrepeated : List Identity → Type 0
Unrepeated [] = Unit
Unrepeated (u ∷ us) = All (λ v. u ≢ v) us × Unrepeated us

-- The user is a local account or signs in with Google.
abbrev pub IsImplemented : Identity → Type 0
IsImplemented u = (u.provider ≡ local) ⊎ (u.provider ≡ google)

-- The same two as `contains` and `supported` compute them.
abbrev NoneContained : List Identity → Type 0
NoneContained [] = Unit
NoneContained (u ∷ us) = (contains us u ≡ false) × NoneContained us

abbrev AllSupported : List Identity → Type 0
AllSupported = All (λ u. supported u.provider ≡ true)

unsupported_none : (us : List Identity) → first_unsupported us ≡ none → AllSupported us
unfolding first_unsupported
unsupported_none [] h = tt
unsupported_none (u ∷ us) h = ground (arith, unsupported_none us)

none_unsupported : (us : List Identity) → AllSupported us → first_unsupported us ≡ none
unfolding first_unsupported
none_unsupported [] h = refl
none_unsupported (u ∷ us) h = ground (arith, none_unsupported us h.1)

abbrev Unseen : List Identity → List Identity → Type 0
Unseen seen = All (λ u. contains seen u ≡ false)

Unseen-cons :
    (u : Identity) (seen us : List Identity)
    → Unseen (u ∷ seen) us
    → (contains us u ≡ false) × Unseen seen us
unfolding contains
Unseen-cons u seen [] h = (refl, tt)
Unseen-cons u seen (v ∷ vs) h = ground (arith, Unseen-cons u seen vs h.1, =?_sym u v)

cons-Unseen :
    (u : Identity) (seen us : List Identity)
    → contains us u ≡ false
    → Unseen seen us
    → Unseen (u ∷ seen) us
unfolding contains
cons-Unseen u seen [] c h = tt
cons-Unseen u seen (v ∷ vs) c h = ground (arith, cons-Unseen u seen vs, =?_sym u v)

duplicate_none :
    (seen us : List Identity) → first_duplicate seen us ≡ none → NoneContained us × Unseen seen us
unfolding first_duplicate
duplicate_none seen [] h = (tt, tt)
duplicate_none seen (u ∷ us) h = ground (arith, duplicate_none (u ∷ seen) us, Unseen-cons u seen us)

none_duplicate :
    (seen us : List Identity) → NoneContained us → Unseen seen us → first_duplicate seen us ≡ none
unfolding first_duplicate
none_duplicate seen [] d h = refl
none_duplicate seen (u ∷ us) d h =
    ground (arith, none_duplicate (u ∷ seen) us d.1, cons-Unseen u seen us d.0 h.1)

Unseen-nil : (us : List Identity) → Unseen [] us
unfolding contains
Unseen-nil [] = tt
Unseen-nil (u ∷ us) = (refl, Unseen-nil us)

validate_sound :
    (us : List Identity) → validate us ≡ valid → (us ≢ []) × AllSupported us × NoneContained us
unfolding validate
validate_sound [] h = cc
validate_sound (u ∷ us) h = elim (Option-cases (first_unsupported (u ∷ us))) [
  | inl e ↦ elim (Option-cases (first_duplicate [] (u ∷ us))) [
    | inl e' ↦ (λ n. cc, unsupported_none (u ∷ us) e, (duplicate_none [] (u ∷ us) e').0)
    | inr (v, e') ↦ absurd (ground arith)
  ]
  | inr (v, e) ↦ absurd (ground arith)
]

validate_complete :
    (us : List Identity) → us ≢ [] → AllSupported us → NoneContained us → validate us ≡ valid
unfolding validate check_users check_duplicates
validate_complete [] h a d = absurd (h refl)
validate_complete (u ∷ us) h a d =
    rw (none_unsupported (u ∷ us) a, none_duplicate [] (u ∷ us) d (Unseen-nil (u ∷ us)))

-- `contains` and `supported` say what their names say.
contains-none : (us : List Identity) (u : Identity) → (contains us u ≡ false) ↔ All (λ v. u ≢ v) us
unfolding contains
contains-none [] u = (λ e. tt, λ h. refl)
contains-none (v ∷ vs) u =
    let (there, back) = contains-none vs u in ground (arith, identity_beq_iff v u, there, back)

supported_iff : (u : Identity) → (supported u.provider ≡ true) ↔ IsImplemented u
unfolding supported
supported_iff u = of_provider u.provider
  where
    of_provider : (p : Provider) → (supported p ≡ true) ↔ ((p ≡ local) ⊎ (p ≡ google))
    of_provider local = (λ e. inl refl, λ h. refl)
    of_provider google = (λ e. inr refl, λ h. refl)
    of_provider microsoft = ground arith
    of_provider apple = ground arith

Unrepeated-iff : (us : List Identity) → NoneContained us ↔ Unrepeated us
Unrepeated-iff [] = (λ h. tt, λ h. tt)
Unrepeated-iff (u ∷ us) =
    let (there, back) = Unrepeated-iff us in
    let (apart, unseen) = contains-none us u in
    (λ h. (apart h.0, there h.1), λ h. (unseen h.0, back h.1))

AllSupported-iff : (us : List Identity) → AllSupported us ↔ All IsImplemented us
AllSupported-iff [] = (λ h. tt, λ h. tt)
AllSupported-iff (u ∷ us) =
    let (there, back) = AllSupported-iff us in
    let (known, known_back) = supported_iff u in
    (λ h. (known h.0, there h.1), λ h. (known_back h.0, back h.1))

-- A list of users passes exactly when it is not empty, every user in it is a local account or one of
-- Google, and no two entries are equal.
pub validate_iff :
    (us : List Identity)
    → (validate us ≡ valid) ↔ ((us ≢ []) × All IsImplemented us × Unrepeated us)
validate_iff us =
    let (known, known_back) = AllSupported-iff us in
    let (apart, apart_back) = Unrepeated-iff us in
    (
      λ e. let (h, a, d) = validate_sound us e in (h, known a, apart d),
      λ (h, a, d). validate_complete us h (known_back a) (apart_back d),
    )
