-- ===== src/Devices/Trust.antt =====
-- When a cookie skips the second factor.
use webshell.Base.{
  ℕ, ◌<◌, ◌≡◌, ◌↔◌, ap, ◌∙◌, Bool, true, some, arith, Text, =?_iff, text_eq, inl, inr, Bool-cases,
  Option-cases, some_inj,
}
use webshell.HashMap
use webshell.HashMap.{HashMap}
use webshell.Identity.{Identity, identity_eq}
use webshell.Devices.{Device, DeviceStore, Client, write, trusted, authorize, authorize_found}

pub inner-write : (works : Bool) (st : DeviceStore) → (write works st).inner ≡ st.inner
unfolding write
inner-write works st = ground arith

module _ (token_hash : Text → Text) where
  -- The device behind a cookie, with every condition of trust.
  pub record IsTrusted (token : Text) (identity : Identity) (enrolled_at now : ℕ) (st : DeviceStore)
      (d : Device) : Type 0 where
    pub stored : HashMap.get (token_hash token) st.inner ≡ some d
    pub same_identity : d.identity ≡ identity
    pub unexpired : now < d.expires_at
    pub same_secret : d.enrolled_at ≡ enrolled_at

  trusted_iff :
      (identity : Identity) (enrolled_at now : ℕ) (d : Device)
      → (trusted identity enrolled_at now d ≡ true)
        ↔ ((d.identity ≡ identity) × (now < d.expires_at) × (d.enrolled_at ≡ enrolled_at))
  trusted_iff identity enrolled_at now d = ground (arith, =?_iff d.identity identity)

  authorize_sound :
      (works : Bool) (token : Text) (identity : Identity) (enrolled_at : ℕ) (client : Client)
      (now : ℕ)
      → (st : DeviceStore) (id : Text)
      → (authorize token_hash works token identity enrolled_at client now st).1 ≡ some id
      → (d : Device) × IsTrusted token identity enrolled_at now st d × (d.id ≡ id)
  unfolding authorize authorize_found
  authorize_sound works token identity enrolled_at client now st id h =
      elim (Option-cases (HashMap.get (token_hash token) st.inner)) [
        | inl e ↦ absurd (cc (rw e at h))
        | inr (d, e) ↦ elim (Bool-cases (trusted identity enrolled_at now d)) [
          | inl t ↦
              let answer : some d.id ≡ some id = rw (e, t) at h in
              let (same, live, secret) = (trusted_iff identity enrolled_at now d).0 t in
              (
                d,
                record { stored = e; same_identity = same; unexpired = live; same_secret = secret },
                some_inj answer,
              )
          | inr t ↦ absurd (cc (rw (e, t) at h))
        ]
      ]

  authorize_complete :
      (works : Bool) (token : Text) (identity : Identity) (enrolled_at : ℕ) (client : Client)
      (now : ℕ)
      → (st : DeviceStore) (d : Device) → IsTrusted token identity enrolled_at now st d
      → (authorize token_hash works token identity enrolled_at client now st).1 ≡ some d.id
  unfolding authorize authorize_found
  authorize_complete works token identity enrolled_at client now st d t = rw (
    t.stored,
    (trusted_iff identity enrolled_at now d).1 (t.same_identity, t.unexpired, t.same_secret),
  )

  -- A cookie skips the second factor exactly when its record is stored, belongs to this identity, has
  -- not expired, and was made against the identity's present secret; what the client sends besides
  -- the cookie, and a disk that cannot be written, play no part.
  pub authorize_iff :
      (works : Bool) (token : Text) (identity : Identity) (enrolled_at : ℕ) (client : Client)
      (now : ℕ)
      → (st : DeviceStore) (id : Text)
      → ((authorize token_hash works token identity enrolled_at client now st).1 ≡ some id)
        ↔ ((d : Device) × IsTrusted token identity enrolled_at now st d × (d.id ≡ id))
  authorize_iff works token identity enrolled_at client now st id = (
    authorize_sound works token identity enrolled_at client now st id,
    λ (d, t, e). authorize_complete works token identity enrolled_at client now st d t ∙ ap some e,
  )
