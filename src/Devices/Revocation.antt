-- ===== src/Devices/Revocation.antt =====
-- What revocation takes away, in memory and after a restart.
use webshell.Base.{
  ℕ, ◌<◌, ◌≡◌, ◌⊎◌, refl, ap, sym, ◌∙◌, Bool, true, false, Option, none, some, List, [], ◌∷◌, arith,
  Text, ◌=?◌, =?_iff, text_eq, inl, inr, Bool-cases, Option-cases, some_inj, ltb, All,
}
use webshell.Base.Sort.{sort_by, All-sort_by}
use webshell.HashMap
use webshell.HashMap.{HashMap, values}
use webshell.HashMap.Laws.{get-insert, get-remove_self, get-nil}
use webshell.Identity.{Identity, identity_eq}
use webshell.Devices.{
  Device, DeviceStore, Client, write, file_le, expired, not_of, collect, load, on_disk, shrink,
  revoke_all, authorize, forget, revoke_token, forget_if_owned,
}
use webshell.Devices.Trust.{inner-write, authorize_iff}

-- A map without devices of an identity.
abbrev pub Without : Identity → HashMap Text Device → Type 0
Without identity m =
    (k : Text) (d : Device) → HashMap.get k m ≡ some d → (d.identity =? identity) ≡ false

abbrev Other : Identity → Device → Type 0
Other identity d = (d.identity =? identity) ≡ false

not_of-Without :
    (identity : Identity) (m : HashMap Text Device) → Without identity (not_of identity m)
unfolding HashMap.get HashMap.retain
not_of-Without identity [] k d h = absurd (cc h)
not_of-Without identity ((j, e) ∷ m) k d h = ground (arith, not_of-Without identity m k d)

values-not_of :
    (identity : Identity) (m : HashMap Text Device)
    → All (Other identity) (values (not_of identity m))
unfolding HashMap.retain
values-not_of identity [] = tt
values-not_of identity ((k, d) ∷ m) = elim (Bool-cases (d.identity =? identity)) [
  | inl same ↦ rw same (values-not_of identity m)
  | inr other ↦ rw other (other, values-not_of identity m)
]

Without-insert :
    (identity : Identity) (k : Text) (d : Device) (m : HashMap Text Device)
    → Other identity d
    → Without identity m
    → Without identity (HashMap.insert k d m)
Without-insert identity k d m o h j e found = ground (arith, get-insert k j d m, h j e)

Without-collect :
    (identity : Identity) (now : ℕ) (m : HashMap Text Device) (ds : List Device)
    → All (Other identity) ds
    → Without identity m
    → Without identity (collect now m ds)
unfolding collect
Without-collect identity now m [] os h = h
Without-collect identity now m (d ∷ ds) os h = elim (Bool-cases (expired d now)) [
  | inl old ↦ rw old (Without-collect identity now m ds os.1 h)
  | inr live ↦ rw live (
      Without-collect identity now (HashMap.insert d.token_hash d m) ds os.1
        (Without-insert identity d.token_hash d m os.0 h))
]

shrink-inner :
    (works : Bool) (kept : HashMap Text Device) (st : DeviceStore)
    → (shrink works kept st).0.inner ≡ kept
unfolding shrink write
shrink-inner works kept st = ground arith

shrink-disk :
    (kept : HashMap Text Device) (st : DeviceStore)
    → 0 < (shrink true kept st).1
    → (shrink true kept st).0.disk ≡ some (sort_by file_le (values kept))
unfolding shrink write
shrink-disk kept st h = ground arith

module _ (token_hash : Text → Text) where
  Without-refused :
      (works : Bool) (token : Text) (identity : Identity) (enrolled_at : ℕ) (client : Client)
      (now : ℕ)
      → (st : DeviceStore) → Without identity st.inner
      → (authorize token_hash works token identity enrolled_at client now st).1 ≡ none
  Without-refused works token identity enrolled_at client now st h =
      elim (Option-cases (authorize token_hash works token identity enrolled_at client now st).1) [
        | inl e ↦ e
        | inr (id, e) ↦
            let (d, t, _) =
              (authorize_iff token_hash works token identity enrolled_at client now st id).0 e in
            absurd
              (cc (h (token_hash token) d t.stored, (=?_iff d.identity identity).1 t.same_identity))
      ]

  -- After `revoke_all` no cookie is trusted for that identity any more, whether or not the file could
  -- be written; and if it was written because there was something to revoke, then none is after a
  -- restart either.
  pub revoke_all-refused :
      (works again : Bool) (token : Text) (identity : Identity) (enrolled_at : ℕ) (client : Client)
      → (now later : ℕ) (st : DeviceStore)
      → ((authorize token_hash again token identity enrolled_at client now
            (revoke_all works identity st).0).1
          ≡ none)
        × (((revoke_all true identity st).1 ≡ 0)
            ⊎ ((authorize token_hash again token identity enrolled_at client now
                  (load later (revoke_all true identity st).0.disk)).1
                ≡ none))
  unfolding revoke_all load on_disk
  revoke_all-refused works again token identity enrolled_at client now later st =
      let kept = not_of identity st.inner in
      (
        Without-refused again token identity enrolled_at client now (shrink works kept st).0
            (rw (shrink-inner works kept st) (not_of-Without identity st.inner)),
        elim (Bool-cases (ltb 0 (shrink true kept st).1)) [
          | inl some_gone ↦ inr (
              Without-refused again token identity enrolled_at client now _ (
                rw (shrink-disk kept st (ground arith)) (
                  Without-collect identity later [] (sort_by file_le (values kept))
                    (All-sort_by file_le (Other identity) (values kept)
                      (values-not_of identity st.inner))
                    (λ k d e. absurd (cc (sym (get-nil k) ∙ e))))))
          | inr nothing ↦ inl (ground arith)
        ],
      )

  Untrusted : Text → Identity → DeviceStore → Type 0
  Untrusted token identity st =
      (d : Device)
      → HashMap.get (token_hash token) st.inner ≡ some d
      → (d.identity =? identity) ≡ false

  Untrusted-refused :
      (works : Bool) (token : Text) (identity : Identity) (enrolled_at : ℕ) (client : Client)
      (now : ℕ)
      → (st : DeviceStore) → Untrusted token identity st
      → (authorize token_hash works token identity enrolled_at client now st).1 ≡ none
  unfolding Untrusted
  Untrusted-refused works token identity enrolled_at client now st h =
      elim (Option-cases (authorize token_hash works token identity enrolled_at client now st).1) [
        | inl e ↦ e
        | inr (id, e) ↦
            let (d, t, _) =
              (authorize_iff token_hash works token identity enrolled_at client now st id).0 e in
            absurd (cc (h d t.stored, (=?_iff d.identity identity).1 t.same_identity))
      ]

  forget-gone :
      (works : Bool) (key : Text) (o : Option Device) (st : DeviceStore)
      → HashMap.get key st.inner ≡ o
      → HashMap.get key (forget works key o st).0.inner ≡ none
  unfolding forget
  forget-gone works key none st e = e
  forget-gone works key (some d) st e =
      ap (HashMap.get key) (inner-write works (record st { inner = HashMap.remove key st.inner }))
      ∙ get-remove_self key st.inner

  forget_if_owned-Untrusted :
      (works : Bool) (token : Text) (identity : Identity) (st : DeviceStore)
      → Untrusted token identity (forget_if_owned token_hash works token identity st).0
  unfolding Untrusted forget_if_owned forget
  forget_if_owned-Untrusted works token identity st d h =
      let key = token_hash token in
      elim (Option-cases (HashMap.get key st.inner)) [
        | inl e ↦ absurd (cc (sym e ∙ rw e at h))
        | inr (f, e) ↦ elim (Bool-cases (f.identity =? identity)) [
          | inl same ↦
              let left = inner-write works (record st { inner = HashMap.remove key st.inner }) in
              absurd (cc (rw (e, same, left, get-remove_self key st.inner) at h))
          | inr other ↦
              let found : HashMap.get key st.inner ≡ some d = rw (e, other) at h in
              let f=d : f ≡ d = some_inj (sym e ∙ found) in rw f=d at other
        ]
      ]

  -- A cookie that was forgotten is not trusted again: after `revoke_token` by nobody's login, and
  -- after `forget_if_owned` not by that of the identity it was called for.
  pub forget-refused :
      (works again : Bool) (token : Text) (identity : Identity) (enrolled_at : ℕ) (client : Client)
      (now : ℕ)
      → (st : DeviceStore)
      → ((authorize token_hash again token identity enrolled_at client now
            (revoke_token token_hash works token st).0).1
          ≡ none)
        × ((authorize token_hash again token identity enrolled_at client now
              (forget_if_owned token_hash works token identity st).0).1
            ≡ none)
  unfolding revoke_token Untrusted
  forget-refused works again token identity enrolled_at client now st = (
    Untrusted-refused again token identity enrolled_at client now _
        (λ d e. absurd (cc (sym (forget-gone works (token_hash token) _ st refl) ∙ e))),
    Untrusted-refused again token identity enrolled_at client now _
        (forget_if_owned-Untrusted works token identity st),
  )
