-- ===== src/Share/Grants.antt =====
-- The grants a store keeps: after a call of `revoke`, and how many there are of one user.
use webshell.Base.{
  ℕ, ◌≤◌, ◌≡◌, ◌≢◌, refl, Bool, true, false, none, some, [], ◌∷◌, arith, Text, text_eq, ◌=?◌,
  =?_iff, ltb, if◌then◌else◌, inl, inr, Bool-cases, Option-cases, ◌⊎◌,
}
use webshell.HashMap
use webshell.HashMap.{HashMap}
use webshell.HashMap.Laws.{get-remove, get-remove_self}
use webshell.Share.{
  Grant, ShareStore, Codec, err, invalid, Claim, max_grants_per_user, count_owned, prune_expired,
  revoke, revoke_found, verify, create, create_checked, resolve, resolve_claim, resolve_grant,
  lease, lease_claim, lease_grant, drop_grant,
}

-- The channel of `g` has been signalled, and its grant is gone; nothing else has changed.
pub record Revoked (id : Text) (g : Grant) (st st' : ShareStore) : Type 0 where
  pub gone :
      (j : Text) → HashMap.get j st'.grants ≡ (if id =? j then none else HashMap.get j st.grants)
  pub signalled : st'.revoked ≡ g.channel ∷ st.revoked

-- Only the owner revokes: a call on a grant of `g.username` succeeds for that user, removes that grant
-- alone and signals the sockets that watch it; for anybody else it fails and changes nothing.
pub revoke_lem :
    (user id : Text) (g : Grant) (st : ShareStore)
    → HashMap.get id st.grants ≡ some g
    → ((g.username ≡ user) × ((revoke user id st).1 ≡ true) × Revoked id g st (revoke user id st).0)
      ⊎ ((g.username ≢ user) × (revoke user id st ≡ (st, false)))
unfolding revoke revoke_found
revoke_lem user id g st h = elim (Bool-cases (g.username =? user)) [
  | inl same ↦ inl (
      rw (h, same)
        (
          (=?_iff g.username user).0 same,
          refl,
          record { gone = λ j. get-remove id j st.grants; signalled = refl },
        ))
  | inr other ↦ inr (rw (h, other) ((λ e. absurd (cc ((=?_iff g.username user).1 e))), refl))
]

count-retain :
    (p : Text → Grant → Bool) (user : Text) (m : HashMap Text Grant)
    → count_owned user (HashMap.retain p m) ≤ count_owned user m
unfolding count_owned HashMap.retain
count-retain p user [] = omega arith
count-retain p user ((k, g) ∷ m) = ground (arith, count-retain p user m)

count-remove :
    (k user : Text) (m : HashMap Text Grant)
    → count_owned user (HashMap.remove k m) ≤ count_owned user m
unfolding count_owned HashMap.remove
count-remove k user [] = omega arith
count-remove k user ((j, g) ∷ m) = ground (arith, count-remove k user m)

-- Nobody holds more than `MAX_GRANTS_PER_USER` grants.
abbrev pub IsCapped : ShareStore → Type 0
IsCapped st = (user : Text) → count_owned user st.grants ≤ max_grants_per_user

module _ (crypto : Codec) where
  -- `create` keeps everybody within `MAX_GRANTS_PER_USER` grants, for any user, id and clock.
  pub create-IsCapped :
      (now channel : ℕ) (id user : Text) (index ttl : ℕ) (note : Text) (st : ShareStore)
      → IsCapped st
      → IsCapped (create crypto now channel id user index ttl note st).0
  unfolding create create_checked prune_expired count_owned HashMap.insert
  create-IsCapped now channel id user index ttl note st h u =
      let kept = HashMap.retain (λ _ g. ltb now g.expires_at) st.grants in
      ground (
        arith,
        count-retain (λ _ g. ltb now g.expires_at) u st.grants,
        count-remove id u kept,
        h u,
        =?_iff user u,
      )

  -- After a revocation no token with that id works: `resolve` finds nothing and `lease` answers
  -- `Invalid`, at any time.
  pub revoke-refused :
      (user id : Text) (st : ShareStore) (now : ℕ) (token : Text) (c : Claim)
      → (revoke user id st).1 ≡ true
      → verify crypto st.key token ≡ some c
      → c.id ≡ id
      → ((resolve crypto now token (revoke user id st).0).1 ≡ none)
        × ((lease crypto now token (revoke user id st).0).1 ≡ err invalid)
  unfolding revoke revoke_found resolve resolve_claim resolve_grant lease lease_claim lease_grant
      drop_grant
  revoke-refused user id st now token c done v e = elim (Option-cases (HashMap.get id st.grants)) [
    | inl h ↦ absurd (cc (rw h at done))
    | inr (g, h) ↦ elim (Bool-cases (g.username =? user)) [
      | inl same ↦ rw (h, same) (rw (v, e, get-remove_self id st.grants) (ground arith))
      | inr other ↦ absurd (cc (rw (h, other) at done))
    ]
  ]
