-- ===== src/Share/Viewers.antt =====
-- Who gets to watch: the live grants behind `resolve` and `lease`, and the permits of a grant.
use webshell.Base.{
  ℕ, ◌-◌, ◌<◌, ◌≡◌, ◌↔◌, ◌⊎◌, ap, ◌∙◌, true, some, arith, Text, text_eq, =?_iff, leb, ◌==◌,
  if◌then◌else◌, inl, inr, Bool-cases, Option-cases, some_inj, leb-false,
}
use webshell.HashMap
use webshell.HashMap.{HashMap}
use webshell.Share.{
  Grant, ShareStore, Codec, Lease, ok, err, LeaseError, invalid, full, Claim, matches, verify,
  resolve, resolve_claim, resolve_grant, lease, lease_claim, lease_grant,
}

module _ (crypto : Codec) where
  -- The token is signed, says `c`, has not expired at `now`, and `g` is the stored grant it was made for.
  pub record IsLive (now : ℕ) (token : Text) (st : ShareStore) (c : Claim) (g : Grant)
      : Type 0 where
    pub signed : verify crypto st.key token ≡ some c
    pub unexpired : now < c.exp
    pub stored : HashMap.get c.id st.grants ≡ some g
    pub same_user : g.username ≡ c.user
    pub same_index : g.index ≡ c.index
    pub same_exp : g.expires_at ≡ c.exp

  matches_iff :
      (c : Claim) (g : Grant)
      → (matches c g ≡ true)
        ↔ ((g.username ≡ c.user) × (g.index ≡ c.index) × (g.expires_at ≡ c.exp))
  matches_iff c g = ground (arith, =?_iff g.username c.user)

  resolve_sound :
      (now : ℕ) (token user : Text) (index : ℕ) (st : ShareStore)
      → (resolve crypto now token st).1 ≡ some (user, index)
      → (c : Claim) × (g : Grant) × IsLive now token st c g
        × (g.username ≡ user)
        × (g.index ≡ index)
  unfolding resolve resolve_claim resolve_grant
  resolve_sound now token user index st h = elim (Option-cases (verify crypto st.key token)) [
    | inl e ↦ absurd (cc (rw e at h))
    | inr (c, e) ↦ elim (Bool-cases (leb c.exp now)) [
      | inl late ↦ absurd (cc (rw (e, late) at h))
      | inr early ↦ elim (Option-cases (HashMap.get c.id st.grants)) [
        | inl none_kept ↦ absurd (cc (rw (e, early, none_kept) at h))
        | inr (g, kept) ↦ elim (Bool-cases (matches c g)) [
          | inl same ↦
              let answer : some (c.user, c.index) ≡ some (user, index) =
                rw (e, early, kept, same) at h in
              let (u, i, x) = (matches_iff c g).0 same in
              (
                c,
                g,
                record {
                  signed = e;
                  unexpired = leb-false c.exp now early;
                  stored = kept;
                  same_user = u;
                  same_index = i;
                  same_exp = x;
                },
                u ∙ ap (λ q. q.0) (some_inj answer),
                i ∙ ap (λ q. q.1) (some_inj answer),
              )
          | inr other ↦ absurd (cc (rw (e, early, kept, other) at h))
        ]
      ]
    ]
  ]

  resolve_complete :
      (now : ℕ) (token : Text) (st : ShareStore) (c : Claim) (g : Grant)
      → IsLive now token st c g
      → resolve crypto now token st ≡ (st, some (g.username, g.index))
  unfolding resolve resolve_claim resolve_grant
  resolve_complete now token st c g live =
      rw (live.signed, live.stored)
        (ground (
          arith,
          (matches_iff c g).1 (live.same_user, live.same_index, live.same_exp),
          live.unexpired,
        ))

  -- `resolve` answers a slot exactly for a live token, and it is the slot of the stored grant.
  pub resolve_iff :
      (now : ℕ) (token user : Text) (index : ℕ) (st : ShareStore)
      → ((resolve crypto now token st).1 ≡ some (user, index)) ↔ (
          (c : Claim) × (g : Grant) × IsLive now token st c g
          × (g.username ≡ user)
          × (g.index ≡ index))
  resolve_iff now token user index st = (
    resolve_sound now token user index st,
    λ (c, g, live, u, i). ap (λ q. q.1) (resolve_complete now token st c g live) ∙ rw (u, i),
  )

  -- `lease` takes a permit of a live grant that has one, and only then: the lease names the stored
  -- grant's slot, expiry and channel, the grant keeps everything but one permit, and no other grant
  -- is touched. A live grant without permits answers `Full`.
  pub lease_lem :
      (now : ℕ) (token : Text) (st : ShareStore) (c : Claim) (g : Grant)
      → IsLive now token st c g
      → lease crypto now token st ≡ (
          if g.permits == 0 then (st, err full) else (
            record st {
              grants = HashMap.insert c.id (record g { permits = g.permits - 1 }) st.grants;
            },
            ok (record {
              username = g.username;
              index = g.index;
              expires_at = g.expires_at;
              channel = g.channel;
            }),
          ))
  unfolding lease lease_claim lease_grant
  lease_lem now token st c g live =
      rw (live.signed, live.stored)
        (ground (
          arith,
          (matches_iff c g).1 (live.same_user, live.same_index, live.same_exp),
          live.unexpired,
        ))

  -- Either a call of `lease` fails and changes nothing, or it takes one permit of a live grant.
  pub record Took (now : ℕ) (token : Text) (st : ShareStore) (c : Claim) (g : Grant) : Type 0 where
    pub live : IsLive now token st c g
    pub some_left : 0 < g.permits
    pub grants_after :
        (lease crypto now token st).0.grants
        ≡ HashMap.insert c.id (record g { permits = g.permits - 1 }) st.grants
    pub answer : (l : Lease) × ((lease crypto now token st).1 ≡ ok l)

  pub lease_cases :
      (now : ℕ) (token : Text) (st : ShareStore)
      → (((e : LeaseError) × (lease crypto now token st ≡ (st, err e)))
          ⊎ ((c : Claim) × (g : Grant) × Took now token st c g))
  unfolding lease lease_claim lease_grant
  lease_cases now token st = elim (Option-cases (verify crypto st.key token)) [
    | inl e ↦ inl (invalid, rw e)
    | inr (c, e) ↦ elim (Bool-cases (leb c.exp now)) [
      | inl late ↦ inl (invalid, rw (e, late))
      | inr early ↦ elim (Option-cases (HashMap.get c.id st.grants)) [
        | inl none_kept ↦ inl (invalid, rw (e, early, none_kept))
        | inr (g, kept) ↦ elim (Bool-cases (matches c g)) [
          | inr other ↦ inl (invalid, rw (e, early, kept, other))
          | inl same ↦ elim (Bool-cases (g.permits == 0)) [
            | inl empty ↦ inl (full, rw (e, early, kept, same, empty))
            | inr free ↦
                let (u, i, x) = (matches_iff c g).0 same in
                inr (
                  c,
                  g,
                  record {
                    live = record {
                      signed = e;
                      unexpired = leb-false c.exp now early;
                      stored = kept;
                      same_user = u;
                      same_index = i;
                      same_exp = x;
                    };
                    some_left = ground arith;
                    grants_after = rw (e, early, kept, same, free);
                    answer = (
                      record {
                        username = c.user;
                        index = c.index;
                        expires_at = c.exp;
                        channel = g.channel;
                      },
                      rw (e, early, kept, same, free),
                    );
                  },
                )
          ]
        ]
      ]
    ]
  ]
