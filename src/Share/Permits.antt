-- ===== src/Share/Permits.antt =====
-- The seats of a grant: its semaphore over a run of viewers who come and go.
use webshell.Base.{
  ℕ, suc, ◌+◌, ◌-◌, ◌≡◌, ◌≢◌, refl, ap, sym, ◌∙◌, some, arith, Text, text_eq, leb, inl, inr,
  Bool-cases, some_inj,
}
use webshell.HashMap
use webshell.HashMap.{HashMap}
use webshell.HashMap.Laws.{get-insert_self, get-insert_ne}
use webshell.Share.{
  Grant, ShareStore, Codec, Lease, ok, err, LeaseError, Claim, max_viewers_per_grant,
  max_grants_per_user, count_owned, verify, create, create_checked, lease, give_back, prune_expired,
}
use webshell.Share.Viewers.{lease_cases}
use webshell.Share.Standing.{
  Call, SparesId, IsDistinct, after, after-IsDistinct, after-Stands, lease-IsDistinct,
  give_back-IsDistinct,
}

module _ (crypto : Codec) where
  -- The sockets that watch the grant `id`, as calls come and go for as long as it stands: `create`
  -- makes it in a store in which no id stands twice, viewers lease and leave, other tokens are leased,
  -- and other grants are made, listed, resolved, revoked and dropped when they expire.
  pub data Open (id : Text) : ShareStore → ℕ → Type 0 where
    created :
        (now channel : ℕ) (user : Text) (index ttl : ℕ) (note : Text) (st : ShareStore)
        → (answer : Text × Text) → IsDistinct st
        → (create crypto now channel id user index ttl note st).1 ≡ some answer
        → Open id (create crypto now channel id user index ttl note st).0 0
    joined :
        (n now : ℕ) (token : Text) (st : ShareStore) (c : Claim) (l : Lease)
        → Open id st n
        → verify crypto st.key token ≡ some c
        → c.id ≡ id
        → (lease crypto now token st).1 ≡ ok l
        → Open id (lease crypto now token st).0 (suc n)
    refused :
        (n now : ℕ) (token : Text) (st : ShareStore) (e : LeaseError)
        → Open id st n
        → (lease crypto now token st).1 ≡ err e
        → Open id (lease crypto now token st).0 n
    joined_other :
        (n now : ℕ) (token : Text) (st : ShareStore) (c : Claim)
        → Open id st n
        → verify crypto st.key token ≡ some c
        → c.id ≢ id
        → Open id (lease crypto now token st).0 n
    called :
        (n : ℕ) (c : Call) (st : ShareStore) (g : Grant)
        → Open id st n
        → SparesId id c
        → HashMap.get id (after crypto c st).grants ≡ some g
        → Open id (after crypto c st) n
    left :
        (n : ℕ) (st : ShareStore)
        → Open id st (suc n)
        → Open id (give_back id (HashMap.get id st.grants) st) n

  -- The permits of the grant `id` and its `n` viewers make up `MAX_VIEWERS_PER_GRANT`.
  abbrev pub HasPermits : Text → ℕ → ShareStore → Type 0
  HasPermits id n st =
      (g : Grant) × (HashMap.get id st.grants ≡ some g) × (g.permits + n ≡ max_viewers_per_grant)

  created-HasPermits :
      (now channel : ℕ) (id user : Text) (index ttl : ℕ) (note : Text) (st : ShareStore)
      (answer : Text × Text)
      → (create crypto now channel id user index ttl note st).1 ≡ some answer
      → HasPermits id 0 (create crypto now channel id user index ttl note st).0
  unfolding create create_checked
  created-HasPermits now channel id user index ttl note st answer e =
      elim (Bool-cases (leb max_grants_per_user (count_owned user (prune_expired now st).grants))) [
        | inl many ↦ absurd (cc (rw many at e))
        | inr few ↦ rw few (_, get-insert_self id _ (prune_expired now st).grants, refl)
      ]

  joined-HasPermits :
      (id : Text) (n now : ℕ) (token : Text) (st : ShareStore) (c : Claim) (l : Lease)
      → HasPermits id n st
      → verify crypto st.key token ≡ some c
      → c.id ≡ id
      → (lease crypto now token st).1 ≡ ok l
      → HasPermits id (suc n) (lease crypto now token st).0
  joined-HasPermits id n now token st c l (g, kept, sum) v same e =
      elim (lease_cases crypto now token st) [
        | inl (er, h) ↦ absurd (cc (rw h at e))
        | inr (d, g', took) ↦
            let d=c : d ≡ c = some_inj (sym took.live.signed ∙ v) in
            let same' : d.id ≡ id = ap (λ x. x.id) d=c ∙ same in
            let g'=g : g' ≡ g =
              some_inj (sym took.live.stored ∙ ap (λ k. HashMap.get k st.grants) same' ∙ kept) in
            let sum' : g'.permits + n ≡ max_viewers_per_grant =
              ap (λ x. x.permits + n) g'=g ∙ sum in
            let free = took.some_left in
            (
              record g' { permits = g'.permits - 1 },
              ap (HashMap.get id) took.grants_after
                  ∙ ap
                      (λ k.
                        HashMap.get id
                          (HashMap.insert k (record g' { permits = g'.permits - 1 }) st.grants))
                      same'
                  ∙ get-insert_self id _ st.grants,
              omega (arith, sum', free),
            )
      ]

  other-HasPermits :
      (id : Text) (n now : ℕ) (token : Text) (st : ShareStore) (c : Claim)
      → HasPermits id n st
      → verify crypto st.key token ≡ some c
      → c.id ≢ id
      → HasPermits id n (lease crypto now token st).0
  other-HasPermits id n now token st c (g, kept, sum) v ne =
      elim (lease_cases crypto now token st) [
        | inl (er, h) ↦ rw h (g, kept, sum)
        | inr (d, g', took) ↦
            let d=c : d ≡ c = some_inj (sym took.live.signed ∙ v) in
            (
              g,
              ap (HashMap.get id) took.grants_after
                  ∙ get-insert_ne d.id id _ st.grants (λ e. ne (ap (λ x. x.id) (sym d=c) ∙ e))
                  ∙ kept,
              sum,
            )
      ]

  refused-HasPermits :
      (id : Text) (n now : ℕ) (token : Text) (st : ShareStore) (e : LeaseError)
      → HasPermits id n st
      → (lease crypto now token st).1 ≡ err e
      → HasPermits id n (lease crypto now token st).0
  refused-HasPermits id n now token st er before e = elim (lease_cases crypto now token st) [
    | inl (er', h) ↦ rw h before
    | inr (d, g', took) ↦ absurd (cc (sym took.answer.1 ∙ e))
  ]

  left-HasPermits :
      (id : Text) (n : ℕ) (st : ShareStore)
      → HasPermits id (suc n) st
      → HasPermits id n (give_back id (HashMap.get id st.grants) st)
  unfolding give_back
  left-HasPermits id n st (g, kept, sum) =
      rw kept
        (record g { permits = g.permits + 1 }, get-insert_self id _ st.grants, omega (arith, sum))

  called-HasPermits :
      (id : Text) (n : ℕ) (c : Call) (st : ShareStore) (g : Grant)
      → IsDistinct st
      → HasPermits id n st
      → SparesId id c
      → HashMap.get id (after crypto c st).grants ≡ some g
      → HasPermits id n (after crypto c st)
  called-HasPermits id n c st g d (g', kept, sum) spares stands =
      let same : g' ≡ g = some_inj (sym kept ∙ after-Stands crypto id c st d spares g stands) in
      (g, stands, ap (λ (x : Grant). x.permits + n) (sym same) ∙ sum)

  Open-IsDistinct : (id : Text) (st : ShareStore) (n : ℕ) → Open id st n → IsDistinct st
  unfolding create after
  Open-IsDistinct id st n (created now channel user index ttl note st0 answer d e) =
      after-IsDistinct crypto (Call.creates now channel id user index ttl note) st0 d
  Open-IsDistinct id st n (joined m now token st0 c l before v same e) =
      lease-IsDistinct crypto now token st0 (Open-IsDistinct id st0 m before)
  Open-IsDistinct id st n (refused m now token st0 er before e) =
      lease-IsDistinct crypto now token st0 (Open-IsDistinct id st0 m before)
  Open-IsDistinct id st n (joined_other m now token st0 c before v ne) =
      lease-IsDistinct crypto now token st0 (Open-IsDistinct id st0 m before)
  Open-IsDistinct id st n (called m c st0 g before spares stands) =
      after-IsDistinct crypto c st0 (Open-IsDistinct id st0 m before)
  Open-IsDistinct id st n (left m st0 before) =
      give_back-IsDistinct id (HashMap.get id st0.grants) st0
        (Open-IsDistinct id st0 (suc m) before)

  -- While a grant stands that was made in a store in which no id stood twice, its permits and its
  -- viewers make up 32: however viewers join, are refused, join other grants and leave, and whatever
  -- other grants are made, listed, resolved, revoked and dropped in between, the grant `id` has as
  -- many permits left as its 32 seats have no viewer.
  pub Open-HasPermits : (id : Text) (st : ShareStore) (n : ℕ) → Open id st n → HasPermits id n st
  Open-HasPermits id st n (created now channel user index ttl note st0 answer d e) =
      created-HasPermits now channel id user index ttl note st0 answer e
  Open-HasPermits id st n (joined m now token st0 c l before v same e) =
      joined-HasPermits id m now token st0 c l (Open-HasPermits id st0 m before) v same e
  Open-HasPermits id st n (refused m now token st0 er before e) =
      refused-HasPermits id m now token st0 er (Open-HasPermits id st0 m before) e
  Open-HasPermits id st n (joined_other m now token st0 c before v ne) =
      other-HasPermits id m now token st0 c (Open-HasPermits id st0 m before) v ne
  Open-HasPermits id st n (called m c st0 g before spares stands) =
      called-HasPermits id m c st0 g (Open-IsDistinct id st0 m before)
        (Open-HasPermits id st0 m before) spares stands
  Open-HasPermits id st n (left m st0 before) =
      left-HasPermits id m st0 (Open-HasPermits id st0 (suc m) before)
