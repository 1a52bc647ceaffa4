-- ===== src/Share/Standing.antt =====
-- The calls that end grants or leave them alone: what each keeps of a grant that outlasts it.
use webshell.Base.{
  ℕ, ◌≡◌, ◌≢◌, sym, ◌∙◌, Bool, Option, none, some, ◌∷◌, arith, Text, text_eq, ◌=?◌, leb, ltb, inl,
  inr, if_elim, subst,
}
use webshell.HashMap
use webshell.HashMap.{HashMap, Distinct, keep_entry}
use webshell.HashMap.Laws.{
  get-insert_ne, get-remove, get-retain, insert-Distinct, remove-Distinct, retain-Distinct,
}
use webshell.Share.{
  Grant, ShareStore, Codec, Claim, max_grants_per_user, count_owned, verify, create, create_checked,
  lease, resolve, resolve_claim, drop_grant, revoke, revoke_found, list, sweep, give_back,
  prune_expired,
}
use webshell.Share.Viewers.{lease_cases}

-- A call that seats nobody; `creates` makes another grant.
pub data Call : Type 0 where
  creates : ℕ → ℕ → Text → Text → ℕ → ℕ → Text → Call
  sweeps : ℕ → Call
  lists : ℕ → Text → Call
  resolves : ℕ → Text → Call
  revokes : Text → Text → Call

-- The call does not draw the id of this grant for a new one.
abbrev pub SparesId : Text → Call → Type 0
SparesId id (creates now channel new user index ttl note) = new ≢ id
SparesId id c = Unit

-- No id stands twice in the map.
abbrev pub IsDistinct : ShareStore → Type 0
IsDistinct st = Distinct st.grants

-- A grant that is there afterwards is the one that was there.
abbrev pub Stands : Text → ShareStore → ShareStore → Type 0
Stands id st st' =
    (g : Grant) → HashMap.get id st'.grants ≡ some g → HashMap.get id st.grants ≡ some g

prune_expired-Stands :
    (id : Text) (now : ℕ) (st : ShareStore) → IsDistinct st → Stands id st (prune_expired now st)
unfolding prune_expired
prune_expired-Stands id now st d g e =
    kept (HashMap.get id st.grants)
      (sym (get-retain (λ _ g. ltb now g.expires_at) id st.grants d) ∙ e)
  where
    kept : (o : Option Grant) → keep_entry (λ g. ltb now g.expires_at) o ≡ some g → o ≡ some g
    kept none q = cc
    kept (some t) q = ground arith

prune_expired-IsDistinct :
    (now : ℕ) (st : ShareStore) → IsDistinct st → IsDistinct (prune_expired now st)
unfolding prune_expired
prune_expired-IsDistinct now st d = retain-Distinct _ st.grants d

-- A grant that outlasts a removal is another one.
remove-stands :
    (k id : Text) (m : HashMap Text Grant) (g : Grant)
    → HashMap.get id (HashMap.remove k m) ≡ some g
    → HashMap.get id m ≡ some g
remove-stands k id m g e = ground (arith, get-remove k id m)

revoke_found_cases {ℓ} :
    (P : ShareStore → Type ℓ) (user id : Text) (o : Option Grant) (st : ShareStore)
    → P st
    → ((g : Grant)
        → P (record st { grants = HashMap.remove id st.grants; revoked = g.channel ∷ st.revoked }))
    → P (revoke_found user id o st).0
unfolding revoke_found
revoke_found_cases P user id none st same gone = same
revoke_found_cases P user id (some g) st same gone =
    if_elim (λ (r : ShareStore × Bool). P r.0) (g.username =? user) _ _ (λ _. gone g) (λ _. same)

module _ (crypto : Codec) where
  drop_grant_cases {ℓ} :
      (P : ShareStore → Type ℓ) (id : Text) (o : Option Grant) (st : ShareStore)
      → P st
      → ((g : Grant)
          → P (record st {
            grants = HashMap.remove id st.grants;
            revoked = g.channel ∷ st.revoked;
          }))
      → P (drop_grant crypto id o st)
  unfolding drop_grant
  drop_grant_cases P id none st same gone = same
  drop_grant_cases P id (some g) st same gone = gone g

  unfoldable pub after : Call → ShareStore → ShareStore
  after (creates now channel id user index ttl note) st =
      (create crypto now channel id user index ttl note st).0
  after (sweeps now) st = sweep now st
  after (lists now user) st = (list now user st).0
  after (resolves now token) st = (resolve crypto now token st).0
  after (revokes user id) st = (revoke user id st).0

  create_cases {ℓ} :
      (P : ShareStore → Type ℓ) (now channel : ℕ) (id user : Text) (index ttl : ℕ) (note : Text)
      (st : ShareStore)
      → P (prune_expired now st)
      → ((g : Grant)
          → P (record (prune_expired now st) {
            grants = HashMap.insert id g (prune_expired now st).grants;
          }))
      → P (create crypto now channel id user index ttl note st).0
  unfolding create create_checked
  create_cases P now channel id user index ttl note st same made =
      if_elim (λ (r : ShareStore × Option (Text × Text)). P r.0)
        (leb max_grants_per_user (count_owned user (prune_expired now st).grants)) _ _ (λ _. same)
        (λ _. made _)

  resolve_cases {ℓ} :
      (P : ShareStore → Type ℓ) (now : ℕ) (o : Option Claim) (st : ShareStore)
      → P st
      → ((id : Text) (g : Grant)
          → P (record st {
            grants = HashMap.remove id st.grants;
            revoked = g.channel ∷ st.revoked;
          }))
      → P (resolve_claim crypto now st o).0
  unfolding resolve_claim
  resolve_cases P now none st same gone = same
  resolve_cases P now (some c) st same gone =
      if_elim (λ (r : ShareStore × Option (Text × ℕ)). P r.0) (leb c.exp now) _ _
        (λ _. drop_grant_cases P c.id (HashMap.get c.id st.grants) st same (gone c.id)) (λ _. same)

  pub after-IsDistinct : (c : Call) (st : ShareStore) → IsDistinct st → IsDistinct (after c st)
  unfolding after list resolve revoke
  after-IsDistinct (creates now channel id user index ttl note) st d =
      let pruned = prune_expired-IsDistinct now st d in
      create_cases IsDistinct now channel id user index ttl note st pruned
        (λ g. insert-Distinct id g _ pruned)
  after-IsDistinct (sweeps now) st d = prune_expired-IsDistinct now st d
  after-IsDistinct (lists now user) st d = prune_expired-IsDistinct now st d
  after-IsDistinct (resolves now token) st d =
      resolve_cases IsDistinct now (verify crypto st.key token) st d
        (λ id g. remove-Distinct id st.grants d)
  after-IsDistinct (revokes user id) st d =
      revoke_found_cases IsDistinct user id (HashMap.get id st.grants) st d
        (λ g. remove-Distinct id st.grants d)

  pub after-Stands :
      (id : Text) (c : Call) (st : ShareStore)
      → IsDistinct st
      → SparesId id c
      → Stands id st (after c st)
  unfolding after list resolve revoke
  after-Stands id (creates now channel new user index ttl note) st d s =
      let pruned = prune_expired-Stands id now st d in
      create_cases (Stands id st) now channel new user index ttl note st pruned
        (λ g' g e. pruned g (sym (get-insert_ne new id g' (prune_expired now st).grants s) ∙ e))
  after-Stands id (sweeps now) st d s = prune_expired-Stands id now st d
  after-Stands id (lists now user) st d s = prune_expired-Stands id now st d
  after-Stands id (resolves now token) st d s =
      resolve_cases (Stands id st) now (verify crypto st.key token) st (λ g e. e)
        (λ k gone g e. remove-stands k id st.grants g e)
  after-Stands id (revokes user k) st d s =
      revoke_found_cases (Stands id st) user k (HashMap.get k st.grants) st (λ g e. e)
        (λ gone g e. remove-stands k id st.grants g e)

  pub lease-IsDistinct :
      (now : ℕ) (token : Text) (st : ShareStore)
      → IsDistinct st
      → IsDistinct (lease crypto now token st).0
  lease-IsDistinct now token st d = elim (lease_cases crypto now token st) [
    | inl (er, h) ↦ rw h d
    | inr (c, g, took) ↦ subst Distinct (sym took.grants_after) (insert-Distinct c.id _ st.grants d)
  ]

pub give_back-IsDistinct :
    (id : Text) (o : Option Grant) (st : ShareStore)
    → IsDistinct st
    → IsDistinct (give_back id o st)
unfolding give_back
give_back-IsDistinct id none st d = d
give_back-IsDistinct id (some g) st d = insert-Distinct id _ st.grants d
