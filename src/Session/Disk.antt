-- ===== src/Session/Disk.antt =====
-- The session file against the map: what a restart brings back.
use webshell.Base.{
  ℕ, suc, ◌-◌, ◌*◌, leb, if◌then◌else◌, ◌≤◌, ◌<◌, ◌≡◌, ◌≢◌, refl, sym, ◌∙◌, true, false, Option,
  none, some, [], ◌∷◌, arith, Text, text_eq, ◌=?◌, =?_iff, inl, inr, Bool-cases, length, some_inj,
}
use webshell.HashMap
use webshell.HashMap.{HashMap, Distinct}
use webshell.HashMap.Laws.{
  get-insert, get-remove_self, get-insert_ne, get-cons, get-cons_none, get-nil,
}
use webshell.Session.{
  Session, SessionStore, DiskSession, Env, Fresh, drop_key, make_room, victim, max_sessions, create,
  remove, remove_found, persist, snapshot, meaningful, expired, to_disk, ttl_of,
}
use webshell.Session.Steps.{inner-persist}
use webshell.Session.Load.{restore_all, restore, is_live, load, disk_meaningful, from_file}

snapshot-none :
    (ttl instant : ℕ) (m : HashMap Text Session) (k : Text)
    → HashMap.get k m ≡ none
    → HashMap.get k (snapshot ttl instant m) ≡ none
unfolding snapshot HashMap.get
snapshot-none ttl instant [] k h = refl
snapshot-none ttl instant ((j, s) ∷ m) k h = ground (arith, snapshot-none ttl instant m k)

snapshot-some :
    (ttl instant : ℕ) (m : HashMap Text Session) (k : Text) (s : Session)
    → HashMap.get k m ≡ some s
    → meaningful s ≡ true
    → expired s ttl instant ≡ false
    → HashMap.get k (snapshot ttl instant m) ≡ some (to_disk s)
unfolding snapshot HashMap.get
snapshot-some ttl instant [] k s e a b = absurd (cc e)
snapshot-some ttl instant ((j, t) ∷ m) k s e a b = elim (Bool-cases (j =? k)) [
  | inl same ↦ let q : t ≡ s = ground arith in rw (q, a, b) (rw same)
  | inr other ↦ let ih = snapshot-some ttl instant m k s (ground arith) a b in ground (arith, ih)
]

-- With the write done, the file holds exactly what `snapshot` says of the map.
disk-persist :
    (env : Env) (st : SessionStore)
    → st.has_path ≡ true
    → env.wrote ≡ true
    → (persist env st).disk ≡ some (snapshot st.ttl env.instant st.inner)
unfolding persist
disk-persist env st p w = ground arith

restore_none :
    (env : Env) (ttl channel : ℕ) (ds : HashMap Text DiskSession) (k : Text)
    → HashMap.get k ds ≡ none
    → HashMap.get k (restore_all env ttl channel ds) ≡ none
unfolding restore_all
restore_none env ttl channel [] k h = get-nil k
restore_none env ttl channel ((j, d) ∷ ds) k h =
    let split : ((j =? k) ≡ false) × (HashMap.get k ds ≡ none) = get-cons_none k j d ds h in
    let ih : HashMap.get k (restore_all env ttl (suc channel) ds) ≡ none =
      restore_none env ttl (suc channel) ds k split.1 in
    ground (
      arith,
      split.0,
      ih,
      get-insert j k (restore env channel d) (restore_all env ttl (suc channel) ds),
    )

restore-some :
    (env : Env) (ttl channel : ℕ) (ds : HashMap Text DiskSession) (k : Text) (d : DiskSession)
    → HashMap.get k ds ≡ some d
    → is_live env ttl d ≡ true
    → (c : ℕ) × (HashMap.get k (restore_all env ttl channel ds) ≡ some (restore env c d))
unfolding restore_all
restore-some env ttl channel [] k d h l = absurd (cc (h, get-nil {V = DiskSession} k))
restore-some env ttl channel ((j, e) ∷ ds) k d h l = elim (Bool-cases (j =? k)) [
  | inl same ↦
      let q : e ≡ d = some_inj (sym (rw same at (get-cons k j e ds)) ∙ h) in
      let p : j ≡ k = (=?_iff j k).0 same in
      (
        channel,
        rw (q, l)
            (get-insert j k (restore env channel d) (restore_all env ttl (suc channel) ds)
              ∙ rw same),
      )
  | inr other ↦
      let rest : HashMap.get k ds ≡ some d = sym (rw other at (get-cons k j e ds)) ∙ h in
      let (c, ih) = restore-some env ttl (suc channel) ds k d rest l in
      (
        c,
        elim (Bool-cases (is_live env ttl e)) [
          | inl live ↦ rw live (
              get-insert j k (restore env channel e) (restore_all env ttl (suc channel) ds)
              ∙ rw other ih)
          | inr dead ↦ rw dead ih
        ],
      )
]

inner-load :
    (env : Env) (ttl channel : ℕ) (ds : HashMap Text DiskSession)
    → (load env ttl channel (some ds)).inner ≡ restore_all env ttl channel ds
unfolding load from_file
inner-load env ttl channel ds = inner-persist env _

-- A session that is in the file and still alive by the wall clock is there after a restart.
load-some :
    (env : Env) (ttl channel : ℕ) (file : Option (HashMap Text DiskSession))
    (ds : HashMap Text DiskSession) (k : Text) (d : DiskSession)
    → file ≡ some ds
    → HashMap.get k ds ≡ some d
    → is_live env ttl d ≡ true
    → (c : ℕ) × (HashMap.get k (load env ttl channel file).inner ≡ some (restore env c d))
load-some env ttl channel file ds k d f h l =
    let (c, e) = restore-some env ttl channel ds k d h l in
    (c, rw (f, inner-load env ttl channel ds) e)

-- The session `t` is `s` after a restart: the same but for its channel, and created as long ago as
-- the wall clock says, or now if the process's clock does not reach back that far.
pub record Resumes (later : Env) (s t : Session) : Type 0 where
  pub state : (t.authenticated ≡ s.authenticated) × (t.mfa_pending ≡ s.mfa_pending)
  pub username : t.username ≡ s.username
  pub oauth : t.oauth ≡ s.oauth
  pub csrf : t.csrf ≡ s.csrf
  pub created_unix : t.created_unix ≡ s.created_unix
  pub created : t.created ≡ (
      if leb ((later.unix - s.created_unix) * 1000000000) later.instant
      then later.instant - (later.unix - s.created_unix) * 1000000000
      else later.instant)

-- A session in the map that means something and has not run out when the file is written is there
-- after a restart, if its age by the wall clock is then below its ttl: with the same user, state,
-- OAuth flow, CSRF token and time of creation, and aged by the wall clock, as far as the process's
-- clock reaches back.
pub load-persist :
    (env later : Env) (channel : ℕ) (st : SessionStore) (k : Text) (s : Session)
    → st.has_path ≡ true
    → env.wrote ≡ true
    → HashMap.get k st.inner ≡ some s
    → meaningful s ≡ true
    → expired s st.ttl env.instant ≡ false
    → later.unix - s.created_unix < ttl_of s.authenticated st.ttl
    → (t : Session) × (HashMap.get k (load later st.ttl channel (persist env st).disk).inner
        ≡ some t)
      × Resumes later s t
load-persist env later channel st k s p w e m x young =
    let (c, found) =
      load-some later st.ttl channel (persist env st).disk (snapshot st.ttl env.instant st.inner) k
        (to_disk s) (disk-persist env st p w) (snapshot-some st.ttl env.instant st.inner k s e m x)
        live in
    (
      restore later c (to_disk s),
      found,
      record {
        state = (refl, refl);
        username = refl;
        oauth = refl;
        csrf = refl;
        created_unix = refl;
        created = refl;
      },
    )
  where
    live : is_live later st.ttl (to_disk s) ≡ true
    live = unfold is_live disk_meaningful meaningful in ground arith

module _ (session_key : Text → Text) where
  -- A session that was logged out, with the file written, does not come back with a restart.
  pub load-remove :
      (env later : Env) (channel : ℕ) (st : SessionStore) (id : Text) (s : Session)
      → st.has_path ≡ true
      → env.wrote ≡ true
      → HashMap.get (session_key id) st.inner ≡ some s
      → HashMap.get
          (session_key id)
          (load later st.ttl channel (remove session_key env id st).disk).inner
        ≡ none
  unfolding remove
  load-remove env later channel st id s p w e =
      let gone = drop_key (session_key id) st in
      let f : (persist env gone).disk ≡ some (snapshot st.ttl env.instant gone.inner) =
        unfold drop_key in disk-persist env gone p w in
      rw (e, remove_found, f, inner-load)
        (restore_none later st.ttl channel _ (session_key id) (
          snapshot-none st.ttl env.instant gone.inner (session_key id)
            (unfold drop_key in get-remove_self (session_key id) st.inner)))

  -- What `create` evicts from a full store leaves memory and stays in the file, which `create` does
  -- not write: if the file has it and it is alive by the wall clock, a restart brings it back.
  pub load-create :
      (env later : Env) (fresh : Fresh) (channel : ℕ) (st : SessionStore)
      (file : HashMap Text DiskSession) (k : Text) (s : Session) (d : DiskSession)
      → max_sessions ≤ length st.inner
      → victim st.inner ≡ some (k, s)
      → session_key fresh.id ≢ k
      → st.disk ≡ some file
      → HashMap.get k file ≡ some d
      → is_live later st.ttl d ≡ true
      → let st' = (create session_key env fresh st).0 in
        (HashMap.get k st'.inner ≡ none)
        × ((c : ℕ) × (HashMap.get k (load later st.ttl channel st'.disk).inner
              ≡ some (restore later c d)))
  unfolding create make_room
  load-create env later fresh channel st file k s d full v ne f h l =
      let room : make_room st ≡ drop_key k st = rw v (ground arith) in
      (
        rw room (
            unfold drop_key in
            get-insert_ne (session_key fresh.id) k _ (HashMap.remove k st.inner) ne
            ∙ get-remove_self k st.inner),
        rw room (unfold drop_key in load-some later st.ttl channel st.disk file k d f h l),
      )
