-- ===== src/Share.antt =====
-- src/share.rs: signed, expiring, revocable links to one terminal slot. Base64 and HMAC-SHA256 are
-- parameters. Texts in a token are their UTF-8 bytes. A `watch` channel is a number, as in Session;
-- a grant's semaphore is the number of permits that are left.
pub mod Note
pub mod Token
pub mod Grants
pub mod Viewers
pub mod Standing
pub mod Permits
mod Tests
use webshell.Base.{
  ℕ, suc, ◌+◌, ◌-◌, ◌^◌, ◌≡◌, ◌++◌, Bool, true, false, not, ◌&&◌, ◌||◌, Option, none, some, List,
  [], ◌∷◌, ltb, leb, ◌==◌, if◌then◌else◌, length, Text, ◌>>=◌, ◌=?◌, text_eq, min,
}
use webshell.Base.Strings.{split_once, to_decimal, parse_uint}
use webshell.Base.Utf8.{from_utf8}
use webshell.HashMap
use webshell.HashMap.{HashMap, contains_key}
use webshell.Share.Note.{sanitize_note}

abbrev pub max_grants_per_user : ℕ
max_grants_per_user = 32

abbrev pub max_viewers_per_grant : ℕ
max_viewers_per_grant = 32

-- `Grant`
pub record Grant : Type 0 where
  pub id : Text
  pub username : Text
  pub index : ℕ
  pub expires_at : ℕ
  pub note : Text
  pub channel : ℕ
  pub permits : ℕ

-- `ShareStore`, and the channels that were signalled.
pub record ShareStore : Type 0 where
  pub key : Text
  pub grants : HashMap Text Grant
  pub revoked : List ℕ

-- The crates base64 and hmac, as the program calls them.
pub record Codec : Type 0 where
  pub encode : Text → Text
  pub decode : Text → Option Text
  pub mac : Text → Text → Text

-- `Lease`
pub record Lease : Type 0 where
  pub username : Text
  pub index : ℕ
  pub expires_at : ℕ
  pub channel : ℕ

pub data LeaseError : Type 0 where
  invalid full : LeaseError

pub data Leased : Type 0 where
  ok : Lease → Leased
  err : LeaseError → Leased

-- What a token says: id, user, slot and expiry.
pub record Claim : Type 0 where
  pub id : Text
  pub user : Text
  pub index : ℕ
  pub exp : ℕ

abbrev pub u64_limit : ℕ
u64_limit = 2 ^ 64

-- `u64::saturating_add`
abbrev pub saturating_add : ℕ → ℕ → ℕ
saturating_add a b = min (a + b) (2 ^ 64 - 1)

-- The channels of the grants that have expired.
unfoldable pub expired_channels : ℕ → HashMap Text Grant → List ℕ → List ℕ
expired_channels now [] revoked = revoked
expired_channels now ((k, g) ∷ m) revoked =
    let rest = expired_channels now m revoked in
    if ltb now g.expires_at then rest else g.channel ∷ rest

-- `prune_expired`
unfoldable pub prune_expired : ℕ → ShareStore → ShareStore
prune_expired now st = record st {
  grants = HashMap.retain (λ _ g. ltb now g.expires_at) st.grants;
  revoked = expired_channels now st.grants st.revoked;
}

-- `grants.values().filter(|g| g.username == username).count()`
unfoldable pub count_owned : Text → HashMap Text Grant → ℕ
count_owned user [] = 0
count_owned user ((k, g) ∷ m) =
    let rest = count_owned user m in if g.username =? user then suc rest else rest

-- `list`: the live grants of one user
unfoldable pub owned : Text → HashMap Text Grant → List Grant
owned user [] = []
owned user ((k, g) ∷ m) = let rest = owned user m in if g.username =? user then g ∷ rest else rest

unfoldable pub list : ℕ → Text → ShareStore → ShareStore × List Grant
list now user st = let pruned = prune_expired now st in (pruned, owned user pruned.grants)

-- `sweep`
abbrev pub sweep : ℕ → ShareStore → ShareStore
sweep now st = prune_expired now st

-- The fields of the grant are the ones that were signed.
abbrev pub matches : Claim → Grant → Bool
matches c g = g.username =? c.user && g.index == c.index && g.expires_at == c.exp

revoke_found : Text → Text → Option Grant → ShareStore → ShareStore × Bool
revoke_found user id none st = (st, false)
revoke_found user id (some g) st =
    if g.username =? user
    then (
      record st { grants = HashMap.remove id st.grants; revoked = g.channel ∷ st.revoked },
      true,
    )
    else (st, false)

-- `revoke`
unfoldable pub revoke : Text → Text → ShareStore → ShareStore × Bool
unfolding revoke_found
revoke user id st = revoke_found user id (HashMap.get id st.grants) st

-- A viewer's socket closes: the `OwnedSemaphorePermit` of its lease is dropped.
unfoldable pub give_back : Text → Option Grant → ShareStore → ShareStore
give_back id none st = st
give_back id (some g) st = record st {
  grants = HashMap.insert id (record g { permits = g.permits + 1 }) st.grants;
}

module _ (crypto : Codec) where
  open crypto use {encode, decode, mac}

  -- `format!("{id}:{index}:{exp}:{username}")`
  unfoldable pub payload : Text → ℕ → ℕ → Text → Text
  payload id index exp user =
      id ++ (b':' ∷ (to_decimal index ++ (b':' ∷ (to_decimal exp ++ (b':' ∷ user)))))

  -- `encode`
  unfoldable pub encode_token : Text → Text → ℕ → ℕ → Text → Text
  unfolding payload
  encode_token key id index exp user =
      let message = payload id index exp user in encode message ++ (b'.' ∷ encode (mac key message))

  -- `token_for`
  abbrev pub token_for : ShareStore → Grant → Text
  token_for st g = encode_token st.key g.id g.index g.expires_at g.username

  -- `splitn(4, ':')` and the four fields
  unfoldable pub parse_payload : Text → Option Claim
  parse_payload text = do
    (id, rest) ← split_once b':' text
    (index, rest) ← split_once b':' rest
    index ← parse_uint u64_limit index
    (exp, user) ← split_once b':' rest
    exp ← parse_uint u64_limit exp
    some (record { id = id; user = user; index = index; exp = exp })

  abbrev check : Text → Text → Text → Option Text
  check key message sig = if mac key message =? sig then from_utf8 message else none

  -- `verify`
  unfoldable pub verify : Text → Text → Option Claim
  unfolding parse_payload
  verify key token = do
    (p, s) ← split_once b'.' token
    message ← decode p
    sig ← decode s
    text ← check key message sig
    parse_payload text

  create_checked :
      ℕ → ℕ → Text → Text → ℕ → ℕ → Text → ShareStore → ShareStore × Option (Text × Text)
  create_checked now channel id user index exp note st =
      if leb max_grants_per_user (count_owned user st.grants) then (st, none) else (
        record st {
          grants =
              HashMap.insert id
                (record {
                  id = id;
                  username = user;
                  index = index;
                  expires_at = exp;
                  note = sanitize_note note;
                  channel = channel;
                  permits = max_viewers_per_grant;
                })
                st.grants;
        },
        some (encode_token st.key id index exp user, id),
      )

  -- `create`; `none` is `CreateError::TooMany`, and the id comes from `random_token`.
  unfoldable pub create :
      ℕ → ℕ → Text → Text → ℕ → ℕ → Text → ShareStore → ShareStore × Option (Text × Text)
  unfolding create_checked
  create now channel id user index ttl note st =
      create_checked now channel id user index (saturating_add now ttl) note (prune_expired now st)

  drop_grant : Text → Option Grant → ShareStore → ShareStore
  drop_grant id none st = st
  drop_grant id (some g) st = record st {
    grants = HashMap.remove id st.grants;
    revoked = g.channel ∷ st.revoked;
  }

  resolve_grant : Claim → Option Grant → Option (Text × ℕ)
  resolve_grant c none = none
  resolve_grant c (some g) = if matches c g then some (c.user, c.index) else none

  resolve_claim : ℕ → ShareStore → Option Claim → ShareStore × Option (Text × ℕ)
  unfolding drop_grant resolve_grant
  resolve_claim now st none = (st, none)
  resolve_claim now st (some c) =
      if leb c.exp now
      then (drop_grant c.id (HashMap.get c.id st.grants) st, none)
      else (st, resolve_grant c (HashMap.get c.id st.grants))

  -- `resolve`
  unfoldable pub resolve : ℕ → Text → ShareStore → ShareStore × Option (Text × ℕ)
  unfolding resolve_claim
  resolve now token st = resolve_claim now st (verify st.key token)

  remaining_claim : ℕ → ShareStore → Option Claim → Option ℕ
  remaining_claim now st none = none
  remaining_claim now st (some c) =
      if contains_key c.id st.grants && ltb now c.exp then some (c.exp - now) else none

  -- `remaining_secs`
  unfoldable pub remaining_secs : ℕ → Text → ShareStore → Option ℕ
  unfolding remaining_claim
  remaining_secs now token st = remaining_claim now st (verify st.key token)

  lease_grant : Claim → Option Grant → ShareStore → ShareStore × Leased
  lease_grant c none st = (st, err invalid)
  lease_grant c (some g) st =
      if not (matches c g) then (st, err invalid) else if g.permits == 0 then (st, err full) else (
        record st { grants = HashMap.insert c.id (record g { permits = g.permits - 1 }) st.grants },
        ok (record { username = c.user; index = c.index; expires_at = c.exp; channel = g.channel }),
      )

  lease_claim : ℕ → ShareStore → Option Claim → ShareStore × Leased
  unfolding lease_grant
  lease_claim now st none = (st, err invalid)
  lease_claim now st (some c) =
      if leb c.exp now then (st, err invalid) else lease_grant c (HashMap.get c.id st.grants) st

  -- `lease`
  unfoldable pub lease : ℕ → Text → ShareStore → ShareStore × Leased
  unfolding lease_claim
  lease now token st = lease_claim now st (verify st.key token)
