-- ===== src/Devices.antt =====
-- src/devices.rs: browsers that may skip the second factor. Tokens and ids come from `random_token`,
-- SHA-256 with base64 is a parameter, and whether a write reaches the disk is an argument of each
-- call. The clock is in seconds of Unix time.
pub mod Trust
pub mod Eviction
pub mod Revocation
mod Tests
use webshell.Base.{
  ℕ, suc, ◌+◌, ◌-◌, ◌^◌, ◌≡◌, Bool, true, false, not, ◌&&◌, ◌||◌, Option, none, some, List, [], ◌∷◌,
  if◌then◌else◌, length, ltb, leb, ◌==◌, Text, ◌=?◌, text_eq, min, max, take, map, keep_if,
}
use webshell.Base.Sort.{text_le, sort_by}
use webshell.HashMap
use webshell.HashMap.{HashMap, values}
use webshell.Identity.{Identity, identity_eq, to_string}
use webshell.Share.Note.{sanitize_note}
use webshell.Enrollment.{Outcome, ok, failed}

-- `Device`
pub record Device : Type 0 where
  pub id : Text
  pub identity : Identity
  pub token_hash : Text
  pub created_at : ℕ
  pub expires_at : ℕ
  pub last_used_at : ℕ
  pub enrolled_at : ℕ
  pub user_agent : Text
  pub created_ip : Text
  pub last_ip : Text

-- `Device::expired`
abbrev pub expired : Device → ℕ → Bool
expired d now = leb d.expires_at now

-- `Client`
pub record Client : Type 0 where
  pub user_agent : Text
  pub ip : Text

-- `DeviceStore`, and the file
pub record DeviceStore : Type 0 where
  pub inner : HashMap Text Device
  pub disk : Option (List Device)

-- `display_text`
abbrev pub display_text : Text → Text
display_text raw = sanitize_note raw

-- The order of the file: by identity, then by id.
abbrev pub file_le : Device → Device → Bool
file_le a b =
    if to_string a.identity =? to_string b.identity
    then text_le a.id b.id
    else text_le (to_string a.identity) (to_string b.identity)

-- `write`: the old file, or the whole new one
unfoldable pub write : Bool → DeviceStore → DeviceStore
write works st = if works then record st { disk = some (sort_by file_le (values st.inner)) } else st

on_disk : Option (List Device) → List Device
on_disk none = []
on_disk (some ds) = ds

-- The unexpired devices by their hashes; a later one replaces an earlier one.
unfoldable pub collect : ℕ → HashMap Text Device → List Device → HashMap Text Device
collect now m [] = m
collect now m (d ∷ ds) =
    if expired d now then collect now m ds else collect now (HashMap.insert d.token_hash d m) ds

-- `load`, from a file that parses or from none
unfoldable pub load : ℕ → Option (List Device) → DeviceStore
unfolding collect on_disk
load now file = record { inner = collect now [] (on_disk file); disk = file }

-- `retain(|_, d| !d.expired(now))`
abbrev pub drop_expired : ℕ → HashMap Text Device → HashMap Text Device
drop_expired now m = HashMap.retain (λ _ d. not (expired d now)) m

-- `mine`: the keys of an identity's devices, and when each was last used
unfoldable pub mine : Identity → HashMap Text Device → List (Text × ℕ)
mine identity [] = []
mine identity ((k, d) ∷ m) =
    let rest = mine identity m in
    if d.identity =? identity then (k, d.last_used_at) ∷ rest else rest

unfoldable pub remove_all : List (Text × ℕ) → HashMap Text Device → HashMap Text Device
remove_all [] m = m
remove_all ((k, used) ∷ ks) m = remove_all ks (HashMap.remove k m)

-- The least recently used devices go until one more fits.
unfoldable pub evict : Identity → ℕ → HashMap Text Device → HashMap Text Device
unfolding mine remove_all
evict identity limit m =
    let owned = mine identity m in
    if leb (max limit 1) (length owned)
    then remove_all (take (length owned + 1 - max limit 1) (sort_by (λ a b. leb a.1 b.1) owned)) m
    else m

-- `retain(|_, d| &d.identity != identity)`
abbrev pub not_of : Identity → HashMap Text Device → HashMap Text Device
not_of identity m = HashMap.retain (λ _ d. not (d.identity =? identity)) m

-- `id_for_token`, given the hash
abbrev pub id_at : Text → HashMap Text Device → Option Text
id_at key m = elim (HashMap.get key m) [ none ↦ none | some d ↦ some d.id ]

-- `iter().find(|(_, d)| d.id == id && &d.identity == identity)`
unfoldable pub find_key : Identity → Text → HashMap Text Device → Option Text
find_key identity id [] = none
find_key identity id ((k, d) ∷ m) =
    let rest = find_key identity id m in
    if d.id =? id && d.identity =? identity then some k else rest

revoke_key : Bool → Option Text → DeviceStore → DeviceStore × Bool
revoke_key works none st = (st, false)
revoke_key works (some key) st =
    (write works (record st { inner = HashMap.remove key st.inner }), true)

-- `revoke`
unfoldable pub revoke : Bool → Identity → Text → DeviceStore → DeviceStore × Bool
unfolding revoke_key
revoke works identity id st = revoke_key works (find_key identity id st.inner) st

-- A map without some entries is written only when there were some.
unfoldable pub shrink : Bool → HashMap Text Device → DeviceStore → DeviceStore × ℕ
shrink works kept st =
    let removed = length st.inner - length kept in
    (
      if ltb 0 removed
          then write works (record st { inner = kept })
          else record st { inner = kept },
      removed,
    )

-- `revoke_all`
unfoldable pub revoke_all : Bool → Identity → DeviceStore → DeviceStore × ℕ
unfolding shrink
revoke_all works identity st = shrink works (not_of identity st.inner) st

-- `sweep`
unfoldable pub sweep : Bool → ℕ → DeviceStore → DeviceStore × ℕ
unfolding shrink
sweep works now st = shrink works (drop_expired now st.inner) st

forget : Bool → Text → Option Device → DeviceStore → DeviceStore × Option Text
forget works key none st = (st, none)
forget works key (some d) st =
    (write works (record st { inner = HashMap.remove key st.inner }), some d.id)

-- `filter(|d| &d.identity == identity)`
abbrev pub owned_by : Identity → Option Device → Option Device
owned_by identity none = none
owned_by identity (some d) = if d.identity =? identity then some d else none

-- `sort_by`: newest first, then by id
abbrev pub list_le : Device → Device → Bool
list_le a b =
    if a.created_at == b.created_at then text_le a.id b.id else ltb b.created_at a.created_at

-- `list`
unfoldable pub list : Identity → ℕ → ℕ → DeviceStore → List Device
list identity enrolled_at now st = sort_by list_le (
    keep_if (λ d. d.identity =? identity && not (expired d now) && d.enrolled_at == enrolled_at)
      (values st.inner))

-- The conditions of `authorize`.
abbrev pub trusted : Identity → ℕ → ℕ → Device → Bool
trusted identity enrolled_at now d =
    d.identity =? identity && not (expired d now) && d.enrolled_at == enrolled_at

module _ (token_hash : Text → Text) where
  -- `mint`; the file is written after the map, and the new device alone is taken back on failure.
  unfoldable pub mint :
      Bool
      → Text
      → Text
      → Identity
      → ℕ
      → ℕ
      → ℕ
      → Client
      → ℕ
      → DeviceStore
      → DeviceStore × Outcome (Text × Text)
  unfolding evict write
  mint works token id identity enrolled_at window_secs limit client now st =
      let key = token_hash token in
      let device : Device = record {
        id = id;
        identity = identity;
        token_hash = key;
        created_at = now;
        expires_at = min (now + window_secs) (2 ^ 64 - 1);
        last_used_at = now;
        enrolled_at = enrolled_at;
        user_agent = display_text client.user_agent;
        created_ip = display_text client.ip;
        last_ip = display_text client.ip;
      } in
      let guard = HashMap.insert key device (evict identity limit (drop_expired now st.inner)) in
      if works
      then (write works (record st { inner = guard }), ok (token, id))
      else (record st { inner = HashMap.remove key guard }, failed)

  authorize_found :
      Bool
      → Text
      → Identity
      → ℕ
      → Client
      → ℕ
      → Option Device
      → DeviceStore
      → DeviceStore × Option Text
  unfolding write
  authorize_found works key identity enrolled_at client now none st = (st, none)
  authorize_found works key identity enrolled_at client now (some d) st =
      if trusted identity enrolled_at now d
      then (
        write works (record st {
          inner =
              HashMap.insert key
                (record d {
                  last_used_at = now;
                  last_ip = display_text client.ip;
                  user_agent = display_text client.user_agent;
                })
                st.inner;
        }),
        some d.id,
      )
      else (st, none)

  -- `authorize`
  unfoldable pub authorize :
      Bool → Text → Identity → ℕ → Client → ℕ → DeviceStore → DeviceStore × Option Text
  unfolding authorize_found
  authorize works token identity enrolled_at client now st =
      let key = token_hash token in
      authorize_found works key identity enrolled_at client now (HashMap.get key st.inner) st

  -- `id_for_token`
  abbrev pub id_for_token : Text → DeviceStore → Option Text
  id_for_token token st = id_at (token_hash token) st.inner

  -- `revoke_token`
  unfoldable pub revoke_token : Bool → Text → DeviceStore → DeviceStore × Option Text
  unfolding forget
  revoke_token works token st =
      let key = token_hash token in forget works key (HashMap.get key st.inner) st

  -- `forget_if_owned`
  unfoldable pub forget_if_owned : Bool → Text → Identity → DeviceStore → DeviceStore × Option Text
  unfolding forget
  forget_if_owned works token identity st =
      let key = token_hash token in
      forget works key (owned_by identity (HashMap.get key st.inner)) st
