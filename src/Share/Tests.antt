-- ===== src/Share/Tests.antt =====
-- A store with two users, and tokens under a toy codec.
use webshell.Base.{
  ◌+◌, ◌-◌, ◌≡◌, ◌≢◌, ◌↔◌, refl, ◌++◌, true, none, some, [], ◌∷◌, arith, Text, codes, length, map,
  All, text_eq,
}
use webshell.Base.Strings.{split_once, parse_uint}
use webshell.Base.Utf8.{from_utf8, utf8_scan, ascii-IsUtf8}
use webshell.HashMap
use webshell.HashMap.{HashMap}
use webshell.Share.{
  Grant, ShareStore, Codec, Lease, ok, err, invalid, Claim, revoke, verify, encode_token, create,
  resolve, lease, parse_payload, prune_expired, count_owned,
}
use webshell.Share.Token.{IsBase64, Signed, verify-encode_token, verify-Signed}
use webshell.Share.Grants.{IsCapped, revoke-refused}
use webshell.Share.Viewers.{IsLive, resolve_iff}
use webshell.Share.Standing.{Call, after}
use webshell.Share.Permits.{Open, created, joined, called, HasPermits, Open-HasPermits}

-- Bytes moved away from the dot; the tag of a message is the key and its length.
abbrev back : Text → Text
back [] = []
back (c ∷ cs) = (c - 64) ∷ back cs

abbrev toy : Codec
toy = record {
  encode = map (λ c. c + 64);
  decode = λ t. some (back t);
  mac = λ key message. length message ∷ key;
}

back_lem : (t : Text) → back (map (λ c. c + 64) t) ≡ t
back_lem [] = refl
back_lem (c ∷ t) = ground (arith, back_lem t)

no_dots : (t : Text) → All (λ b. b ≢ b'.') (map (λ c. c + 64) t)
no_dots [] = tt
no_dots (c ∷ t) = (omega arith, no_dots t)

toy-IsBase64 : IsBase64 toy
toy-IsBase64 = record { decode-encode = λ t. ap_some (back_lem t); no_dot = no_dots }
  where
    ap_some : {a b : Text} → a ≡ b → some a ≡ some b
    ap_some e = cc

abbrev empty : ShareStore
empty = record { key = codes "k"; grants = []; revoked = [] }

abbrev id : Text
id = codes "id"

abbrev user : Text
user = codes "a:b"

abbrev grant : Grant
grant = record {
  id = id;
  username = user;
  index = 2;
  expires_at = 100;
  note = [];
  channel = 7;
  permits = 32;
}

abbrev store : ShareStore
store = record empty { grants = (id, grant) ∷ [] }

abbrev token : Text
token = map (λ c. c + 64) (codes "id:2:100:a:b") ++ (b'.' ∷ map (λ c. c + 64) (12 ∷ codes "k"))

abbrev claim : Claim
claim = record { id = id; user = user; index = 2; exp = 100 }

test_verify : verify toy (codes "k") token ≡ some claim
unfolding verify split_once parse_payload parse_uint from_utf8 utf8_scan
test_verify = refl

test_wrong_key : verify toy (codes "j") token ≡ none
unfolding verify split_once parse_payload parse_uint from_utf8 utf8_scan
test_wrong_key = refl

verify-encode_token_example :
    verify toy (codes "k") (encode_token toy (codes "k") id 2 100 user) ≡ some claim
verify-encode_token_example =
    verify-encode_token toy (codes "k") id 2 100 user toy-IsBase64
      ((omega arith, omega arith), ((omega arith, omega arith), tt))
      (ascii-IsUtf8 (codes "a:b") (omega arith, (omega arith, (omega arith, tt)))) (omega arith)
      (omega arith)

verify-Signed_example : Signed toy (codes "k") token claim
verify-Signed_example = verify-Signed toy (codes "k") token claim test_verify

live : IsLive toy 99 token store claim grant
live = record {
  signed = test_verify;
  unexpired = omega arith;
  stored = unfold HashMap.get in refl;
  same_user = refl;
  same_index = refl;
  same_exp = refl;
}

resolve_iff_example : ((resolve toy 99 token store).1 ≡ some (user, 2)) ↔ (
    (c : Claim) × (g : Grant) × IsLive toy 99 token store c g × (g.username ≡ user) × (g.index ≡ 2))
resolve_iff_example = resolve_iff toy 99 token user 2 store

revoked_by_owner : (revoke user id store).1 ≡ true
revoked_by_owner = unfold revoke HashMap.get in refl

revoke-refused_example :
    ((resolve toy 99 token (revoke user id store).0).1 ≡ none)
    × ((lease toy 99 token (revoke user id store).0).1 ≡ err invalid)
revoke-refused_example =
    revoke-refused toy user id store 99 token claim revoked_by_owner test_verify refl

empty-IsCapped : IsCapped empty
empty-IsCapped u = unfold count_owned in omega arith

abbrev made : ShareStore
made = (create toy 0 7 id user 2 100 [] empty).0

opened : Open toy id made 0
opened =
    created 0 7 user 2 100 [] empty (encode_token toy (codes "k") id 2 100 user, id) tt
      (unfold create count_owned prune_expired HashMap.retain in refl)

abbrev watching : Lease
watching = record { username = user; index = 2; expires_at = 100; channel = 7 }

test_lease : (lease toy 99 token made).1 ≡ ok watching
unfolding lease verify split_once parse_payload parse_uint from_utf8 utf8_scan create count_owned
    prune_expired HashMap.retain HashMap.insert HashMap.remove HashMap.get
test_lease = refl

watched : Open toy id (lease toy 99 token made).0 1
watched = joined 0 99 token made claim watching opened test_verify_made refl test_lease
  where
    test_verify_made : verify toy made.key token ≡ some claim
    test_verify_made = unfold create count_owned prune_expired HashMap.retain in test_verify

abbrev watched_grant : Grant
watched_grant = record grant { permits = 31 }

-- The sweep at 99 keeps the grant.
stands :
    HashMap.get id (after toy (Call.sweeps 99) (lease toy 99 token made).0).grants
    ≡ some watched_grant
unfolding after lease verify split_once parse_payload parse_uint from_utf8 utf8_scan create
    count_owned prune_expired HashMap.retain HashMap.insert HashMap.remove HashMap.get
    webshell.Share.Note.sanitize_note
stands = refl

swept : Open toy id (after toy (Call.sweeps 99) (lease toy 99 token made).0) 1
swept = called 1 (Call.sweeps 99) (lease toy 99 token made).0 watched_grant watched tt stands

Open-HasPermits_example :
    HasPermits toy id 1 (after toy (Call.sweeps 99) (lease toy 99 token made).0)
Open-HasPermits_example =
    Open-HasPermits toy id (after toy (Call.sweeps 99) (lease toy 99 token made).0) 1 swept
