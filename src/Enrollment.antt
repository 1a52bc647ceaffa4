-- ===== src/Enrollment.antt =====
-- src/enrollment.rs: what the program remembers of an identity, and the file it keeps that in. Whether
-- a write reaches the disk is an argument of each call; a written file is the list of its entries.
pub mod Pinning
mod Tests
use webshell.Base.{
  ℕ, ◌≡◌, Bool, true, false, Option, none, some, List, [], ◌∷◌, if◌then◌else◌, Text, ◌=?◌, text_eq,
  is_some, map,
}
use webshell.Base.Sort.{text_le, sort_by}
use webshell.HashMap
use webshell.HashMap.{HashMap}
use webshell.Identity.{Identity, identity_eq, to_string}

-- `Record`
pub record Record : Type 0 where
  pub sub : Option Text
  pub mfa_secret : Option Text
  pub enrolled_at : Option ℕ

-- `Record::default()`
abbrev pub default : Record
default = record { sub = none; mfa_secret = none; enrolled_at = none }

-- `enrolled`
abbrev pub enrolled : Record → Bool
enrolled r = is_some r.mfa_secret

-- `EnrollmentStore`, and the file
pub record EnrollmentStore : Type 0 where
  pub inner : HashMap Identity Record
  pub disk : Option (List (Identity × Record))

-- `anyhow::Result<A>`
pub data Outcome {ℓ} (A : Type ℓ) : Type ℓ where
  ok : A → Outcome A
  failed : Outcome A

abbrev entry_le : Identity × Record → Identity × Record → Bool
entry_le a b = text_le (to_string a.0) (to_string b.0)

-- `write`: the old file, or the whole new one
unfoldable pub write : Bool → EnrollmentStore → EnrollmentStore
write works st = if works then record st { disk = some (sort_by entry_le st.inner) } else st

entries : Option (List (Identity × Record)) → List (Identity × Record)
entries none = []
entries (some es) = es

-- `collect` into a map: a later entry replaces an earlier one
unfoldable pub collect :
    HashMap Identity Record → List (Identity × Record) → HashMap Identity Record
collect m [] = m
collect m ((i, r) ∷ es) = collect (HashMap.insert i r m) es

-- `load`, from a file that parses or from none
unfoldable pub load : Option (List (Identity × Record)) → EnrollmentStore
unfolding collect entries
load file = record { inner = collect [] (entries file); disk = file }

-- `get`
abbrev pub get : Identity → EnrollmentStore → Option Record
get id st = HashMap.get id st.inner

or_default : Option Record → Record
or_default none = default
or_default (some r) = r

-- `entry(id).or_default()`
unfoldable pub entry : Identity → EnrollmentStore → Record
unfolding or_default
entry id st = or_default (HashMap.get id st.inner)

abbrev pub put : Identity → Record → EnrollmentStore → EnrollmentStore
put id r st = record st { inner = HashMap.insert id r st.inner }

abbrev pub outcome {ℓ} : {A : Type ℓ} → Bool → A → Outcome A
outcome works a = if works then ok a else failed

pin :
    Bool → Identity → Text → Option Text → Record → EnrollmentStore → EnrollmentStore × Outcome Bool
pin works id sub (some known) r st = (put id r st, ok (known =? sub))
pin works id sub none r st =
    (write works (put id (record r { sub = some sub }) st), outcome works true)

-- `pin_subject`
unfoldable pub pin_subject :
    Bool → Identity → Text → EnrollmentStore → EnrollmentStore × Outcome Bool
unfolding pin
pin_subject works id sub st = let r = entry id st in pin works id sub r.sub r st

-- `enroll`
unfoldable pub enroll :
    Bool → Identity → Text → ℕ → EnrollmentStore → EnrollmentStore × Outcome {0} Unit
enroll works id secret now st =
    let r = entry id st in
    (
      write works (put id (record r { mfa_secret = some secret; enrolled_at = some now }) st),
      outcome works tt,
    )
