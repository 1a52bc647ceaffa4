-- ===== src/LoginGuard.antt =====
-- `LoginGuard` of src/main.rs: the tarpit of login attempts and the lockout after wrong codes. The
-- clock is in nanoseconds, a lockout in seconds. A bucket's mutex makes the attempts on it one
-- sequence of calls; sleeping is left out, and `enter` answers the delay.
pub mod Strikes
pub mod Tarpit
mod Tests
use webshell.Base.{
  ℕ, zero, suc, ◌+◌, ◌-◌, ◌*◌, ◌/◌, ◌%◌, ◌^◌, ◌≡◌, Bool, true, false, Option, none, some, List, [],
  ◌∷◌, if◌then◌else◌, ltb, leb, ◌==◌, Text, ◌=?◌, text_eq, min,
}
use webshell.HashMap
use webshell.HashMap.{HashMap}
use webshell.Session.{nanos}

abbrev pub mfa_max_strikes : ℕ
mfa_max_strikes = 5

abbrev pub mfa_lockout_base : ℕ
mfa_lockout_base = 15 * 60

abbrev pub mfa_lockout_max : ℕ
mfa_lockout_max = 24 * 60 * 60

abbrev pub mfa_strike_memory : ℕ
mfa_strike_memory = 7 * 24 * 60 * 60

-- `Bucket`: the failures and when they last changed
abbrev pub Bucket : Type 0
Bucket = ℕ × ℕ

-- `MfaStrikes`
pub record MfaStrikes : Type 0 where
  pub count : ℕ
  pub last : ℕ
  pub locked_until : Option ℕ

-- `LoginGuard`, without its semaphore
pub record LoginGuard : Type 0 where
  pub buckets : HashMap Text Bucket
  pub mfa : HashMap Text MfaStrikes

-- `LoginGuard::new`
abbrev pub new : LoginGuard
new = record { buckets = []; mfa = [] }

-- `recent_failures`
unfoldable pub recent_failures : ℕ → Bucket → ℕ
recent_failures now (failures, at) = if ltb (nanos 60) (now - at) then 0 else failures

-- The delay of an attempt, in milliseconds.
abbrev pub delay : ℕ → Bucket → ℕ
delay now b = min (recent_failures now b * 300) 5000

or_insert : ℕ → Option Bucket → Bucket
or_insert now none = (0, now)
or_insert now (some b) = b

-- `enter`: the bucket and the delay of the attempt
unfoldable pub enter : ℕ → Text → LoginGuard → LoginGuard × ℕ
unfolding or_insert
enter now bucket g =
    let b = or_insert now (HashMap.get bucket g.buckets) in
    (record g { buckets = HashMap.insert bucket b g.buckets }, delay now b)

-- `Attempt::failed`
unfoldable pub failed : ℕ → Bucket → Bucket
failed now b = ((recent_failures now b + 1) % 2 ^ 32, now)

-- `Attempt::succeeded`
abbrev pub succeeded : ℕ → Bucket → Bucket
succeeded now b = (0, now)

locked_at : ℕ → Option ℕ → Option ℕ
locked_at now none = none
locked_at now (some until) = if until - now == 0 then none else some (until - now)

strikes_locked : ℕ → Option MfaStrikes → Option ℕ
strikes_locked now none = none
strikes_locked now (some s) = locked_at now s.locked_until

-- `mfa_locked`: the time left
unfoldable pub mfa_locked : ℕ → Text → LoginGuard → Option ℕ
unfolding strikes_locked locked_at
mfa_locked now identity g = strikes_locked now (HashMap.get identity g.mfa)

-- `1u32.checked_shl(round).unwrap_or(u32::MAX)`
abbrev pub doublings : ℕ → ℕ
doublings round = if ltb round 32 then 2 ^ round else 2 ^ 32 - 1

-- `MFA_LOCKOUT_BASE.saturating_mul(..).min(MFA_LOCKOUT_MAX)`
unfoldable pub lockout : ℕ → ℕ
lockout round = min (mfa_lockout_base * doublings round) mfa_lockout_max

or_first : ℕ → Option MfaStrikes → MfaStrikes
or_first now none = record { count = 0; last = now; locked_until = none }
or_first now (some s) = s

-- The count after a strike; an old run is forgotten.
abbrev pub counted : ℕ → MfaStrikes → ℕ
counted now s = ((if ltb (nanos mfa_strike_memory) (now - s.last) then 0 else s.count) + 1) % 2 ^ 32

-- `mfa_failed`: the lockout it triggers, if any
unfoldable pub mfa_failed : ℕ → Text → LoginGuard → LoginGuard × Option ℕ
unfolding or_first
mfa_failed now identity g =
    let s = or_first now (HashMap.get identity g.mfa) in
    let count = counted now s in
    let lock = lockout (count / mfa_max_strikes - 1) in
    if count % mfa_max_strikes == 0
    then (
      record g {
        mfa =
            HashMap.insert identity
              (record { count = count; last = now; locked_until = some (now + nanos lock) }) g.mfa;
      },
      some lock,
    )
    else (
      record g {
        mfa =
            HashMap.insert identity
              (record { count = count; last = now; locked_until = s.locked_until }) g.mfa;
      },
      none,
    )

-- `mfa_succeeded`
abbrev pub mfa_succeeded : Text → LoginGuard → LoginGuard
mfa_succeeded identity g = record g { mfa = HashMap.remove identity g.mfa }
