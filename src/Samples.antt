-- ===== src/Samples.antt =====
-- Concrete instances of the parameters, for the tests: a screen that shows all it was sent, a channel
-- that keeps its whole history, and a command builder that is its arguments and its environment.
use webshell.Base.{
  ℕ, ◌+◌, ◌-◌, ◌≤◌, ◌<◌, ◌≡◌, refl, ap, sym, ◌∙◌, List, [], ◌∷◌, ◌++◌, arith, ltb, if◌then◌else◌,
  length, drop, length-append, length-drop, drop-append_le, drop-append_length, drop-drop,
  append-nil, Text, text_eq, codes, if_elim, subst,
}
use webshell.HashMap
use webshell.HashMap.{HashMap}
use webshell.HashMap.Laws.{get-insert, get-remove}
use webshell.Command.{CommandBuilder, IsCommandBuilder}
use webshell.Scrollback.{Vt100}
use webshell.Shell.{Broadcast, TryRecv, ok, lagged, empty}
use webshell.Shell.Screen.{IsBroadcast}

abbrev pub tape : Vt100
tape = record {
  Screen = Text;
  parser = λ rows cols. [];
  process = λ s bytes. s ++ bytes;
  contents_formatted = λ s. s;
}

-- What is at the front of the values that a receiver has not taken.
abbrev pub take_one : List Text → ℕ → TryRecv × ℕ
take_one [] place = (empty, place)
take_one (b ∷ q) place = (ok b, place + 1)

abbrev pub recv : ℕ × List Text → ℕ → TryRecv × ℕ
recv (n, all) place =
    if ltb n (length all - place) then (lagged, length all - n) else take_one (drop place all) place

abbrev pub bus : Broadcast
bus = record {
  Channel = ℕ × List Text;
  Receiver = ℕ;
  channel = λ n. (n, []);
  send = λ b c. (c.0, c.1 ++ b ∷ []);
  subscribe = λ c. length c.1;
  try_recv = recv;
}

abbrev pub Waits : ℕ × List Text → ℕ → List Text → Type 0
Waits (n, all) place q = (drop place all ≡ q) × (place ≤ length all) × (length q ≤ n)

Waits-fits :
    (n : ℕ) (all : List Text) (place : ℕ) (q : List Text)
    → Waits (n, all) place q
    → recv (n, all) place ≡ take_one q place
Waits-fits n all place q (e, within, few) =
    if_elim (λ x. x ≡ take_one q place) (ltb n (length all - place)) _ _
      (λ over. absurd (ground (arith, length-drop place all, ap length e)))
      (λ _. ap (λ l. take_one l place) e)

Waits-send :
    (c : ℕ × List Text) (place : ℕ) (q : List Text) (b : Text)
    → Waits c place q
    → length q < c.0
    → Waits (c.0, c.1 ++ b ∷ []) place (q ++ b ∷ [])
Waits-send (n, all) place q b (e, within, few) room = (
  drop-append_le place all (b ∷ []) within ∙ ap (λ l. l ++ b ∷ []) e,
  omega (arith, within, length-append all (b ∷ [])),
  omega (arith, room, length-append q (b ∷ [])),
)

Waits-next :
    (n : ℕ) (all : List Text) (place : ℕ) (b : Text) (q : List Text)
    → Waits (n, all) place (b ∷ q)
    → Waits (n, all) (place + 1) q
Waits-next n all place b q (e, within, few) = (
  sym (drop-drop 1 place all) ∙ ap (drop 1) e,
  omega (arith, within, length-drop place all, ap length e),
  omega (arith, few),
)

pub bus-IsBroadcast : IsBroadcast bus
bus-IsBroadcast = record {
  capacity = λ c. c.0;
  Queued = Waits;
  capacity-channel = λ n. refl;
  capacity-send = λ b c. refl;
  subscribe-Queued = λ c. (
    subst (λ l. drop (length c.1) l ≡ []) (append-nil c.1) (drop-append_length c.1 []),
    omega arith,
    omega arith,
  );
  send-Queued = Waits-send;
  try_recv-nil = λ c r h.
      let e = Waits-fits c.0 c.1 r [] h in (ap (λ x. x.0) e, subst (λ x. Waits c x.1 []) (sym e) h);
  try_recv-cons = λ c r b q h.
      let e = Waits-fits c.0 c.1 r (b ∷ q) h in
      (ap (λ x. x.0) e, subst (λ x. Waits c x.1 q) (sym e) (Waits-next c.0 c.1 r b q h));
}

-- Its capacity is the one it was made with.
pub capacity-bus : (c : ℕ × List Text) → bus-IsBroadcast.capacity c ≡ c.0
unfolding bus-IsBroadcast
capacity-bus c = refl

-- What the server itself was started with.
abbrev pub inherited : HashMap Text Text
inherited =
    (codes "PATH", codes "/bin")
    ∷ (codes "WEBSHELL_SECRET", codes "key")
    ∷ (codes "HOME", codes "/")
    ∷ []

abbrev pub builder : CommandBuilder
builder = record {
  Builder = List Text × HashMap Text Text;
  new = λ p. (p ∷ [], inherited);
  args = λ a b. (b.0 ++ a, b.1);
  env = λ k v b. (b.0, HashMap.insert k v b.1);
  env_remove = λ k b. (b.0, HashMap.remove k b.1);
  cwd = λ d b. b;
  get_argv = λ b. b.0;
  get_env = λ k b. HashMap.get k b.1;
}

pub builder-IsCommandBuilder : IsCommandBuilder builder inherited
builder-IsCommandBuilder = record {
  get_env-new = λ k p. refl;
  get_env-args = λ k a b. refl;
  get_env-env = λ k j v b. get-insert j k v b.1;
  get_env-env_remove = λ k j b. get-remove j k b.1;
  get_env-cwd = λ k d b. refl;
  get_argv-new = λ p. refl;
  get_argv-args = λ a b. refl;
  get_argv-env = λ j v b. refl;
  get_argv-env_remove = λ j b. refl;
  get_argv-cwd = λ d b. refl;
}
