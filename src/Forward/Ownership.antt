-- ===== src/Forward/Ownership.antt =====
-- What a connection may touch: its own channels, and the shells of its own user.
use webshell.Base.{
  ℕ, ◌≡◌, ◌≢◌, refl, sym, ◌∙◌, Bool, some, List, Text, text_eq, nat_eq, ◌=?◌, if_elim, some_inj,
  subst,
}
use webshell.HashMap
use webshell.HashMap.{HashMap}
use webshell.HashMap.Laws.{get-insert, get-remove, get-nil}
use webshell.Scrollback.{Vt100}
use webshell.Shell.{Broadcast, Shell}
use webshell.Terminals.{World, put_shell, slot_of, held, slots_of}
use webshell.Terminals.Slots.{WellPlaced}
use webshell.Terminals.Isolation.{held-put_shell_other, put_shell-WellPlaced}
use webshell.Forward.{Message, Channel, Mux, finish, put_channel}

module _ (vt : Vt100) (bc : Broadcast) (user : Text) where
  -- Only this user's slots name the shell.
  abbrev pub Mine : World vt bc → ℕ → Type 0
  Mine world id = (v : Text) (j : ℕ) → slot_of v j world ≡ some id → v ≡ user

  abbrev pub AllMine : World vt bc → HashMap ℕ (Channel bc.Receiver) → Type 0
  AllMine world channels =
      (term : ℕ) (ch : Channel bc.Receiver)
      → HashMap.get term channels ≡ some ch
      → Mine world ch.shell

  -- The slots are told apart, and the channels of a connection lead to its own user's shells or to
  -- ones that are in no slot any more.
  pub record Owned (m : Mux vt bc) : Type 0 where
    pub placed : WellPlaced m.world
    pub own : AllMine m.world m.channels

  -- The connection still is as it should be, and no other user's slot has changed.
  pub record Keeps (m m' : Mux vt bc) : Type 0 where
    pub owned : Owned m'
    pub others : (v : Text) (j : ℕ) → user ≢ v → held v j m'.world ≡ held v j m.world

  pub Keeps-refl : (m : Mux vt bc) → Owned m → Keeps m m
  Keeps-refl m o = record { owned = o; others = λ v j ne. refl }

  pub Keeps-trans : (a b c : Mux vt bc) → Keeps a b → Keeps b c → Keeps a c
  Keeps-trans a b c k l = record {
    owned = l.owned;
    others = λ v j ne. l.others v j ne ∙ k.others v j ne;
  }

  pub finish-Keeps : (m : Mux vt bc) → Owned m → Keeps m (finish vt bc m)
  unfolding finish
  finish-Keeps m o = record {
    owned = record {
      placed = o.placed;
      own = λ term ch e. absurd (cc (e, get-nil {V = Channel bc.Receiver} term));
    };
    others = λ v j ne. refl;
  }

  -- A change to what is sent and to the flags.
  pub sends-Keeps :
      (m : Mux vt bc) (sent : List Message) (running connected : Bool)
      → Owned m
      → Keeps m (record m { sent = sent; running = running; connected = connected })
  sends-Keeps m sent running connected o = record {
    owned = record { placed = o.placed; own = o.own };
    others = λ v j ne. refl;
  }

  -- Changing a shell moves none.
  pub Mine-put_shell :
      (world : World vt bc) (id : ℕ) (t : Shell vt bc) (k : ℕ)
      → Mine world k
      → Mine (put_shell id t world) k
  unfolding slots_of
  Mine-put_shell world id t k mine = mine

  -- A change to a shell of its own.
  pub touch-Keeps :
      (m : Mux vt bc) (id : ℕ) (t : Shell vt bc)
      → Owned m
      → Mine m.world id
      → Keeps m (record m { world = put_shell id t m.world })
  unfolding slots_of
  touch-Keeps m id t o mine = record {
    owned = record { placed = put_shell-WellPlaced id t m.world o.placed; own = o.own };
    others = λ v j ne. held-put_shell_other v j id t m.world (λ e. ne (sym (mine v j e)));
  }

  pub put_channel-Keeps :
      (term : ℕ) (ch : Channel bc.Receiver) (m : Mux vt bc)
      → Owned m
      → Mine m.world ch.shell
      → Keeps m (put_channel vt bc term ch m)
  put_channel-Keeps term ch m o mine = record {
    owned = record {
      placed = o.placed;
      own = λ k c e.
          if_elim (λ x. x ≡ some c → Mine m.world c.shell) (term =? k) _ _
            (λ s q. subst (λ (x : Channel bc.Receiver). Mine m.world x.shell) (some_inj q) mine)
            (λ s q. o.own k c q) (sym (get-insert term k ch m.channels) ∙ e);
    };
    others = λ v j ne. refl;
  }

  pub remove-Keeps :
      (term : ℕ) (m : Mux vt bc)
      → Owned m
      → Keeps m (record m { channels = HashMap.remove term m.channels })
  remove-Keeps term m o = record {
    owned = record {
      placed = o.placed;
      own = λ k c e.
          if_elim (λ x. x ≡ some c → Mine m.world c.shell) (term =? k) _ _ (λ s q. absurd (cc q))
            (λ s q. o.own k c q) (sym (get-remove term k m.channels) ∙ e);
    };
    others = λ v j ne. refl;
  }
