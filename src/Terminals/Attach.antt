-- ===== src/Terminals/Attach.antt =====
-- What a client has of a shell's output after it attaches, and after the next redraw.
use webshell.Base.{
  ℕ, ◌^◌, ◌≤◌, ◌<◌, ◌≡◌, ◌⊎◌, refl, ap, sym, ◌∙◌, inl, inr, false, Option, none, some, List, [],
  ◌∷◌, ◌++◌, arith, length, take, Text, append_assoc, ◌==◌, Bool-cases, take-append_le,
}
use webshell.Scrollback.{Vt100, replay, screen_snapshot}
use webshell.Scrollback.History.{Holds}
use webshell.Scrollback.Cut.{cut-Continues}
use webshell.Scrollback.Reconnect.{concat, push_all, push_all-Holds}
use webshell.Shell.{Broadcast, Shell, read_output, output_capacity}
use webshell.Shell.Screen.{IsBroadcast, redraw, redraw_lem, read_all, read_all-Queued}
use webshell.Terminals.{Attachment, client_offset, attachment_to}

client_offset-some :
    (asked : Option (ℕ × ℕ)) (epoch off : ℕ)
    → client_offset asked epoch ≡ some off
    → asked ≡ some (epoch, off)
unfolding client_offset
client_offset-some none epoch off h = absurd (cc h)
client_offset-some (some (e, o)) epoch off h = elim (Bool-cases (e == epoch)) [
  | inl s ↦ let same : e ≡ epoch = ground arith in cc (rw s at h, same)
  | inr s ↦ absurd (cc (rw s at h))
]

module _ (vt : Vt100) (bc : Broadcast) where
  -- What an attachment promises of a shell that has printed `h`: it replays the rest of that from its
  -- base on, and it resumes only where the client has asked to go on with this very shell.
  abbrev pub Promises : Text → Option (ℕ × ℕ) → Attachment bc.Receiver → Type 0
  Promises h asked a =
      (a.base_offset ≤ length h)
      × (take a.base_offset h ++ a.replay ≡ h)
      × ((a.mode ≡ replay) ⊎ (asked ≡ some (a.epoch, a.base_offset)))

  pub attachment_to-Promises :
      (id : ℕ) (t : Shell vt bc) (h : Text) (asked : Option (ℕ × ℕ))
      → Holds vt t.scrollback h
      → Promises h asked (attachment_to vt bc id t asked)
  unfolding attachment_to
  attachment_to-Promises id t h asked v =
      let k = cut-Continues vt t.scrollback h (client_offset asked t.epoch) v in
      (
        k.within,
        k.rest,
        elim k.honest [ inl e ↦ inl e | inr e ↦ inr (client_offset-some asked t.epoch _ e) ],
      )

  read_all-scrollback :
      (t : Shell vt bc) (chunks : List Text)
      → (read_all vt bc t chunks).scrollback ≡ push_all vt t.scrollback chunks
  unfolding read_all push_all read_output
  read_all-scrollback t [] = refl
  read_all-scrollback t (c ∷ cs) = read_all-scrollback (read_output vt bc c t) cs

  module _ (laws : IsBroadcast bc) where
    open laws use {capacity, Queued, subscribe-Queued}

    -- A client attaches with any offset to a shell that has printed `h`, and the shell prints some
    -- more chunks, no more than the channel keeps. Then the next redraw hands out those chunks with no
    -- lag, so that the replay and they are all that the shell has printed from the client's base on,
    -- nothing skipped and nothing repeated, and it shows the screen of a ring that holds all of it.
    pub attach-redraw :
        (id front : ℕ) (t : Shell vt bc) (h : Text) (asked : Option (ℕ × ℕ)) (chunks : List Text)
        → Holds vt t.scrollback h
        → capacity t.output_tx ≡ output_capacity
        → length chunks ≤ output_capacity
        → length (h ++ concat chunks) < 2 ^ 64
        → let a = attachment_to vt bc id t asked in
          let now = read_all vt bc t chunks in
          let r = (redraw vt bc front now a.output_rx).2 in
          (r.lagged ≡ false)
          × (take a.base_offset (h ++ concat chunks) ++ (a.replay ++ concat r.pending)
              ≡ h ++ concat chunks)
          × (r.screen ≡ (screen_snapshot vt front now.scrollback).1)
          × Holds vt now.scrollback (h ++ concat chunks)
    attach-redraw id front t h asked chunks v size few b =
        let a = attachment_to vt bc id t asked in
        let (within, rest, _) = attachment_to-Promises id t h asked v in
        let waits =
          read_all-Queued vt bc laws chunks t a.output_rx []
            (unfold attachment_to in subscribe-Queued t.output_tx) (omega (arith, few, size)) in
        let (all, lag, sized, screen, _, _) =
          redraw_lem vt bc laws front (read_all vt bc t chunks) a.output_rx chunks waits few in
        (
          lag,
          rw (all, take-append_le a.base_offset h (concat chunks) within)
              (sym (append_assoc (take a.base_offset h) a.replay (concat chunks))
                ∙ ap (λ x. x ++ concat chunks) rest),
          screen,
          rw (read_all-scrollback t chunks) (push_all-Holds vt t.scrollback h chunks b v),
        )
