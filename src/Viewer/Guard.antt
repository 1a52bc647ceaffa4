-- ===== src/Viewer/Guard.antt =====
-- What the guard of a viewer's socket lets through once the lease is no longer valid.
use webshell.Base.{
  ◌≤◌, ◌≡◌, ◌⊎◌, refl, ap, ◌∙◌, inl, inr, true, false, Option, none, some, List, [], ◌∷◌, ◌++◌,
  arith, Text, Bool-cases, if_elim,
}
use webshell.Scrollback.{Vt100}
use webshell.Shell.{Broadcast}
use webshell.Forward.{Message, binary, close_frame}
use webshell.Share.{Lease}
use webshell.Viewer.{
  Clock, expired, revoked, lease_valid, valid, Write, Viewer, leave, close, send, send_next,
  send_pending,
}

-- The clock does not run backwards, a revocation is not taken back, and a sender that is gone stays so.
pub record Later (c d : Clock) : Type 0 where
  pub later : c.now ≤ d.now
  pub revoked_stays : revoked c ≡ true → revoked d ≡ true

-- A lease that is no longer valid never is again.
pub valid-lasting :
    (l : Option Lease) (c d : Clock) → Later c d → valid l c ≡ false → valid l d ≡ false
unfolding valid lease_valid expired
valid-lasting none c d h e = absurd (cc e)
valid-lasting (some l) c d h e = ground (arith, h.later, h.revoked_stays)

module _ (vt : Vt100) (bc : Broadcast) where
  -- From `v` to `w` nothing is sent, or a close frame by which the bridge returns.
  pub record Silent (v w : Viewer vt bc) : Type 0 where
    pub lease : w.lease ≡ v.lease
    pub sent : (w.sent ≡ v.sent) ⊎ ((w.live ≡ false) × (w.sent ≡ v.sent ++ close_frame ∷ []))

  pub close-Silent : (v : Viewer vt bc) → Silent v (close vt bc v)
  unfolding close leave
  close-Silent v = record { lease = refl; sent = inr (refl, refl) }

  pub leave-Silent : (v : Viewer vt bc) → Silent v (leave vt bc v)
  unfolding leave
  leave-Silent v = record { lease = refl; sent = inl refl }

  pub same-Silent : (v : Viewer vt bc) → Silent v v
  same-Silent v = record { lease = refl; sent = inl refl }

  pub send-Silent :
      (c : Clock) (w : Write) (msg : Message) (v : Viewer vt bc)
      → valid v.lease c ≡ false
      → Silent v (send vt bc c w msg v)
  unfolding send
  send-Silent c w msg v e =
      if_elim (Silent v) (valid v.lease c) _ _ (λ f. absurd (cc (e, f))) (λ _. close-Silent v)

  -- Once the bridge has returned it sends no more.
  pub record Still (v w : Viewer vt bc) : Type 0 where
    pub lease : w.lease ≡ v.lease
    pub sent : w.sent ≡ v.sent
    pub gone : w.live ≡ false

  pub chain :
      (a b c : Viewer vt bc)
      → Silent a b
      → (b.live ≡ true → Silent b c)
      → (b.live ≡ false → Still b c)
      → Silent a c
  chain a b c s more rest = elim (Bool-cases b.live) [
    | inl on ↦
        let m = more on in
        let quiet : b.sent ≡ a.sent = elim s.sent [
          | inl e ↦ e
          | inr (off, _) ↦ absurd (cc (on, off))
        ] in
        record {
          lease = m.lease ∙ s.lease;
          sent = elim m.sent [
            | inl e ↦ inl (e ∙ quiet)
            | inr (off, e) ↦ inr (off, e ∙ ap (λ x. x ++ close_frame ∷ []) quiet)
          ];
        }
    | inr off ↦
        let r = rest off in
        record {
          lease = r.lease ∙ s.lease;
          sent = elim s.sent [ inl e ↦ inl (r.sent ∙ e) | inr (_, e) ↦ inr (r.gone, r.sent ∙ e) ];
        }
  ]

  pub same-Still : (v : Viewer vt bc) → v.live ≡ false → Still v v
  same-Still v off = record { lease = refl; sent = refl; gone = off }

  pub send_next-Silent :
      (c : Clock) (w : Write) (msg : Message) (v : Viewer vt bc)
      → valid v.lease c ≡ false
      → Silent v (send_next vt bc c w msg v)
  unfolding send_next
  send_next-Silent c w msg v e =
      if_elim (Silent v) v.live _ _ (λ _. send-Silent c w msg v e) (λ _. same-Silent v)

  pub send_next-Still :
      (c : Clock) (w : Write) (msg : Message) (v : Viewer vt bc)
      → v.live ≡ false
      → Still v (send_next vt bc c w msg v)
  unfolding send_next
  send_next-Still c w msg v off =
      if_elim (Still v) v.live _ _ (λ on. absurd (cc (on, off))) (λ _. same-Still v off)

  send_pending-Still :
      (c : Clock) (pending : List Text) (ws : List Write) (v : Viewer vt bc)
      → v.live ≡ false
      → Still v (send_pending vt bc c pending ws v)
  unfolding send_pending leave
  send_pending-Still c [] ws v off = same-Still v off
  send_pending-Still c (b ∷ more) [] v off = record { lease = refl; sent = refl; gone = refl }
  send_pending-Still c (b ∷ more) (w ∷ ws) v off =
      let s = send_next-Still c w (binary b) v off in
      let r = send_pending-Still c more ws (send_next vt bc c w (binary b) v) s.gone in
      record { lease = r.lease ∙ s.lease; sent = r.sent ∙ s.sent; gone = r.gone }

  pub send_pending-Silent :
      (c : Clock) (pending : List Text) (ws : List Write) (v : Viewer vt bc)
      → valid v.lease c ≡ false
      → Silent v (send_pending vt bc c pending ws v)
  unfolding send_pending
  send_pending-Silent c [] ws v e = same-Silent v
  send_pending-Silent c (b ∷ more) [] v e = leave-Silent v
  send_pending-Silent c (b ∷ more) (w ∷ ws) v e =
      let s = send_next-Silent c w (binary b) v e in
      let next = send_next vt bc c w (binary b) v in
      chain v next _ s (λ on. send_pending-Silent c more ws next (ap (λ l. valid l c) s.lease ∙ e))
        (λ off. send_pending-Still c more ws next off)
