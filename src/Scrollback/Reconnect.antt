-- ===== src/Scrollback/Reconnect.antt =====
-- A connection over time: attach, follow the live chunks, drop off, come back.
use webshell.Base.{
  ℕ, ◌+◌, ◌^◌, ◌≤◌, ◌<◌, ◌≡◌, refl, ap, sym, ◌∙◌, ◌++◌, Option, some, List, [], ◌∷◌, arith, length,
  Text, take, length-append, length-take, append-nil, append_assoc, subst,
}
use webshell.Scrollback.{Vt100, Scrollback, resume, cut, push}
use webshell.Scrollback.History.{Holds, push-Holds}
use webshell.Scrollback.Cut.{cut-Continues, cut_missed}

abbrev pub concat : List Text → Text
concat [] = []
concat (c ∷ cs) = c ++ concat cs

concat-append : (xs ys : List Text) → concat (xs ++ ys) ≡ concat xs ++ concat ys
concat-append [] ys = refl
concat-append (x ∷ xs) ys =
    ap (◌++◌ x) (concat-append xs ys) ∙ sym (append_assoc x (concat xs) (concat ys))

module _ (vt : Vt100) where
  open vt use {Screen}

  -- The reader thread's loop: one `push` for each chunk.
  unfoldable pub push_all : Scrollback Screen → List Text → Scrollback Screen
  push_all sb [] = sb
  push_all sb (c ∷ cs) = push_all (push vt sb c) cs

  pub push_all-Holds :
      (sb : Scrollback Screen) (h : Text) (chunks : List Text)
      → length (h ++ concat chunks) < 2 ^ 64
      → Holds vt sb h
      → Holds vt (push_all sb chunks) (h ++ concat chunks)
  unfolding push_all
  push_all-Holds sb h [] b v = rw append-nil v
  push_all-Holds sb h (c ∷ cs) b v =
      let e : (h ++ c) ++ concat cs ≡ h ++ (c ++ concat cs) = append_assoc h c (concat cs) in
      subst (Holds vt (push_all sb (c ∷ cs))) e (
        push_all-Holds (push vt sb c) (h ++ c) cs (rw e b)
          (push-Holds vt sb h c (omega (arith, ap length e, length-append (h ++ c) (concat cs))) v))

  cap-push_all : (sb : Scrollback Screen) (chunks : List Text) → (push_all sb chunks).cap ≡ sb.cap
  unfolding push_all push
  cap-push_all sb [] = refl
  cap-push_all sb (c ∷ cs) = cap-push_all (push vt sb c) cs

  -- A client attaches with any offset when the shell has written `h`, takes what the cut sends and
  -- the chunks `got` that follow, and misses the chunks `missed` that come after it has gone. If the
  -- ring still holds those, then the position that the client has counted up (the base of its
  -- attachment and the bytes since) resumes it with exactly the missed bytes.
  pub reconnect :
      (sb : Scrollback Screen) (h : Text) (offset : Option ℕ) (got missed : List Text)
      → Holds vt sb h
      → length (h ++ concat (got ++ missed)) < 2 ^ 64
      → length (concat missed) ≤ sb.cap
      → let (mode, base, bytes) = cut sb offset in
        let position = base + length bytes + length (concat got) in
        cut (push_all sb (got ++ missed)) (some position) ≡ (resume, position, concat missed)
  reconnect sb h offset got missed v b small =
      let k = cut-Continues vt sb h offset v in
      let seen : Text = h ++ concat got in
      let e : h ++ concat (got ++ missed) ≡ seen ++ concat missed =
        ap (◌++◌ h) (concat-append got missed)
        ∙ sym (append_assoc h (concat got) (concat missed)) in
      let held = push_all-Holds sb h (got ++ missed) b v in
      let position : length seen
          ≡ (cut sb offset).1 + length (cut sb offset).2 + length (concat got) =
        omega (
          arith,
          length-append h (concat got),
          ap length k.rest,
          length-append (take (cut sb offset).1 h) (cut sb offset).2,
          length-take (cut sb offset).1 h,
          k.within,
        ) in
      rw (← position) (
        cut_missed vt (push_all sb (got ++ missed)) seen (concat missed)
          (subst (Holds vt (push_all sb (got ++ missed))) e held)
          (rw (cap-push_all sb (got ++ missed)) small))
