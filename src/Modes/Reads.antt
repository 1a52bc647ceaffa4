-- ===== src/Modes/Reads.antt =====
-- How the scanner reads the sequences that `synth` writes: one DECSET each.
use webshell.Base.{
  ℕ, ◌≡◌, refl, ◌∙◌, ◌++◌, Bool, true, false, Option, none, some, List, [], ◌∷◌, append-nil,
  append_assoc, arith, All, Text, ap, ◌⊎◌, inl, inr, suc, sym, ◌≡⟨◌⟩◌, ◌∎,
}
use webshell.Base.Strings.{parse_uint, split, to_decimal}
use webshell.Modes.Ordered.{Ascending, Below, insert_above, Below-snoc, Below-weaken}
use webshell.Modes.{
  Scan, ModeTracker, set_insert, is_mouse_mode, is_alt_mode, set_mode, set_params, dispatch_params,
  dispatch, scan, feed, decset, decsets, decset_if, decset_alt, decrst, decrst_if,
}

abbrev pub at_ground : ModeTracker → ModeTracker
at_ground t = record t { st = Scan.ground }

-- The scanner takes `decset n` for the mode `n`.
abbrev Reads : ℕ → Type 0
Reads n =
    (t : ModeTracker) (rest : Text)
    → feed (at_ground t) (decset n ++ rest) ≡ feed (at_ground (set_mode true t n)) rest

flags : Reads 1 × Reads 2004
unfolding feed scan dispatch dispatch_params set_params set_mode decset to_decimal split parse_uint
    is_alt_mode is_mouse_mode
flags = (λ t rest. refl, λ t rest. refl)

hiding :
    (t : ModeTracker) (rest : Text)
    → feed (at_ground t) (decrst 25 ++ rest)
      ≡ feed (at_ground (record t { cursor_hidden = true })) rest
unfolding feed scan dispatch dispatch_params set_params set_mode decrst to_decimal split parse_uint
hiding t rest = refl

screens : Reads 47 × Reads 1047 × Reads 1049
unfolding feed scan dispatch dispatch_params set_params set_mode decset to_decimal split parse_uint
    is_alt_mode is_mouse_mode
screens = (λ t rest. refl, λ t rest. refl, λ t rest. refl)

trackings : Reads 9 × Reads 1000 × Reads 1001 × Reads 1002 × Reads 1003
unfolding feed scan dispatch dispatch_params set_params set_mode decset to_decimal split parse_uint
    is_alt_mode is_mouse_mode
trackings = (λ t rest. refl, λ t rest. refl, λ t rest. refl, λ t rest. refl, λ t rest. refl)

encodings : Reads 1005 × Reads 1006 × Reads 1015 × Reads 1016
unfolding feed scan dispatch dispatch_params set_params set_mode decset to_decimal split parse_uint
    is_alt_mode is_mouse_mode
encodings = (λ t rest. refl, λ t rest. refl, λ t rest. refl, λ t rest. refl)

is_mouse_mode_cases :
    (n : ℕ)
    → is_mouse_mode n ≡ true
    → (n ≡ 9)
      ⊎ (n ≡ 1000)
      ⊎ (n ≡ 1001)
      ⊎ (n ≡ 1002)
      ⊎ (n ≡ 1003)
      ⊎ (n ≡ 1005)
      ⊎ (n ≡ 1006)
      ⊎ (n ≡ 1015)
      ⊎ (n ≡ 1016)
unfolding is_mouse_mode
is_mouse_mode_cases n h = ground arith

Reads-mouse : (n : ℕ) → is_mouse_mode n ≡ true → Reads n
Reads-mouse n h = elim (is_mouse_mode_cases n h) [
  | inl e ↦ rw e trackings.0
  | inr (inl e) ↦ rw e trackings.1
  | inr (inr (inl e)) ↦ rw e trackings.2
  | inr (inr (inr (inl e))) ↦ rw e trackings.3
  | inr (inr (inr (inr (inl e)))) ↦ rw e trackings.4
  | inr (inr (inr (inr (inr (inl e))))) ↦ rw e encodings.0
  | inr (inr (inr (inr (inr (inr (inl e)))))) ↦ rw e encodings.1
  | inr (inr (inr (inr (inr (inr (inr (inl e))))))) ↦ rw e encodings.2
  | inr (inr (inr (inr (inr (inr (inr (inr e))))))) ↦ rw e encodings.3
]

is_alt_mode_cases : (n : ℕ) → is_alt_mode n ≡ true → (n ≡ 47) ⊎ (n ≡ 1047) ⊎ (n ≡ 1049)
unfolding is_alt_mode
is_alt_mode_cases n h = ground arith

Reads-alt : (n : ℕ) → is_alt_mode n ≡ true → Reads n
Reads-alt n h = elim (is_alt_mode_cases n h) [
  | inl e ↦ rw e screens.0
  | inr (inl e) ↦ rw e screens.1
  | inr (inr e) ↦ rw e screens.2
]

set_mode-mouse :
    (t : ModeTracker) (n : ℕ)
    → is_mouse_mode n ≡ true
    → set_mode true t n ≡ record t { mouse = set_insert n t.mouse }
unfolding set_mode is_mouse_mode is_alt_mode
set_mode-mouse t n h = ground arith

set_mode-alt :
    (t : ModeTracker) (n : ℕ)
    → is_alt_mode n ≡ true
    → set_mode true t n ≡ record t { alt_screen = some n }
unfolding set_mode is_alt_mode
set_mode-alt t n h = ground arith

-- The part of `synth` for each field, read by a tracker that has the default there.
pub feed-decset_alt :
    (t : ModeTracker) (rest : Text)
    → t.alt_screen ≡ none
    → (a : Option ℕ) → ((n : ℕ) → a ≡ some n → is_alt_mode n ≡ true)
    → feed (at_ground t) (decset_alt a ++ rest)
      ≡ feed (at_ground (record t { alt_screen = a })) rest
unfolding decset_alt
feed-decset_alt t rest d none known =
    ap (λ a. feed (at_ground (record t { alt_screen = a })) rest) d
feed-decset_alt t rest d (some n) known =
    Reads-alt n (known n refl) t rest
    ∙ ap (λ u. feed (at_ground u) rest) (set_mode-alt t n (known n refl))

pub feed-decset_if-app :
    (t : ModeTracker) (rest : Text) (on : Bool)
    → t.app_cursor ≡ false
    → feed (at_ground t) (decset_if on 1 ++ rest)
      ≡ feed (at_ground (record t { app_cursor = on })) rest
unfolding decset_if
feed-decset_if-app t rest true d = flags.0 t rest ∙ unfold set_mode in refl
feed-decset_if-app t rest false d = ap (λ a. feed (at_ground (record t { app_cursor = a })) rest) d

pub feed-decset_if-paste :
    (t : ModeTracker) (rest : Text) (on : Bool)
    → t.bracketed_paste ≡ false
    → feed (at_ground t) (decset_if on 2004 ++ rest)
      ≡ feed (at_ground (record t { bracketed_paste = on })) rest
unfolding decset_if
feed-decset_if-paste t rest true d = flags.1 t rest ∙ unfold set_mode is_alt_mode in refl
feed-decset_if-paste t rest false d =
    ap (λ a. feed (at_ground (record t { bracketed_paste = a })) rest) d

pub feed-decrst_if-hidden :
    (t : ModeTracker) (rest : Text) (on : Bool)
    → t.cursor_hidden ≡ false
    → feed (at_ground t) (decrst_if on 25 ++ rest)
      ≡ feed (at_ground (record t { cursor_hidden = on })) rest
unfolding decrst_if
feed-decrst_if-hidden t rest true d = hiding t rest
feed-decrst_if-hidden t rest false d =
    ap (λ a. feed (at_ground (record t { cursor_hidden = a })) rest) d

pub feed-decsets :
    (t : ModeTracker) (rest : Text) (lo : ℕ) (ns : List ℕ)
    → Below lo t.mouse
    → Ascending lo ns
    → All (λ n. is_mouse_mode n ≡ true) ns
    → feed (at_ground t) (decsets ns ++ rest)
      ≡ feed (at_ground (record t { mouse = t.mouse ++ ns })) rest
unfolding decsets
feed-decsets t rest lo [] b a k =
    ap (λ m. feed (at_ground (record t { mouse = m })) rest) (sym (append-nil t.mouse))
feed-decsets t rest lo (n ∷ ns) b a k =
    feed (at_ground t) (decsets (n ∷ ns) ++ rest)
    ≡⟨ ap (feed (at_ground t)) (append_assoc (decset n) (decsets ns) rest) ⟩
      feed (at_ground t) (decset n ++ (decsets ns ++ rest))
    ≡⟨ Reads-mouse n k.0 t (decsets ns ++ rest) ⟩
      feed (at_ground (set_mode true t n)) (decsets ns ++ rest)
    ≡⟨ ap (λ u. feed (at_ground u) (decsets ns ++ rest)) step ⟩
      feed (at_ground (record t { mouse = t.mouse ++ (n ∷ []) })) (decsets ns ++ rest)
    ≡⟨ feed-decsets (record t { mouse = t.mouse ++ (n ∷ []) }) rest (suc n) ns
        (Below-snoc lo n t.mouse a.0 b) a.1 k.1 ⟩
      feed (at_ground (record t { mouse = (t.mouse ++ (n ∷ [])) ++ ns })) rest
    ≡⟨ ap (λ m. feed (at_ground (record t { mouse = m })) rest) (append_assoc t.mouse (n ∷ []) ns) ⟩
      feed (at_ground (record t { mouse = t.mouse ++ (n ∷ ns) })) rest ∎
  where
    step : set_mode true t n ≡ record t { mouse = t.mouse ++ (n ∷ []) }
    step =
        set_mode-mouse t n k.0
        ∙ ap (λ m. record t { mouse = m })
            (insert_above n t.mouse (Below-weaken lo n t.mouse a.0 b))
