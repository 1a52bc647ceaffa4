-- ===== src/Modes/Ordered.antt =====
-- The ordered set of mouse modes as an ascending list.
use webshell.Base.{ℕ, suc, ◌≤◌, ◌<◌, ◌≡◌, refl, ◌++◌, List, [], ◌∷◌, arith}
use webshell.Modes.{set_insert, set_remove}

abbrev pub Ascending : ℕ → List ℕ → Type 0
Ascending lo [] = Unit
Ascending lo (n ∷ ns) = (lo ≤ n) × Ascending (suc n) ns

abbrev pub Below : ℕ → List ℕ → Type 0
Below hi [] = Unit
Below hi (n ∷ ns) = (n < hi) × Below hi ns

Ascending-weaken : (lo hi : ℕ) (ns : List ℕ) → lo ≤ hi → Ascending hi ns → Ascending lo ns
Ascending-weaken lo hi [] h a = tt
Ascending-weaken lo hi (n ∷ ns) h a = (omega arith, a.1)

pub Ascending-insert :
    (lo n : ℕ) (ns : List ℕ) → lo ≤ n → Ascending lo ns → Ascending lo (set_insert n ns)
unfolding set_insert
Ascending-insert lo n [] h a = (h, tt)
Ascending-insert lo n (m ∷ ms) h a = ground (arith, Ascending-insert (suc m) n ms)

pub Ascending-remove : (lo n : ℕ) (ns : List ℕ) → Ascending lo ns → Ascending lo (set_remove n ns)
unfolding set_remove
Ascending-remove lo n [] a = tt
Ascending-remove lo n (m ∷ ms) a =
    ground (arith, Ascending-remove (suc m) n ms a.1, Ascending-weaken lo (suc m) (set_remove n ms))

-- A new greatest element goes to the end.
pub insert_above : (n : ℕ) (ns : List ℕ) → Below n ns → set_insert n ns ≡ ns ++ (n ∷ [])
unfolding set_insert
insert_above n [] b = refl
insert_above n (m ∷ ms) b = ground (arith, insert_above n ms b.1)

pub Below-snoc : (lo n : ℕ) (ns : List ℕ) → lo ≤ n → Below lo ns → Below (suc n) (ns ++ (n ∷ []))
Below-snoc lo n [] h b = (omega arith, tt)
Below-snoc lo n (m ∷ ms) h b = (omega arith, Below-snoc lo n ms h b.1)

pub Below-weaken : (lo hi : ℕ) (ns : List ℕ) → lo ≤ hi → Below lo ns → Below hi ns
Below-weaken lo hi [] h b = tt
Below-weaken lo hi (n ∷ ns) h b = (omega arith, Below-weaken lo hi ns h b.1)
