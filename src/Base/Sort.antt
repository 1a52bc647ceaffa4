-- ===== src/Base/Sort.antt =====
-- `slice::sort_by`: stable insertion sort, where `le a b` says that `a` may stay before `b`.
use Prim.Native.Nat.{suc}
use mathlib.Core.Path.{◌≡◌, refl, ap, ◌∙◌}
use mathlib.Core.Logic.{inl, inr}
use mathlib.Core.Bool.{Bool, true, false}
use mathlib.Core.List.{List, [], ◌∷◌}
use native.Mathlib.Omega.{arith}
use webshell.Base.Tests.{if◌then◌else◌, Bool-cases, ltb}
use webshell.Base.Lists.{All, any_of, length}
use webshell.Base.Equality.{Text}

-- `Ord::cmp` of two texts: `a` is not after `b`.
unfoldable pub text_le : Text → Text → Bool
text_le [] b = true
text_le (x ∷ xs) [] = false
text_le (x ∷ xs) (y ∷ ys) =
    let rest = text_le xs ys in if ltb x y then true else if ltb y x then false else rest

module _ {ℓ} {A : Type ℓ} (le : A → A → Bool) where
  unfoldable pub insert_sorted : A → List A → List A
  insert_sorted a [] = a ∷ []
  insert_sorted a (b ∷ xs) =
      let rest = insert_sorted a xs in if le a b then a ∷ b ∷ xs else b ∷ rest

  unfoldable pub sort_by : List A → List A
  unfolding insert_sorted
  sort_by [] = []
  sort_by (a ∷ xs) = insert_sorted a (sort_by xs)

  All-insert_sorted :
      (P : A → Type 0) (a : A) (xs : List A) → P a → All P xs → All P (insert_sorted a xs)
  unfolding insert_sorted
  All-insert_sorted P a [] h hs = (h, tt)
  All-insert_sorted P a (b ∷ xs) h hs = elim (Bool-cases (le a b)) [
    | inl first ↦ rw first (h, hs)
    | inr later ↦ rw later (hs.0, All-insert_sorted P a xs h hs.1)
  ]

  -- Sorting keeps what holds of every element.
  pub All-sort_by : (P : A → Type 0) (xs : List A) → All P xs → All P (sort_by xs)
  unfolding sort_by
  All-sort_by P [] h = tt
  All-sort_by P (a ∷ xs) h = All-insert_sorted P a (sort_by xs) h.0 (All-sort_by P xs h.1)

  pub any-insert_sorted :
      (p : A → Bool) (a : A) (xs : List A) → any_of p (insert_sorted a xs) ≡ any_of p (a ∷ xs)
  unfolding insert_sorted
  any-insert_sorted p a [] = refl
  any-insert_sorted p a (b ∷ xs) = ground (arith, any-insert_sorted p a xs)

  -- Sorting neither drops nor adds elements.
  pub any-sort_by : (p : A → Bool) (xs : List A) → any_of p (sort_by xs) ≡ any_of p xs
  unfolding sort_by
  any-sort_by p [] = refl
  any-sort_by p (a ∷ xs) = ground (arith, any-insert_sorted p a (sort_by xs), any-sort_by p xs)

  length-insert_sorted : (a : A) (xs : List A) → length (insert_sorted a xs) ≡ suc (length xs)
  unfolding insert_sorted
  length-insert_sorted a [] = refl
  length-insert_sorted a (b ∷ xs) = ground (arith, length-insert_sorted a xs)

  pub length-sort_by : (xs : List A) → length (sort_by xs) ≡ length xs
  unfolding sort_by
  length-sort_by [] = refl
  length-sort_by (a ∷ xs) = length-insert_sorted a (sort_by xs) ∙ ap suc (length-sort_by xs)
