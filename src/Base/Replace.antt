-- ===== src/Base/Replace.antt =====
-- `starts_with` and `replace` of the standard library.
use Prim.Native.Nat.{ℕ, zero, suc, ◌-◌}
use mathlib.Core.Bool.{Bool, true, false, ◌&&◌}
use mathlib.Core.List.{[], ◌∷◌, ◌++◌}
use webshell.Base.Equality.{Text}
use webshell.Base.Tests.{◌==◌}
use webshell.Base.Lists.{length}

-- `text.starts_with(pattern)`
unfoldable pub starts_with : Text → Text → Bool
starts_with [] text = true
starts_with (p ∷ ps) [] = false
starts_with (p ∷ ps) (c ∷ cs) = p == c && starts_with ps cs

-- The rest of the text, of which the first characters still belong to the last match.
replace_from : Text → Text → ℕ → Text → Text
replace_from pattern to skipped [] = []
replace_from pattern to (suc n) (c ∷ cs) = replace_from pattern to n cs
replace_from pattern to zero (c ∷ cs) = elim (starts_with pattern (c ∷ cs)) [
  | true ↦ to ++ replace_from pattern to (length pattern - 1) cs
  | false ↦ c ∷ replace_from pattern to 0 cs
]

-- `text.replace(pattern, to)`, for a pattern that is not empty
unfoldable pub replace : Text → Text → Text → Text
unfolding replace_from
replace pattern to text = replace_from pattern to 0 text
