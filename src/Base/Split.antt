-- ===== src/Base/Split.antt =====
-- Go's `strings.Split` at one byte.
use Prim.Native.Nat.{ℕ}
use mathlib.Core.List.{List, [], ◌∷◌}
use jacred_go.Base.Strings.{Str}
use jacred_go.Base.Tests.{◌==◌, if◌then◌else◌}

abbrev cons_head : ℕ → List Str → List Str
cons_head c [] = (c ∷ []) ∷ []
cons_head c (w ∷ ws) = (c ∷ w) ∷ ws

-- `strings.Split` at a byte.
unfoldable pub split_at : ℕ → Str → List Str
split_at sep [] = [] ∷ []
split_at sep (c ∷ s) = let rest = split_at sep s in if c == sep then [] ∷ rest else cons_head c rest
