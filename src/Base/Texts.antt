-- ===== src/Base/Texts.antt =====
-- Texts as lists of bytes, compared by `strcmp`.
use Prim.Native.Nat.{ℕ}
use mathlib.Core.Path.{◌≡◌, refl}
use mathlib.Core.Bool.{Bool, true, false, ◌&&◌}
use mathlib.Core.List.{List, [], ◌∷◌}
use native.Mathlib.Omega.{arith}
use napastak.Base.Tests.{◌==◌}

-- `strcmp` gives 0.
abbrev pub same : List ℕ → List ℕ → Bool
same [] [] = true
same [] (b ∷ bs) = false
same (a ∷ s) [] = false
same (a ∷ s) (b ∷ bs) = a == b && same s bs

pub same_refl : (s : List ℕ) → same s s ≡ true
same_refl [] = refl
same_refl (a ∷ s) = ground (arith, same_refl s)
