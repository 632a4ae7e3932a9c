-- ===== src/Base/Handles.antt =====
-- The numbers of the files and descriptors that are open.
use Prim.Native.Nat.{ℕ, ◌<◌}
use mathlib.Core.Path.{◌≡◌, refl}
use mathlib.Core.List.{List, [], ◌∷◌}
use native.Mathlib.Omega.{arith}
use metassh.Base.Tests.{◌==◌, if◌then◌else◌}
use metassh.Base.Lists.{All}

unfoldable pub without : ℕ → List ℕ → List ℕ
without f [] = []
without f (g ∷ fs) = if f == g then without f fs else g ∷ without f fs

pub without-fresh : (f : ℕ) (fs : List ℕ) → All (λ g. g < f) fs → without f fs ≡ fs
unfolding without
without-fresh f [] h = refl
without-fresh f (g ∷ fs) (h, hs) = ground (arith, without-fresh f fs hs)
