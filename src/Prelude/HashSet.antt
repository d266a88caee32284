-- ===== src/Prelude/HashSet.antt =====
-- `std::collections::HashSet` of hashes.
use Prim.Native.Nat.{ℕ}
use mathlib.Core.Path.{◌≡◌, ap}
use mathlib.Core.Bool.{◌||◌}
use mathlib.Core.List.{List, ◌∷◌}
use native.Mathlib.Omega.{arith}
use kx_reth.Prelude.Tests.{◌==◌, if◌then◌else◌}
use kx_reth.Prelude.Lists.{contains}

abbrev pub HashSet : Type 0
HashSet = List ℕ

unfoldable pub insert : ℕ → HashSet → HashSet
insert a s = if contains a s then s else a ∷ s

pub contains-insert : (a b : ℕ) (s : HashSet) → contains b (insert a s) ≡ ((b == a) || contains b s)
unfolding insert
contains-insert a b s = ground (arith, ap (λ c. contains c s))
