-- ===== src/Prelude/HashMap.antt =====
-- `std::collections::HashMap` with hash keys, as an association list with distinct keys. The code
-- never iterates over a map, so the order of the entries is not observable.
use Prim.Native.Nat.{ℕ, suc}
use mathlib.Core.Path.{◌≡◌, refl}
use mathlib.Core.Option.{Option, none, some}
use mathlib.Core.List.{List, [], ◌∷◌}
use native.Mathlib.Omega.{arith}
use kx_reth.Prelude.Tests.{◌==◌, ==_iff, ==_self, if◌then◌else◌}
use kx_reth.Prelude.Lists.{length}

abbrev pub HashMap {ℓ} : Type ℓ → Type ℓ
HashMap V = List (ℕ × V)

module _ {ℓ} {V : Type ℓ} where
  abbrev pub empty : HashMap V
  empty = []

  unfoldable pub get : ℕ → HashMap V → Option V
  get k [] = none
  get k ((j, v) ∷ m) = if j == k then some v else get k m

  unfoldable pub remove : ℕ → HashMap V → HashMap V
  remove k [] = []
  remove k ((j, v) ∷ m) = if j == k then remove k m else (j, v) ∷ remove k m

  unfoldable pub insert : ℕ → V → HashMap V → HashMap V
  unfolding remove
  insert k v m = (k, v) ∷ remove k m

  -- No key is listed twice.
  abbrev pub IsDistinct : HashMap V → Type ℓ
  IsDistinct [] = Unit
  IsDistinct ((k, v) ∷ m) = (get k m ≡ none) × IsDistinct m

  pub get-remove :
      (k j : ℕ) (m : HashMap V) → get j (remove k m) ≡ (if k == j then none else get j m)
  unfolding get remove
  get-remove k j [] = ground arith
  get-remove k j ((i, v) ∷ m) = ground (arith, get-remove k j m)

  pub get-insert :
      (k j : ℕ) (v : V) (m : HashMap V)
      → get j (insert k v m) ≡ (if k == j then some v else get j m)
  unfolding get insert
  get-insert k j v m = ground (arith, get-remove k j m)

  get-remove_self : (k : ℕ) (m : HashMap V) → get k (remove k m) ≡ none
  get-remove_self k m = rw (get-remove, ==_self)

  get-remove_missing : (k j : ℕ) (m : HashMap V) → get j m ≡ none → get j (remove k m) ≡ none
  unfolding get remove
  get-remove_missing k j [] h = refl
  get-remove_missing k j ((i, v) ∷ m) h = ground (arith, get-remove_missing k j m)

  pub remove-IsDistinct : (k : ℕ) (m : HashMap V) → IsDistinct m → IsDistinct (remove k m)
  unfolding remove
  remove-IsDistinct k [] h = tt
  remove-IsDistinct k ((i, v) ∷ m) h =
      ground (arith, remove-IsDistinct k m h.1, get-remove_missing k i m)

  pub insert-IsDistinct : (k : ℕ) (v : V) (m : HashMap V) → IsDistinct m → IsDistinct (insert k v m)
  unfolding insert
  insert-IsDistinct k v m h = (get-remove_self k m, remove-IsDistinct k m h)

  pub length-remove_absent :
      (k : ℕ) (m : HashMap V) → get k m ≡ none → length (remove k m) ≡ length m
  unfolding get remove
  length-remove_absent k [] h = refl
  length-remove_absent k ((i, v) ∷ m) h = ground (arith, length-remove_absent k m)

  -- Removing a key that is there takes one entry away.
  pub length-remove_present :
      (k : ℕ) (v : V) (m : HashMap V)
      → IsDistinct m
      → get k m ≡ some v
      → suc (length (remove k m)) ≡ length m
  unfolding get remove
  length-remove_present k v [] d h = cc
  length-remove_present k v ((i, w) ∷ m) d h =
      ground (arith, length-remove_present k v m d.1, length-remove_absent i m d.0, ==_iff i k)

pub ruleset map_laws = (get-remove, get-insert)
