-- ===== src/Base/Order.antt =====
-- The byte order of Go strings, and sort.Slice by a key, as an insertion sort.
use mathlib.Core.Bool.{Bool, true, false, ◌&&◌, ◌||◌}
use mathlib.Core.List.{List, [], ◌∷◌}
use mathlib.Core.Path.{◌≡◌, refl}
use native.Mathlib.Omega.{arith}
use Prim.Native.Nat.{suc}
use llm_metrics_exporter.Base.Lists.{Bytes, length}
use llm_metrics_exporter.Base.Tests.{ltb, ◌==◌, if◌then◌else◌, Bool-cases}
use mathlib.Core.Logic.{inl, inr}

unfoldable pub bytes_lt : Bytes → Bytes → Bool
bytes_lt xs [] = false
bytes_lt [] (y ∷ ys) = true
bytes_lt (x ∷ xs) (y ∷ ys) = ltb x y || (x == y && bytes_lt xs ys)

pub bytes_lt_asymm : (xs ys : Bytes) → bytes_lt xs ys ≡ true → bytes_lt ys xs ≡ false
unfolding bytes_lt
bytes_lt_asymm [] [] h = refl
bytes_lt_asymm [] (y ∷ ys) h = refl
bytes_lt_asymm (x ∷ xs) [] h = cc
bytes_lt_asymm (x ∷ xs) (y ∷ ys) h = ground (arith, bytes_lt_asymm xs ys)

module _ {ℓ} {A : Type ℓ} (by : A → Bytes) where
  unfoldable pub insert_by : A → List A → List A
  insert_by a [] = a ∷ []
  insert_by a (b ∷ bs) = if bytes_lt (by b) (by a) then b ∷ insert_by a bs else a ∷ b ∷ bs

  unfoldable pub sort_by : List A → List A
  sort_by [] = []
  sort_by (a ∷ as') = insert_by a (sort_by as')

  -- No element is before its predecessor.
  abbrev pub Ordered : List A → Type 0
  Ordered [] = Unit
  Ordered (a ∷ []) = Unit
  Ordered (a ∷ b ∷ bs) = (bytes_lt (by b) (by a) ≡ false) × Ordered (b ∷ bs)

  insert_by-Ordered : (a : A) (bs : List A) → Ordered bs → Ordered (insert_by a bs)
  unfolding insert_by
  insert_by-Ordered a [] h = tt
  insert_by-Ordered a (b ∷ []) h = elim (Bool-cases (bytes_lt (by b) (by a))) [
    | inl lt ↦ rw lt (bytes_lt_asymm (by b) (by a) lt, tt)
    | inr ge ↦ rw ge (ge, tt)
  ]
  insert_by-Ordered a (b ∷ c ∷ bs) h = elim (Bool-cases (bytes_lt (by b) (by a))) [
    | inr ge ↦ rw ge (ge, h)
    | inl lt ↦ elim (Bool-cases (bytes_lt (by c) (by a))) [
      | inl lt' ↦ let rest = insert_by-Ordered a (c ∷ bs) h.1 in rw (lt, lt') (h.0, rw lt' at rest)
      | inr ge' ↦ rw (lt, ge') (bytes_lt_asymm (by b) (by a) lt, (ge', h.1))
    ]
  ]

  pub sort_by-Ordered : (as' : List A) → Ordered (sort_by as')
  unfolding sort_by
  sort_by-Ordered [] = tt
  sort_by-Ordered (a ∷ as') = insert_by-Ordered a (sort_by as') (sort_by-Ordered as')

  pub length-insert_by : (a : A) (bs : List A) → length (insert_by a bs) ≡ suc (length bs)
  unfolding insert_by
  length-insert_by a [] = refl
  length-insert_by a (b ∷ bs) = ground (arith, length-insert_by a bs)

  pub length-sort_by : (as' : List A) → length (sort_by as') ≡ length as'
  unfolding sort_by
  length-sort_by [] = refl
  length-sort_by (a ∷ as') = ground (arith, length-insert_by a (sort_by as'), length-sort_by as')
