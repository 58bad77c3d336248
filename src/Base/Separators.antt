-- ===== src/Base/Separators.antt =====
-- Byte strings that are taken apart at a separator, or at a length.
use mathlib.Core.List.{[], ◌∷◌, ◌++◌}
use mathlib.Core.Logic.{◌≢◌}
use mathlib.Core.Path.{◌≡◌, refl, sym}
use native.Mathlib.Omega.{arith}
use Prim.Native.Nat.{ℕ}
use llm_metrics_exporter.Base.Lists.{Bytes, length}

-- No byte is `c`.
abbrev pub Free : ℕ → Bytes → Type 0
Free c [] = Unit
Free c (b ∷ bs) = (b ≢ c) × Free c bs

cons-eq {ℓ} :
    {A : Type ℓ} {x y : A} {xs ys : mathlib.Core.List.List A}
    → (x ∷ xs) ≡ (y ∷ ys)
    → (x ≡ y) × (xs ≡ ys)
cons-eq e = (cc, cc)

-- The first separator ends the same part on both sides.
pub eq-append_sep :
    (c : ℕ) (p q : Bytes) {r s : Bytes}
    → Free c p
    → Free c q
    → p ++ (c ∷ r) ≡ q ++ (c ∷ s)
    → (p ≡ q) × (r ≡ s)
eq-append_sep c [] [] hp hq e = (refl, (cons-eq e).1)
eq-append_sep c [] (y ∷ q) hp hq e = absurd (hq.0 (sym (cons-eq e).0))
eq-append_sep c (x ∷ p) [] hp hq e = absurd (hp.0 (cons-eq e).0)
eq-append_sep c (x ∷ p) (y ∷ q) hp hq e =
    let more = eq-append_sep c p q hp.1 hq.1 (cons-eq e).1 in (cc ((cons-eq e).0, more.0), more.1)

pub Free-ne-append_sep : (c : ℕ) (p q r : Bytes) → Free c p → p ≢ q ++ (c ∷ r)
Free-ne-append_sep c [] [] r h e = cc
Free-ne-append_sep c [] (y ∷ q) r h e = cc
Free-ne-append_sep c (x ∷ p) [] r h e = h.0 (cons-eq e).0
Free-ne-append_sep c (x ∷ p) (y ∷ q) r h e = Free-ne-append_sep c p q r h.1 (cons-eq e).1

pub eq-append_length :
    (p q : Bytes) {r s : Bytes} → length p ≡ length q → p ++ r ≡ q ++ s → (p ≡ q) × (r ≡ s)
eq-append_length [] [] h e = (refl, e)
eq-append_length [] (y ∷ q) h e = absurd (omega arith)
eq-append_length (x ∷ p) [] h e = absurd (omega arith)
eq-append_length (x ∷ p) (y ∷ q) h e =
    let more = eq-append_length p q (omega arith) (cons-eq e).1 in
    (cc ((cons-eq e).0, more.0), more.1)
