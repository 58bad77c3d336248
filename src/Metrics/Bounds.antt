-- ===== src/Metrics/Bounds.antt =====
-- validateHist of internal/metrics/metrics.go: what the walk over the sorted bounds accepts.
use mathlib.Core.Bool.{false≢true}
use llm_metrics_exporter.Base.{
  ◌≡◌, ◌↔◌, ◌⊎◌, inl, inr, sym, ◌∙◌, true, false, List, [], ◌∷◌, arith, Bool-cases,
}
use llm_metrics_exporter.Base.Floats.{Floats}
use llm_metrics_exporter.Metrics.{before, insert_bound, sort_bounds}

-- A member of a list.
abbrev pub In : {A : Type 0} → A → List A → Type 0
In x [] = ⊥
In x (y ∷ ys) = (y ≡ x) ⊎ In x ys

-- The comparisons of IEEE 754: a NaN is neither below nor equal to anything, and the numbers are in
-- a total order.
pub record IsOrder (fl : Floats) : Type 0 where
  pub lt_numbers : (x y : fl.F) → fl.lt x y ≡ true → (fl.is_nan x ≡ false) × (fl.is_nan y ≡ false)
  pub eq_numbers : (x y : fl.F) → fl.eq x y ≡ true → (fl.is_nan x ≡ false) × (fl.is_nan y ≡ false)
  pub lt_asymm : (x y : fl.F) → fl.lt x y ≡ true → fl.lt y x ≡ false
  pub lt_between :
      (x y z : fl.F)
      → fl.is_nan y ≡ false
      → fl.lt x z ≡ true
      → (fl.lt x y ≡ true) ⊎ (fl.lt y z ≡ true)
  pub lt_total :
      (x y : fl.F)
      → fl.is_nan x ≡ false
      → fl.is_nan y ≡ false
      → fl.lt x y ≡ false
      → fl.lt y x ≡ false
      → fl.eq x y ≡ true
  pub eq_self : (x : fl.F) → fl.is_nan x ≡ false → fl.eq x x ≡ true
  pub eq_same : (x y z : fl.F) → fl.eq x y ≡ true → fl.eq z x ≡ fl.eq z y

module _ (fl : Floats) (laws : IsOrder fl) where
  open fl use {F, lt, eq, is_nan}

  -- No element of a list is before an earlier one.
  abbrev pub NoneBefore : F → List F → Type 0
  NoneBefore b [] = Unit
  NoneBefore b (c ∷ cs) = (before fl c b ≡ false) × NoneBefore b cs

  abbrev pub Arranged : List F → Type 0
  Arranged [] = Unit
  Arranged (b ∷ bs) = NoneBefore b bs × Arranged bs

  before_asymm : (x y : F) → before fl x y ≡ true → before fl y x ≡ false
  unfolding before
  before_asymm x y h = ground (arith, laws.lt_asymm x y, laws.lt_numbers x y, laws.lt_numbers y x)

  before_between :
      (x y z : F) → before fl x z ≡ true → (before fl x y ≡ true) ⊎ (before fl y z ≡ true)
  unfolding before
  before_between x y z h = elim (Bool-cases (is_nan y)) [
    | inl nan ↦ elim (Bool-cases (is_nan z)) [
      | inl nan' ↦ absurd (ground (arith, h, nan', laws.lt_numbers x z))
      | inr num ↦ inr (ground (arith, nan, num))
    ]
    | inr num ↦ elim (Bool-cases (lt x z)) [
      | inl l ↦ elim (laws.lt_between x y z num l) [
        | inl a ↦ inl (ground (arith, a))
        | inr b ↦ inr (ground (arith, b))
      ]
      | inr n ↦ inl (ground (arith, h, n, num))
    ]
  ]

  NoneBefore-weaken :
      (b c : F) (cs : List F) → before fl c b ≡ false → NoneBefore c cs → NoneBefore b cs
  NoneBefore-weaken b c [] h k = tt
  NoneBefore-weaken b c (d ∷ ds) h k = (
    elim (Bool-cases (before fl d b)) [
      | inr f ↦ f
      | inl t ↦ elim (before_between d c b t) [
        | inl x ↦ absurd (false≢true (sym k.0 ∙ x))
        | inr y ↦ absurd (false≢true (sym h ∙ y))
      ]
    ],
    NoneBefore-weaken b c ds h k.1,
  )

  NoneBefore-insert :
      (b c : F) (cs : List F)
      → before fl c b ≡ false
      → NoneBefore b cs
      → NoneBefore b (insert_bound fl c cs)
  unfolding insert_bound
  NoneBefore-insert b c [] h k = (h, tt)
  NoneBefore-insert b c (d ∷ ds) h k = elim (Bool-cases (before fl d c)) [
    | inl t ↦ rw t (k.0, NoneBefore-insert b c ds h k.1)
    | inr f ↦ rw f (h, k)
  ]

  insert_bound-Arranged : (b : F) (bs : List F) → Arranged bs → Arranged (insert_bound fl b bs)
  unfolding insert_bound
  insert_bound-Arranged b [] h = (tt, tt)
  insert_bound-Arranged b (c ∷ cs) h = elim (Bool-cases (before fl c b)) [
    | inl t ↦
        rw t (NoneBefore-insert c b cs (before_asymm c b t) h.0, insert_bound-Arranged b cs h.1)
    | inr f ↦ rw f ((f, NoneBefore-weaken b c cs f h.0), h)
  ]

  pub sort_bounds-Arranged : (bs : List F) → Arranged (sort_bounds fl bs)
  unfolding sort_bounds
  sort_bounds-Arranged [] = tt
  sort_bounds-Arranged (b ∷ bs) = insert_bound-Arranged b _ (sort_bounds-Arranged bs)

  In-insert_bound : (x b : F) (bs : List F) → In x (insert_bound fl b bs) ↔ In x (b ∷ bs)
  unfolding insert_bound
  In-insert_bound x b [] = (λ h. h, λ h. h)
  In-insert_bound x b (c ∷ cs) = elim (Bool-cases (before fl c b)) [
    | inr f ↦ rw f (λ h. h, λ h. h)
    | inl t ↦ rw t (
      λ h. elim h [
        | inl e ↦ inr (inl e)
        | inr m ↦ elim ((In-insert_bound x b cs).0 m) [ inl e ↦ inl e | inr k ↦ inr (inr k) ]
      ],
      λ h. elim h [
        | inl e ↦ inr ((In-insert_bound x b cs).1 (inl e))
        | inr k ↦ elim k [ inl e ↦ inl e | inr m ↦ inr ((In-insert_bound x b cs).1 (inr m)) ]
      ],
    )
  ]

  pub In-sort_bounds : (x : F) (bs : List F) → In x (sort_bounds fl bs) ↔ In x bs
  unfolding sort_bounds
  In-sort_bounds x [] = (λ h. h, λ h. h)
  In-sort_bounds x (b ∷ bs) = (
    λ h. elim ((In-insert_bound x b _).0 h) [
      | inl e ↦ inl e
      | inr m ↦ inr ((In-sort_bounds x bs).0 m)
    ],
    λ h.
        (In-insert_bound x b _).1
          (elim h [ inl e ↦ inl e | inr m ↦ inr ((In-sort_bounds x bs).1 m) ]),
  )
