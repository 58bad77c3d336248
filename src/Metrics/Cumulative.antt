-- ===== src/Metrics/Cumulative.antt =====
-- validateHist of internal/metrics/metrics.go accepts the cumulative histograms.
use mathlib.Core.Bool.{false≢true}
use llm_metrics_exporter.Base.{
  ℕ, ◌≤◌, ◌≡◌, ◌↔◌, ◌⊎◌, inl, inr, refl, sym, ap, subst, ◌∙◌, true, false, List, [], ◌∷◌, arith,
  map, none, some, Bool-cases,
}
use llm_metrics_exporter.Base.Floats.{Floats}
use llm_metrics_exporter.Metrics.{Hist, before, sort_bounds, bucket, check_buckets, validate_hist}
use llm_metrics_exporter.Metrics.Bounds.{
  In, IsOrder, NoneBefore, Arranged, sort_bounds-Arranged, In-sort_bounds,
}

module _ (fl : Floats) where
  open fl use {F, lt, eq, is_nan}

  -- The keys of a Go map: no two are equal.
  abbrev pub Fresh : F → List (F × ℕ) → Type 0
  Fresh b [] = Unit
  Fresh b (p ∷ m) = (eq b p.0 ≡ false) × Fresh b m

  abbrev pub IsMap : List (F × ℕ) → Type 0
  IsMap [] = Unit
  IsMap (p ∷ m) = Fresh p.0 m × IsMap m

  -- A histogram that is cumulative: no bucket of a number is above the total, or above the bucket of
  -- a greater number. A bucket under NaN is never read.
  abbrev pub IsCumulative : Hist F → Type 0
  IsCumulative h =
      ((b : F) (n : ℕ) → In (b, n) h.buckets → is_nan b ≡ false → n ≤ h.count)
      × ((b c : F) (n m : ℕ) → In (b, n) h.buckets → In (c, m) h.buckets → lt b c ≡ true → n ≤ m)

module _ (fl : Floats) (laws : IsOrder fl) where
  open fl use {F, lt, eq, is_nan}

  bucket_nan : (m : List (F × ℕ)) (b : F) → is_nan b ≡ true → bucket fl m b ≡ 0
  unfolding bucket
  bucket_nan [] b h = refl
  bucket_nan ((c, n) ∷ m) b h = ground (arith, h, laws.eq_numbers c b, bucket_nan m b h)

  bucket_eq : (m : List (F × ℕ)) (b c : F) → eq b c ≡ true → bucket fl m b ≡ bucket fl m c
  unfolding bucket
  bucket_eq [] b c h = refl
  bucket_eq ((d, n) ∷ m) b c h = ground (arith, laws.eq_same b c d h, bucket_eq m b c h)

  Fresh-In : (b c : F) (n : ℕ) (m : List (F × ℕ)) → Fresh fl b m → In (c, n) m → eq b c ≡ false
  Fresh-In b c n [] h k = absurd k
  Fresh-In b c n (p ∷ m) h (inl e) = subst (λ q. eq b q.0 ≡ false) e h.0
  Fresh-In b c n (p ∷ m) h (inr k) = Fresh-In b c n m h.1 k

  -- A bound of the map reads as its count.
  bucket_of :
      (b : F) (n : ℕ) (m : List (F × ℕ))
      → IsMap fl m
      → is_nan b ≡ false
      → In (b, n) m
      → bucket fl m b ≡ n
  unfolding bucket
  bucket_of b n [] h num k = absurd k
  bucket_of b n (p ∷ m) h num (inl e) =
      rw (ap (λ q. eq q.0 b) e ∙ laws.eq_self b num, bucket) (ap (λ q. q.1) e)
  bucket_of b n (p ∷ m) h num (inr k) =
      rw (Fresh-In p.0 b n m h.0 k, bucket) (bucket_of b n m h.1 num k)

  key-In : (b : F) (n : ℕ) (m : List (F × ℕ)) → In (b, n) m → In b (map (λ p. p.0) m)
  key-In b n [] k = absurd k
  key-In b n (p ∷ m) (inl e) = inl (ap (λ q. q.0) e)
  key-In b n (p ∷ m) (inr k) = inr (key-In b n m k)

  In-key : (b : F) (m : List (F × ℕ)) → In b (map (λ p. p.0) m) → (n : ℕ) × In (b, n) m
  In-key b [] k = absurd k
  In-key b (p ∷ m) (inl e) = (p.1, inl (ap {B = F × ℕ} (λ x. (x, p.1)) e))
  In-key b (p ∷ m) (inr k) = let (n, i) = In-key b m k in (n, inr i)

  before_lt : (b c : F) → lt b c ≡ true → before fl b c ≡ true
  unfolding before
  before_lt b c h = ground (arith, h)

  not_before :
      (b c : F)
      → before fl c b ≡ false
      → (is_nan b ≡ true) ⊎ ((is_nan b ≡ false) × (is_nan c ≡ false) × (lt c b ≡ false))
  unfolding before
  not_before b c h = elim (Bool-cases (is_nan b)) [
    | inl t ↦ inl t
    | inr f ↦ inr (f, ground (arith, h, f), ground (arith, h))
  ]

  NoneBefore-In :
      (b c : F) (bs : List F) → NoneBefore fl laws b bs → In c bs → before fl c b ≡ false
  NoneBefore-In b c [] h k = absurd k
  NoneBefore-In b c (d ∷ ds) h (inl e) = subst (λ x. before fl x b ≡ false) e h.0
  NoneBefore-In b c (d ∷ ds) h (inr k) = NoneBefore-In b c ds h.1 k

  module _ (h : Hist F) where
    Step : ℕ → F → List F → Type 0
    Step prev b bs =
        (prev ≤ bucket fl h.buckets b)
        × (bucket fl h.buckets b ≤ h.count)
        × (check_buckets fl h (bucket fl h.buckets b) bs ≡ none)

    check-Step :
        (prev : ℕ) (b : F) (bs : List F)
        → (check_buckets fl h prev (b ∷ bs) ≡ none) ↔ Step prev b bs
    unfolding check_buckets Step
    check-Step prev b bs = ground arith

    walk_bounds :
        (prev : ℕ) (b : F) (bs : List F)
        → check_buckets fl h prev bs ≡ none
        → In b bs
        → (prev ≤ bucket fl h.buckets b) × (bucket fl h.buckets b ≤ h.count)
    unfolding Step
    walk_bounds prev b [] e k = absurd k
    walk_bounds prev b (d ∷ ds) e (inl q) =
        let s = (check-Step prev d ds).0 e in
        subst (λ x. (prev ≤ bucket fl h.buckets x) × (bucket fl h.buckets x ≤ h.count)) q (s.0, s.1)
    walk_bounds prev b (d ∷ ds) e (inr k) =
        let s = (check-Step prev d ds).0 e in
        let rest = walk_bounds (bucket fl h.buckets d) b ds s.2 k in
        (omega (arith, s.0, rest.0), rest.1)

    walk_rises :
        (prev : ℕ) (b c : F) (bs : List F)
        → Arranged fl laws bs
        → check_buckets fl h prev bs ≡ none
        → In b bs
        → In c bs
        → lt b c ≡ true
        → bucket fl h.buckets b ≤ bucket fl h.buckets c
    unfolding Step
    walk_rises prev b c [] a e i j l = absurd i
    walk_rises prev b c (d ∷ ds) a e (inl p) (inl q) l =
        omega (arith, ap (bucket fl h.buckets) (sym p ∙ q))
    walk_rises prev b c (d ∷ ds) a e (inl p) (inr j) l =
        let s = (check-Step prev d ds).0 e in
        omega
          (arith, ap (bucket fl h.buckets) p, (walk_bounds (bucket fl h.buckets d) c ds s.2 j).0)
    walk_rises prev b c (d ∷ ds) a e (inr i) (inl q) l =
        absurd
          (false≢true (sym (NoneBefore-In d b ds a.0 i) ∙ ap (before fl b) q ∙ before_lt b c l))
    walk_rises prev b c (d ∷ ds) a e (inr i) (inr j) l =
        walk_rises (bucket fl h.buckets d) b c ds a.1 ((check-Step prev d ds).0 e).2 i j l

    -- What the walk needs of the bounds ahead of it.
    record Ahead (prev : ℕ) (bs : List F) : Type 0 where
      above : (b : F) → In b bs → prev ≤ bucket fl h.buckets b
      within : (b : F) → In b bs → bucket fl h.buckets b ≤ h.count
      rises :
          (b c : F)
          → In b bs
          → In c bs
          → lt b c ≡ true
          → bucket fl h.buckets b ≤ bucket fl h.buckets c

    next_above :
        (d : F) (ds : List F) (prev : ℕ)
        → Arranged fl laws (d ∷ ds)
        → Ahead prev (d ∷ ds)
        → (c : F) → In c ds
        → bucket fl h.buckets d ≤ bucket fl h.buckets c
    next_above d ds prev a k c i = elim (not_before d c (NoneBefore-In d c ds a.0 i)) [
      | inl nan ↦ omega (arith, bucket_nan h.buckets d nan)
      | inr (x, y, z) ↦ elim (Bool-cases (lt d c)) [
        | inl l ↦ k.rises d c (inl refl) (inr i) l
        | inr n ↦ omega (arith, bucket_eq h.buckets d c (laws.lt_total d c x y n z))
      ]
    ]

    walk_accepts :
        (prev : ℕ) (bs : List F)
        → Arranged fl laws bs
        → Ahead prev bs
        → check_buckets fl h prev bs ≡ none
    unfolding check_buckets Step
    walk_accepts prev [] a k = refl
    walk_accepts prev (d ∷ ds) a k = (check-Step prev d ds).1 (
      k.above d (inl refl),
      k.within d (inl refl),
      walk_accepts (bucket fl h.buckets d) ds a.1 (record {
        above = next_above d ds prev a k;
        within = λ b i. k.within b (inr i);
        rises = λ b c i j. k.rises b c (inr i) (inr j);
      }),
    )

    sorted : List F
    sorted = sort_bounds fl (map (λ p. p.0) h.buckets)

    In-sorted : (b : F) (n : ℕ) → In (b, n) h.buckets → In b sorted
    unfolding sorted
    In-sorted b n i = (In-sort_bounds fl laws b _).1 (key-In b n h.buckets i)

    sorted-In : (b : F) → In b sorted → (n : ℕ) × In (b, n) h.buckets
    unfolding sorted
    sorted-In b i = In-key b h.buckets ((In-sort_bounds fl laws b _).0 i)

    cumulative : IsMap fl h.buckets → check_buckets fl h 0 sorted ≡ none → IsCumulative fl h
    unfolding sorted
    cumulative keys e = (
      λ b n i num. omega (
        arith,
        bucket_of b n h.buckets keys num i,
        (walk_bounds 0 b sorted e (In-sorted b n i)).1,
      ),
      λ b c n m i j l.
          let nums = laws.lt_numbers b c l in
          omega (
            arith,
            bucket_of b n h.buckets keys nums.0 i,
            bucket_of c m h.buckets keys nums.1 j,
            walk_rises 0 b c sorted (sort_bounds-Arranged fl laws _) e (In-sorted b n i)
                (In-sorted c m j) l,
          ),
    )

    ahead : IsMap fl h.buckets → IsCumulative fl h → Ahead 0 sorted
    ahead keys k = record {
      above = λ b i. omega arith;
      within = λ b i.
          let (n, at) = sorted-In b i in
          elim (Bool-cases (is_nan b)) [
            | inl t ↦ omega (arith, bucket_nan h.buckets b t)
            | inr f ↦ omega (arith, bucket_of b n h.buckets keys f at, k.0 b n at f)
          ];
      rises = λ b c i j l.
          let (n, at) = sorted-In b i in
          let (m, to) = sorted-In c j in
          let nums = laws.lt_numbers b c l in
          omega (
            arith,
            bucket_of b n h.buckets keys nums.0 at,
            bucket_of c m h.buckets keys nums.1 to,
            k.1 b c n m at to l,
          );
    }

    -- The test on a histogram is that it is cumulative.
    pub validate_hist-IsCumulative :
        IsMap fl h.buckets → (validate_hist fl (some h) ≡ none) ↔ IsCumulative fl h
    unfolding validate_hist sorted
    validate_hist-IsCumulative keys = (
      λ e. cumulative keys e,
      λ k.
          walk_accepts 0 sorted (sort_bounds-Arranged fl laws (map (λ p. p.0) h.buckets))
            (ahead keys k),
    )
