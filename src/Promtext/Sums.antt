-- ===== src/Promtext/Sums.antt =====
-- What Histogram returns: the selected histograms added up, with whole numbers for float64.
use llm_metrics_exporter.Base.{
  ℕ, ◌+◌, ◌%◌, ◌^◌, ◌≡◌, refl, ap, Bool, true, false, not, ◌&&◌, Option, none, some, List, [], ◌∷◌,
  String, arith, Bool-cases, Option-cases, inl, inr, if◌then◌else◌, ◌==◌,
}
use llm_metrics_exporter.Base.Floats.{whole_floats}
use llm_metrics_exporter.Metrics.{Hist}
use llm_metrics_exporter.Promtext.{
  Series, Bucket, Histogram, Families, Family, Match, Merged, Merging, absent, different_bounds,
  merged, selects, bounds_of, add_bucket, add_buckets, absorb, merge_step, merge_loop, same_bounds,
  histogram, merge_family, family, no_merging, FamilyType, histogram_type, other_type,
}

-- The count at a bound, 0 where there is none.
abbrev pub count_at : ℕ → List (ℕ × ℕ) → ℕ
count_at b [] = 0
count_at b ((c, k) ∷ bs) = if c == b then k else count_at b bs

-- What a histogram's buckets hold at a bound.
abbrev pub held_at : ℕ → List (Bucket ℕ) → ℕ
held_at b [] = 0
held_at b (x ∷ xs) = (if x.upper_bound == b then x.cumulative_count else 0) + held_at b xs

count_at-add_bucket :
    (b c n : ℕ) (bs : List (ℕ × ℕ))
    → count_at b (add_bucket whole_floats bs c n) % 2 ^ 64
      ≡ (count_at b bs + (if c == b then n else 0)) % 2 ^ 64
unfolding add_bucket
count_at-add_bucket b c n [] = ground arith
count_at-add_bucket b c n ((d, k) ∷ bs) = ground (arith, count_at-add_bucket b c n bs)

count_at-add_buckets :
    (b : ℕ) (bs : List (ℕ × ℕ)) (xs : List (Bucket ℕ))
    → count_at b (add_buckets whole_floats bs xs) % 2 ^ 64 ≡ (count_at b bs + held_at b xs) % 2 ^ 64
unfolding add_buckets
count_at-add_buckets b bs [] = omega arith
count_at-add_buckets b bs (x ∷ xs) =
    let here = count_at-add_bucket b x.upper_bound x.cumulative_count bs in
    let rest =
      count_at-add_buckets b (add_bucket whole_floats bs x.upper_bound x.cumulative_count) xs in
    omega arith

-- The histograms of the series that the match selects.
abbrev pub picked : Option Match → List (Series ℕ) → List (Histogram ℕ)
picked m [] = []
picked m (s ∷ ss) =
    let rest = picked m ss in
    if selects m s.labels then elim s.histogram [ none ↦ rest | some h ↦ h ∷ rest ] else rest

abbrev pub counts : List (Histogram ℕ) → ℕ
counts [] = 0
counts (h ∷ hs) = h.sample_count + counts hs

abbrev pub sums : List (Histogram ℕ) → ℕ
sums [] = 0
sums (h ∷ hs) = h.sample_sum + sums hs

abbrev pub all_held_at : ℕ → List (Histogram ℕ) → ℕ
all_held_at b [] = 0
all_held_at b (h ∷ hs) = held_at b h.buckets + all_held_at b hs

-- All have these bounds.
abbrev pub agree : List ℕ → List (Histogram ℕ) → Bool
agree bounds [] = true
agree bounds (h ∷ hs) =
    same_bounds whole_floats bounds (bounds_of whole_floats h) && agree bounds hs

-- The sums of the histograms, and of what came before them.
pub record Sums (count sum : ℕ) (at : ℕ → ℕ) (hs : List (Histogram ℕ)) (h : Hist ℕ) : Type 0 where
  pub count_lem : h.count % 2 ^ 64 ≡ (count + counts hs) % 2 ^ 64
  pub sum_lem : h.sum ≡ sum + sums hs
  pub bucket_lem : (b : ℕ) → count_at b h.buckets % 2 ^ 64 ≡ (at b + all_held_at b hs) % 2 ^ 64

-- What the loop returns when it has found a histogram.
abbrev From : Merging whole_floats → List (Histogram ℕ) → Merged ℕ → Type 0
From acc hs absent = true ≡ false
From acc hs different_bounds = agree acc.bounds hs ≡ false
From acc hs (merged h) =
    (agree acc.bounds hs ≡ true)
    × Sums acc.hist.count acc.hist.sum (λ b. count_at b acc.hist.buckets) hs h

-- A histogram that was absorbed counts with what came before.
From-absorb :
    (acc : Merging whole_floats) (sh : Histogram ℕ) (hs : List (Histogram ℕ)) (r : Merged ℕ)
    → acc.found ≡ true
    → same_bounds whole_floats acc.bounds (bounds_of whole_floats sh) ≡ true
    → From (absorb whole_floats acc sh) hs r
    → From acc (sh ∷ hs) r
unfolding absorb
From-absorb acc sh hs absent f e h = h
From-absorb acc sh hs different_bounds f e h = rw e (rw f at h)
From-absorb acc sh hs (merged k) f e h = (
  rw e (rw f at h.0),
  record {
    count_lem = let c = h.1.count_lem in omega arith;
    sum_lem = let c = h.1.sum_lem in omega arith;
    bucket_lem = λ b.
        let c = h.1.bucket_lem b in
        omega (arith, count_at-add_buckets b acc.hist.buckets sh.buckets);
  },
)

-- A round of the loop.
module _ (m : Option Match) (acc : Merging whole_floats) (s : Series ℕ) where
  module _ (sh : Histogram ℕ) (on : selects m s.labels ≡ true) (e : s.histogram ≡ some sh) where
    abbrev differ : Bool
    differ = acc.found && not (same_bounds whole_floats acc.bounds (bounds_of whole_floats sh))

    step_absorb :
        differ ≡ false → merge_step whole_floats m acc s ≡ some (absorb whole_floats acc sh)
    unfolding merge_step
    step_absorb d = rw (on, e) (ap (λ b. if b then none else some (absorb whole_floats acc sh)) d)

    step_differ : differ ≡ true → merge_step whole_floats m acc s ≡ none
    unfolding merge_step
    step_differ d = rw (on, e) (ap (λ b. if b then none else some (absorb whole_floats acc sh)) d)

merge_loop-From :
    (m : Option Match) (acc : Merging whole_floats) (ss : List (Series ℕ))
    → acc.found ≡ true
    → From acc (picked m ss) (merge_loop whole_floats m acc ss)
unfolding merge_loop
merge_loop-From m acc [] f =
    rw (f, merge_loop)
      (
        refl,
        record { count_lem = omega arith; sum_lem = omega arith; bucket_lem = λ b. omega arith },
      )
merge_loop-From m acc (s ∷ ss) f = elim (Bool-cases (selects m s.labels)) [
  | inr off ↦ rw (off, merge_loop) (merge_loop-From m acc ss f)
  | inl on ↦ elim (Option-cases s.histogram) [
    | inl e ↦ rw (on, e, merge_loop) (merge_loop-From m acc ss f)
    | inr (sh, e) ↦
        elim (Bool-cases (same_bounds whole_floats acc.bounds (bounds_of whole_floats sh))) [
          | inl same ↦
              rw (step_absorb m acc s sh on e (ground (arith, f, same)), merge_loop)
                (rw (on, e)
                  (From-absorb acc sh (picked m ss)
                    (merge_loop whole_floats m (absorb whole_floats acc sh) ss) f same
                    (merge_loop-From m (absorb whole_floats acc sh) ss (absorbed acc sh))))
          | inr not_same ↦
              rw (step_differ m acc s sh on e (ground (arith, f, not_same)), merge_loop)
                (rw (on, e) (ground (arith, not_same)))
        ]
  ]
]
  where
    absorbed :
        (acc : Merging whole_floats) (sh : Histogram ℕ) → (absorb whole_floats acc sh).found ≡ true
    absorbed acc sh = refl

-- What Histogram returns for these selected histograms: nothing without one, an error exactly when
-- their bounds differ, and otherwise their sums.
pub data Merges : List (Histogram ℕ) → Merged ℕ → Type 0 where
  nothing : Merges [] absent
  refused :
      {h : Histogram ℕ} {hs : List (Histogram ℕ)}
      → agree (bounds_of whole_floats h) hs ≡ false
      → Merges (h ∷ hs) different_bounds
  added :
      {h : Histogram ℕ} {hs : List (Histogram ℕ)} {total : Hist ℕ}
      → agree (bounds_of whole_floats h) hs ≡ true
      → Sums 0 0 (λ b. 0) (h ∷ hs) total
      → Merges (h ∷ hs) (merged total)

not_found : (no_merging whole_floats).found ≡ false
unfolding no_merging
not_found = refl

From-first :
    (sh : Histogram ℕ) (hs : List (Histogram ℕ)) (r : Merged ℕ)
    → From (absorb whole_floats (no_merging whole_floats) sh) hs r
    → Merges (sh ∷ hs) r
unfolding absorb no_merging
From-first sh hs absent h = cc
From-first sh hs different_bounds h = refused h
From-first sh hs (merged k) h = added h.0 (record {
  count_lem = let c = h.1.count_lem in omega arith;
  sum_lem = let c = h.1.sum_lem in omega arith;
  bucket_lem = λ b. let c = h.1.bucket_lem b in omega (arith, count_at-add_buckets b [] sh.buckets);
})

merge_loop-Merges :
    (m : Option Match) (ss : List (Series ℕ))
    → Merges (picked m ss) (merge_loop whole_floats m (no_merging whole_floats) ss)
unfolding merge_loop
merge_loop-Merges m [] = rw (not_found, merge_loop) nothing
merge_loop-Merges m (s ∷ ss) = elim (Bool-cases (selects m s.labels)) [
  | inr off ↦ rw (off, merge_loop) (merge_loop-Merges m ss)
  | inl on ↦ elim (Option-cases s.histogram) [
    | inl e ↦ rw (on, e, merge_loop) (merge_loop-Merges m ss)
    | inr (sh, e) ↦
        rw (step_absorb m (no_merging whole_floats) s sh on e (rw not_found refl), merge_loop)
          (rw (on, e)
            (From-first sh (picked m ss) _ (
              merge_loop-From m (absorb whole_floats (no_merging whole_floats) sh) ss
                (absorbed sh))))
  ]
]
  where
    absorbed : (sh : Histogram ℕ) → (absorb whole_floats (no_merging whole_floats) sh).found ≡ true
    absorbed sh = refl

-- The selected histograms of a family, which has none unless its type is histogram.
abbrev pub histograms_of : Option (Family ℕ) → Option Match → List (Histogram ℕ)
histograms_of none m = []
histograms_of (some fam) m = elim fam.type [
  | histogram_type ↦ picked m fam.series
  | other_type ↦ []
]

merge_family-Merges :
    (o : Option (Family ℕ)) (m : Option Match)
    → Merges (histograms_of o m) (merge_family whole_floats m o)
unfolding merge_family
merge_family-Merges none m = nothing
merge_family-Merges (some fam) m = by_type fam.type
  where
    by_type :
        (t : FamilyType)
        → Merges
            (elim t as (λ _. List (Histogram ℕ)) [
              | histogram_type ↦ picked m fam.series
              | other_type ↦ []
            ])
            (elim t as (λ _. Merged ℕ) [
              | histogram_type ↦ merge_loop whole_floats m (no_merging whole_floats) fam.series
              | other_type ↦ absent
            ])
    by_type histogram_type = merge_loop-Merges m fam.series
    by_type other_type = nothing

-- With whole numbers for float64, Histogram returns nothing if no histogram of the family is
-- selected, refuses exactly when the bounds of a selected one differ from the first's, and otherwise
-- returns their sums: of the counts and, at every bound, of the cumulative counts, both modulo 2^64,
-- and of the sums.
pub histogram-Merges :
    (fs : Families ℕ) (name : String) (m : Option Match)
    → Merges (histograms_of (family fs name) m) (histogram whole_floats fs name m)
unfolding histogram
histogram-Merges fs name m = merge_family-Merges (family fs name) m
