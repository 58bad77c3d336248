-- ===== src/Adapter/Builder/Partition.antt =====
-- The workers of a source, internal/adapter/adapter.go, and the selected series of each; whole numbers
-- stand for float64.
use mathlib.Core.List.{foldl}
use llm_metrics_exporter.Base.{
  ℕ, ◌+◌, ◌≡◌, refl, ap, subst, ◌⊎◌, Bool, true, false, ◌&&◌, ◌||◌, Option, none, some, List, [],
  ◌∷◌, ◌++◌, String, str_eq, eq_iff, contains, Distinct, arith, if◌then◌else◌, Bool-cases, inl, inr,
}
use llm_metrics_exporter.Base.Floats.{whole_floats}
use llm_metrics_exporter.Metrics.{Def, Sample}
use llm_metrics_exporter.Promtext.{
  Match, Labels, Series as SeriesOf, sum, sum_step, selects, series_of, label_is, label_or_empty,
  all_of, value as value_in,
}
use llm_metrics_exporter.Adapter.Builder.{
  Builder, add, sample, sum_sample, value_of, value, workers, workers_from, worker_match,
  selected_by,
}

abbrev Series : Type 0
Series = SeriesOf ℕ

abbrev weight : Series → ℕ
weight s = elim (value_in s) [ none ↦ 0 | some v ↦ v ]

-- The series that a Match selects, added up.
abbrev pub total : Match → List Series → ℕ
total m [] = 0
total m (s ∷ ss) = (if m s.labels then weight s else 0) + total m ss

module _ (selected : Match) (name : String) where
  abbrev worker : Series → String
  worker s = label_or_empty s.labels name

  workers_from-seen :
      (seen : List String) (ss : List Series) (x : String)
      → contains seen x ≡ true
      → contains (workers_from selected name seen ss) x ≡ false
  unfolding workers_from
  workers_from-seen seen [] x h = refl
  workers_from-seen seen (s ∷ ss) x h = ground (
    arith,
    eq_iff (worker s) x,
    workers_from-seen seen ss x,
    workers_from-seen (worker s ∷ seen) ss x,
  )

  workers_from-Distinct :
      (seen : List String) (ss : List Series) → Distinct (workers_from selected name seen ss)
  unfolding workers_from
  workers_from-Distinct seen [] = tt
  workers_from-Distinct seen (s ∷ ss) = ground (
    arith,
    eq_iff (worker s) (worker s),
    workers_from-seen (worker s ∷ seen) ss (worker s),
    workers_from-Distinct seen ss,
    workers_from-Distinct (worker s ∷ seen) ss,
  )

  -- A selected series has this worker.
  abbrev offers : List Series → String → Bool
  offers [] x = false
  offers (s ∷ ss) x = (selected s.labels && str_eq (worker s) x) || offers ss x

  workers_from-offers :
      (seen : List String) (ss : List Series) (x : String)
      → offers ss x ≡ true
      → (contains seen x || contains (workers_from selected name seen ss) x) ≡ true
  unfolding workers_from
  workers_from-offers seen [] x h = cc
  workers_from-offers seen (s ∷ ss) x h = ground (
    arith,
    eq_iff (worker s) x,
    workers_from-offers seen ss x,
    workers_from-offers (worker s ∷ seen) ss x,
  )

  -- The series of one worker, and their sum.
  abbrev of_worker : String → Match
  of_worker w ls = selected ls && str_eq (label_or_empty ls name) w

  abbrev by_worker : List String → List Series → ℕ
  by_worker [] ss = 0
  by_worker (w ∷ ws) ss = total (of_worker w) ss + by_worker ws ss

  -- What one series adds over all workers.
  abbrev shares : List String → Series → ℕ
  shares [] s = 0
  shares (w ∷ ws) s = (if of_worker w s.labels then weight s else 0) + shares ws s

  by_worker-cons :
      (ws : List String) (s : Series) (ss : List Series)
      → by_worker ws (s ∷ ss) ≡ shares ws s + by_worker ws ss
  by_worker-cons [] s ss = omega arith
  by_worker-cons (w ∷ ws) s ss = omega (arith, by_worker-cons ws s ss)

  shares_none : (ws : List String) (s : Series) → contains ws (worker s) ≡ false → shares ws s ≡ 0
  shares_none [] s h = refl
  shares_none (w ∷ ws) s h =
      ground (arith, eq_iff (worker s) w, eq_iff w (worker s), shares_none ws s)

  shares_once :
      (ws : List String) (s : Series)
      → Distinct ws
      → contains ws (worker s) ≡ true
      → shares ws s ≡ (if selected s.labels then weight s else 0)
  shares_once [] s d h = cc
  shares_once (w ∷ ws) s d h = elim (Bool-cases (str_eq w (worker s))) [
    | inl t ↦ shares_first w ws s ((eq_iff w (worker s)).0 t) d.0
    | inr f ↦ ground (arith, eq_iff (worker s) w, eq_iff w (worker s), shares_once ws s d.1)
  ]
    where
      shares_first :
          (w : String) (ws : List String) (s : Series)
          → w ≡ worker s
          → contains ws w ≡ false
          → shares (w ∷ ws) s ≡ (if selected s.labels then weight s else 0)
      shares_first w ws s e h =
          ground
            (arith, eq_iff (worker s) w, shares_none ws s (subst (λ x. contains ws x ≡ false) e h))

  by_worker-nil : (ws : List String) → by_worker ws [] ≡ 0
  by_worker-nil [] = refl
  by_worker-nil (w ∷ ws) = omega (arith, by_worker-nil ws)

  shares_lem :
      (ws : List String) (s : Series)
      → Distinct ws
      → (selected s.labels ≡ true → contains ws (worker s) ≡ true)
      → shares ws s ≡ (if selected s.labels then weight s else 0)
  shares_lem ws s d h = elim (Bool-cases (selected s.labels)) [
    | inl t ↦ shares_once ws s d (h t)
    | inr f ↦ rw f (shares_off ws s f)
  ]
    where
      shares_off : (ws : List String) (s : Series) → selected s.labels ≡ false → shares ws s ≡ 0
      shares_off [] s f = refl
      shares_off (w ∷ ws) s f = ground (arith, shares_off ws s f)

  by_worker_lem :
      (ws : List String) (ss : List Series)
      → Distinct ws
      → ((x : String) → offers ss x ≡ true → contains ws x ≡ true)
      → by_worker ws ss ≡ total selected ss
  by_worker_lem ws [] d h = by_worker-nil ws
  by_worker_lem ws (s ∷ ss) d h = omega (
    arith,
    by_worker-cons ws s ss,
    shares_lem ws s d (λ t. h (worker s) (ground (arith, eq_iff (worker s) (worker s)))),
    by_worker_lem ws ss d (λ x e. h x (ground arith)),
  )

-- Adding up the samples.
abbrev pub samples_total : List (Sample ℕ) → ℕ
samples_total [] = 0
samples_total (s ∷ ss) = s.value + samples_total ss

samples_total-append :
    (xs : List (Sample ℕ)) (s : Sample ℕ)
    → samples_total (xs ++ (s ∷ [])) ≡ samples_total xs + s.value
samples_total-append [] s = omega arith
samples_total-append (x ∷ xs) s = omega (arith, samples_total-append xs s)

-- What the match lets one series add.
abbrev pub share : Match → Series → ℕ
share m s = if m s.labels then weight s else 0

-- A round of Sum's loop changes nothing and has nothing to add, or it adds and reports a find.
step_lem :
    (m : Match) (acc : ℕ × Bool) (s : Series)
    → ((sum_step whole_floats (some m) acc s ≡ acc) × (share m s ≡ 0))
      ⊎ (sum_step whole_floats (some m) acc s ≡ (acc.0 + share m s, true))
unfolding sum_step selects
step_lem m acc s = elim (Bool-cases (m s.labels)) [
  | inr f ↦ rw f (inl (refl, refl))
  | inl t ↦ rw t (by_value (value_in s))
]
  where
    by_value :
        (v : Option ℕ)
        → ((elim v as (λ _. ℕ × Bool) [ none ↦ acc | some v ↦ (acc.0 + v, true) ] ≡ acc)
            × (elim v as (λ _. ℕ) [ none ↦ 0 | some v ↦ v ] ≡ 0))
          ⊎ (elim v as (λ _. ℕ × Bool) [ none ↦ acc | some v ↦ (acc.0 + v, true) ]
              ≡ (acc.0 + elim v as (λ _. ℕ) [ none ↦ 0 | some v ↦ v ], true))
    by_value none = inl (refl, refl)
    by_value (some v) = inr refl

sum_loop_lem :
    (m : Match) (acc : ℕ × Bool) (ss : List Series)
    → (foldl (sum_step whole_floats (some m)) acc ss).0 ≡ acc.0 + total m ss
sum_loop_lem m acc [] = omega arith
sum_loop_lem m acc (s ∷ ss) = elim (step_lem m acc s) [
  | inl (e, z) ↦ rw (e, foldl) (omega (arith, z, sum_loop_lem m acc ss))
  | inr e ↦ rw (e, foldl) (omega (arith, sum_loop_lem m (acc.0 + share m s, true) ss))
]

found_stays :
    (m : Match) (n : ℕ) (ss : List Series)
    → (foldl (sum_step whole_floats (some m)) (n, true) ss).1 ≡ true
found_stays m n [] = refl
found_stays m n (s ∷ ss) = elim (step_lem m (n, true) s) [
  | inl (e, z) ↦ rw (e, foldl) (found_stays m n ss)
  | inr e ↦ rw (e, foldl) (found_stays m (n + share m s) ss)
]

not_found_lem :
    (m : Match) (n : ℕ) (ss : List Series)
    → (foldl (sum_step whole_floats (some m)) (n, false) ss).1 ≡ false
    → total m ss ≡ 0
not_found_lem m n [] h = refl
not_found_lem m n (s ∷ ss) h = elim (step_lem m (n, false) s) [
  | inl (e, z) ↦ omega (arith, z, not_found_lem m n ss (rw (e, foldl) at h))
  | inr e ↦ let no = rw (e, foldl) at h in let yes = found_stays m (n + share m s) ss in cc
]

total-cong :
    (m n : Match) (ss : List Series) → ((ls : Labels) → m ls ≡ n ls) → total m ss ≡ total n ss
total-cong m n [] h = refl
total-cong m n (s ∷ ss) h = rw (h s.labels) (ap (λ t. share n s + t) (total-cong m n ss h))

module _ (d : Def) (labels : List String) (source : String) (m : Option Match) where
  module _ (b : Builder ℕ) (labelled : str_eq b.worker_label "" ≡ false) where
    abbrev found : String → ℕ × Bool
    found w = sum whole_floats b.fams source (some (worker_match b m w))

    worker_match_lem :
        (w : String) (ls : Labels)
        → worker_match b m w ls ≡ of_worker (selected_by b m) b.worker_label w ls
    unfolding worker_match all_of selects label_is
    worker_match_lem w ls = rw labelled (ground arith)

    found-total :
        (w : String)
        → (found w).0
          ≡ total (of_worker (selected_by b m) b.worker_label w) (series_of b.fams source)
    unfolding sum
    found-total w =
        let loop = sum_loop_lem (worker_match b m w) (0, false) (series_of b.fams source) in
        omega (
          arith,
          loop,
          total-cong (worker_match b m w) (of_worker (selected_by b m) b.worker_label w)
              (series_of b.fams source) (worker_match_lem w),
        )

    unfound-total : (w : String) → (found w).1 ≡ false → (found w).0 ≡ 0
    unfolding sum
    unfound-total w f =
        let loop = sum_loop_lem (worker_match b m w) (0, false) (series_of b.fams source) in
        omega (arith, loop, not_found_lem (worker_match b m w) 0 (series_of b.fams source) f)

  value_loop :
      (b : Builder ℕ) (ws : List String)
      → str_eq b.worker_label "" ≡ false
      → samples_total (foldl (value_of whole_floats d labels source m) b ws).samples
        ≡ samples_total b.samples
          + by_worker (selected_by b m) b.worker_label ws (series_of b.fams source)
  unfolding value_of sum_sample add sample selected_by
  value_loop b [] h = omega arith
  value_loop b (w ∷ ws) h = elim (Bool-cases (found b h w).1) [
    | inr f ↦
        rw (f, foldl) (omega (arith, found-total b h w, unfound-total b h w f, value_loop b ws h))
    | inl t ↦
        rw (t, foldl)
          (omega (
            arith,
            found-total b h w,
            value_loop (add b (sample whole_floats d labels w (found b h w).0)) ws h,
            samples_total-append b.samples (sample whole_floats d labels w (found b h w).0),
          ))
  ]

  -- With whole numbers for float64, and for a Builder that partitions by a worker label, Value
  -- adds samples whose values come to the Sum of the source over all workers: each selected series
  -- is counted in exactly one worker's sample.
  pub value-total :
      (b : Builder ℕ)
      → str_eq b.worker_label "" ≡ false
      → samples_total (value whole_floats b d labels source m).samples
        ≡ samples_total b.samples + (sum whole_floats b.fams source (some (selected_by b m))).0
  unfolding value sum workers
  value-total b h =
      let ss = series_of b.fams source in
      let ws = workers b source m in
      omega (
        arith,
        value_loop b ws h,
        sum_loop_lem (selected_by b m) (0, false) ss,
        by_worker_lem (selected_by b m) b.worker_label ws ss
            (workers_from-Distinct (selected_by b m) b.worker_label [] ss)
            (workers_from-offers (selected_by b m) b.worker_label [] ss),
      )
