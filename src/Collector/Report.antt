-- ===== src/Collector/Report.antt =====
-- The engine's series of one arm: which samples they come from.
use mathlib.Core.Bool.{true≢false}
use llm_metrics_exporter.Base.{
  ◌≡◌, ◌≢◌, ◌⊎◌, inl, inr, refl, sym, ap, ◌∙◌, Bool, true, false, ◌||◌, Option, none, some, List,
  [], ◌∷◌, map, String, Bytes, same_bytes, same_bytes_iff, Bool-cases, Option-cases, arith,
}
use llm_metrics_exporter.Base.Floats.{Floats}
use llm_metrics_exporter.Metrics.{Def, Sample}
use llm_metrics_exporter.Collector.{Series, sample_series, holds, fitting, samples_series}

-- A sample that is emitted, with its definition and its key.
pub record Origin (F : Type 0) : Type 0 where
  pub sample : Sample F
  pub def : Def
  pub key : Bytes

none≢some {ℓ} : {A : Type ℓ} {a : A} → none ≢ some a
none≢some e = cc

key_of : Option (Def × Bytes) → Bytes
key_of none = []
key_of (some p) = p.1

same_key :
    {o : Option (Def × Bytes)} (d e : Def) (k j : Bytes) → o ≡ some (d, k) → o ≡ some (e, j) → k ≡ j
unfolding key_of
same_key d e k j p q = ap key_of (sym p ∙ q)

module _ (fl : Floats) where
  open fl use {F}

  abbrev pub AllOrigins : (Origin F → Type 0) → List (Origin F) → Type 0
  AllOrigins P [] = Unit
  AllOrigins P (o ∷ os) = P o × AllOrigins P os

  abbrev pub HasKey : Bytes → List (Origin F) → Type 0
  HasKey k [] = ⊥
  HasKey k (o ∷ os) = (o.key ≡ k) ⊎ HasKey k os

  -- No two have the same key.
  abbrev pub DistinctKeys : List (Origin F) → Type 0
  DistinctKeys [] = Unit
  DistinctKeys (o ∷ os) = AllOrigins (λ p. p.key ≢ o.key) os × DistinctKeys os

  -- Every sample that fits has its key among the seen ones or the origins.
  abbrev pub Covered : List Bytes → List (Origin F) → List (Sample F) → Type 0
  Covered seen os [] = Unit
  Covered seen os (s ∷ ss) =
      ((d : Def) (k : Bytes) → fitting fl s ≡ some (d, k) → (holds seen k ≡ true) ⊎ HasKey k os)
      × Covered seen os ss

  abbrev pub IsIn : Sample F → List (Sample F) → Type 0
  IsIn s [] = ⊥
  IsIn s (t ∷ ts) = (s ≡ t) ⊎ IsIn s ts

  abbrev pub Fits : List Bytes → List (Sample F) → Origin F → Type 0
  Fits seen ss o =
      IsIn o.sample ss × (fitting fl o.sample ≡ some (o.def, o.key)) × (holds seen o.key ≡ false)

  pub record Once (id : List String) (seen : List Bytes) (ss : List (Sample F))
      (out : List (Series F)) : Type 0 where
    pub origins : List (Origin F)
    pub series : out ≡ map (λ o. sample_series fl id o.def o.sample) origins
    pub fits : AllOrigins (Fits seen ss) origins
    pub distinct : DistinctKeys origins
    pub covered : Covered seen origins ss

  Fits-later :
      (seen : List Bytes) (t : Sample F) (ss : List (Sample F)) (os : List (Origin F))
      → AllOrigins (Fits seen ss) os
      → AllOrigins (Fits seen (t ∷ ss)) os
  Fits-later seen t ss [] h = tt
  Fits-later seen t ss (o ∷ os) h = ((inr h.0.0, h.0.1, h.0.2), Fits-later seen t ss os h.1)

  ||-false : (a b : Bool) → (a || b) ≡ false → (a ≡ false) × (b ≡ false)
  ||-false a b h = ground arith

  Fits-fewer :
      (seen : List Bytes) (k : Bytes) (ss : List (Sample F)) (os : List (Origin F))
      → AllOrigins (Fits (k ∷ seen) ss) os
      → AllOrigins (Fits seen ss) os × AllOrigins (λ o. o.key ≢ k) os
  unfolding holds
  Fits-fewer seen k ss [] h = (tt, tt)
  Fits-fewer seen k ss (o ∷ os) h =
      let rest = Fits-fewer seen k ss os h.1 in
      let split = ||-false (same_bytes k o.key) (holds seen o.key) h.0.2 in
      (
        ((h.0.0, h.0.1, split.1), rest.0),
        (λ e. true≢false (sym ((same_bytes_iff k o.key).1 (sym e)) ∙ split.0), rest.1),
      )

  Covered-more :
      (seen : List Bytes) (o : Origin F) (os : List (Origin F)) (ss : List (Sample F))
      → Covered (o.key ∷ seen) os ss
      → Covered seen (o ∷ os) ss
  unfolding holds
  Covered-more seen o os [] h = tt
  Covered-more seen o os (s ∷ ss) h = (
    λ d k e. elim (h.0 d k e) [
      | inr m ↦ inr (inr m)
      | inl m ↦ elim (Bool-cases (same_bytes o.key k)) [
        | inl y ↦ inr (inl ((same_bytes_iff o.key k).0 y))
        | inr n ↦ inl (rw n at m)
      ]
    ],
    Covered-more seen o os ss h.1,
  )

  -- Each series that a collection's samples bring comes from one of them that fits its definition; no
  -- two come from samples with the same key, or with a key seen before; and every sample that fits
  -- has its key among these.
  pub samples_series-Once :
      (id : List String) (seen : List Bytes) (ss : List (Sample F))
      → Once id seen ss (samples_series fl id seen ss)
  unfolding samples_series
  samples_series-Once id seen [] = record {
    origins = [];
    series = refl;
    fits = tt;
    distinct = tt;
    covered = tt;
  }
  samples_series-Once id seen (s ∷ ss) = elim (Option-cases (fitting fl s)) [
    | inl n ↦
        rw (n, samples_series)
          (let h = samples_series-Once id seen ss in
            record {
              origins = h.origins;
              series = h.series;
              fits = Fits-later seen s ss h.origins h.fits;
              distinct = h.distinct;
              covered = (λ d k e. absurd (none≢some (sym n ∙ e)), h.covered);
            })
    | inr ((d, k), f) ↦
        rw (f, samples_series)
          (elim (Bool-cases (holds seen k)) [
            | inl y ↦ rw y (
                let h = samples_series-Once id seen ss in
                record {
                  origins = h.origins;
                  series = h.series;
                  fits = Fits-later seen s ss h.origins h.fits;
                  distinct = h.distinct;
                  covered = (λ d' k' e. inl (rw (same_key d d' k k' f e) at y), h.covered);
                })
            | inr n ↦ rw n (
                let h = samples_series-Once id (k ∷ seen) ss in
                let o : Origin F = record { sample = s; def = d; key = k } in
                let split = Fits-fewer seen k ss h.origins h.fits in
                record {
                  origins = o ∷ h.origins;
                  series = ap (◌∷◌ (sample_series fl id d s)) h.series;
                  fits = ((inl refl, f, n), Fits-later seen s ss h.origins split.0);
                  distinct = (split.1, h.distinct);
                  covered = (
                    λ d' k' e. inr (inl (same_key d d' k k' f e)),
                    Covered-more seen o h.origins ss h.covered,
                  );
                })
          ])
  ]
