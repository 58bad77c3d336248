-- ===== src/Adapter/Builder/Schema.antt =====
-- The Builder of internal/adapter/adapter.go and the schema: the definitions of the samples that it
-- adds, and their labels.
use mathlib.Core.List.{foldl}
use llm_metrics_exporter.Base.{
  ◌≡◌, ◌⊎◌, refl, inl, inr, Bool, true, Option, some, List, [], ◌∷◌, ◌++◌, String, str_eq, length,
  Bool-cases,
}
use llm_metrics_exporter.Base.Floats.{Floats}
use llm_metrics_exporter.Metrics.{Def, Sample, is_adapter_name, prefill, decode}
use llm_metrics_exporter.Promtext.{Families, Merged, absent, different_bounds, merged, Match}
use llm_metrics_exporter.Adapter.Builder.{
  Builder, new_builder, new_worker_builder, add, sample, sum_sample, value_of, value,
  hist_sum_sample, hist_sum_of, histogram_sum, hist_sample, hist_of, add_histogram, fail, workers,
}

-- Each label named phase has the value prefill or decode.
abbrev pub Phased : List String → List String → Type 0
Phased [] vs = Unit
Phased (l ∷ ls) [] = Unit
Phased (l ∷ ls) (v ∷ vs) = (str_eq l "phase" ≡ true → (v ≡ prefill) ⊎ (v ≡ decode)) × Phased ls vs

abbrev pub Fits : Def → List String → Type 0
Fits d labels =
    (is_adapter_name d.name ≡ true) × (length labels ≡ length d.labels) × Phased d.labels labels

module _ (fl : Floats) where
  open fl use {F}

  -- A sample with a definition that its labels fit.
  abbrev pub Shaped : Sample F → Type 0
  Shaped s = (d : Def) × (s.def ≡ some d) × Fits d s.labels

  abbrev pub AllShaped : List (Sample F) → Type 0
  AllShaped [] = Unit
  AllShaped (s ∷ ss) = Shaped s × AllShaped ss

  AllShaped-append :
      (ss : List (Sample F)) (s : Sample F) → AllShaped ss → Shaped s → AllShaped (ss ++ (s ∷ []))
  AllShaped-append [] s h k = (k, tt)
  AllShaped-append (x ∷ ss) s h k = (h.0, AllShaped-append ss s h.1 k)

  pub add-AllShaped :
      (b : Builder F) (s : Sample F) → AllShaped b.samples → Shaped s → AllShaped (add b s).samples
  unfolding add
  add-AllShaped b s h k = AllShaped-append b.samples s h k

  -- A loop over the workers whose body keeps the samples in shape.
  fold-AllShaped :
      (step : Builder F → String → Builder F)
      → ((b : Builder F) (w : String) → AllShaped b.samples → AllShaped (step b w).samples)
      → (ws : List String) (b : Builder F) → AllShaped b.samples
      → AllShaped (foldl step b ws).samples
  fold-AllShaped step keep [] b h = h
  fold-AllShaped step keep (w ∷ ws) b h = fold-AllShaped step keep ws (step b w) (keep b w h)

  pub new_builder-AllShaped :
      (fams : Families F) (m : Option Match) → AllShaped (new_builder fams m).samples
  unfolding new_builder new_worker_builder
  new_builder-AllShaped fams m = tt

  pub new_worker_builder-AllShaped :
      (fams : Families F) (m : Option Match) (name : String)
      → AllShaped (new_worker_builder fams m name).samples
  unfolding new_worker_builder
  new_worker_builder-AllShaped fams m name = tt

  module _ (d : Def) (labels : List String) (source : String) (m : Option Match)
      (fits : Fits d labels) where
    sample-Shaped : (w : String) (v : F) → Shaped (sample fl d labels w v)
    unfolding sample
    sample-Shaped w v = (d, refl, fits)

    sum_sample-AllShaped :
        (w : String) (total : F × Bool) (b : Builder F)
        → AllShaped b.samples
        → AllShaped (sum_sample fl d labels w total b).samples
    unfolding sum_sample
    sum_sample-AllShaped w total b h = elim (Bool-cases total.1) [
      | inl t ↦ rw (t, sum_sample) (add-AllShaped b _ h (sample-Shaped w total.0))
      | inr f ↦ rw (f, sum_sample) h
    ]

    hist_sum_sample-AllShaped :
        (w : String) (o : Merged F) (b : Builder F)
        → AllShaped b.samples
        → AllShaped (hist_sum_sample fl d labels w o b).samples
    unfolding hist_sum_sample fail
    hist_sum_sample-AllShaped w absent b h = h
    hist_sum_sample-AllShaped w different_bounds b h = h
    hist_sum_sample-AllShaped w (merged x) b h = add-AllShaped b _ h (sample-Shaped w x.sum)

    pub value-AllShaped :
        (b : Builder F) → AllShaped b.samples → AllShaped (value fl b d labels source m).samples
    unfolding value value_of
    value-AllShaped b h =
        fold-AllShaped (value_of fl d labels source m) (λ c w k. sum_sample-AllShaped w _ c k)
          (workers b source m) b h

    pub histogram_sum-AllShaped :
        (b : Builder F)
        → AllShaped b.samples
        → AllShaped (histogram_sum fl b d labels source m).samples
    unfolding histogram_sum hist_sum_of
    histogram_sum-AllShaped b h =
        fold-AllShaped (hist_sum_of fl d labels source m)
          (λ c w k. hist_sum_sample-AllShaped w _ c k) (workers b source m) b h

  module _ (d : Def) (source : String) (m : Option Match) (fits : Fits d []) where
    hist_sample-AllShaped :
        (w : String) (o : Merged F) (b : Builder F)
        → AllShaped b.samples
        → AllShaped (hist_sample fl d w o b).samples
    unfolding hist_sample sample fail
    hist_sample-AllShaped w absent b h = h
    hist_sample-AllShaped w different_bounds b h = h
    hist_sample-AllShaped w (merged x) b h = add-AllShaped b _ h (d, refl, fits)

    pub add_histogram-AllShaped :
        (b : Builder F) → AllShaped b.samples → AllShaped (add_histogram fl b d source m).samples
    unfolding add_histogram hist_of
    add_histogram-AllShaped b h =
        fold-AllShaped (hist_of fl d source m) (λ c w k. hist_sample-AllShaped w _ c k)
          (workers b source m) b h
