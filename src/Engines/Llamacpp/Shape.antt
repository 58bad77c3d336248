-- ===== src/Engines/Llamacpp/Shape.antt =====
-- internal/adapter/llamacpp/llamacpp.go: the samples of its mapping and the schema.
use llm_metrics_exporter.Base.{Bool-cases, inl, inr, [], ◌∷◌, String}
use llm_metrics_exporter.Base.Floats.{Floats}
use llm_metrics_exporter.Promtext.{Families, has}
use llm_metrics_exporter.Adapter.{Selected, chosen, failed}
use llm_metrics_exporter.Adapter.Builder.{Builder}
use llm_metrics_exporter.Adapter.Builder.Schema.{
  AllShaped, Fits as Fits_with, value-AllShaped, new_builder-AllShaped,
}
use llm_metrics_exporter.Metrics.{prefill}
use llm_metrics_exporter.Engines.{failed_map, built}
use llm_metrics_exporter.Engines.Fits
use llm_metrics_exporter.Engines.Llamacpp.{prefill_clock, counted, of_model, llamacpp_map}

module _ (fl : Floats) where
  open fl use {F}

  prefill_clock-Fits : (fams : Families F) → Fits_with (prefill_clock fl fams) (prefill ∷ [])
  unfolding prefill_clock
  prefill_clock-Fits fams = elim (Bool-cases (has fams "llamacpp:prompt_tokens_cached_total")) [
    | inl t ↦ rw t Fits.engine_phase_seconds-Fits-prefill
    | inr f ↦ rw f Fits.request_phase_seconds-Fits-prefill
  ]

  counted-AllShaped :
      (fams : Families F) (b : Builder F)
      → AllShaped fl b.samples
      → AllShaped fl (counted fl fams b).samples
  unfolding counted
  counted-AllShaped fams b h =
      let h = value-AllShaped fl _ _ _ _ Fits.tokens-Fits-prefill b h in
      let h = value-AllShaped fl _ _ _ _ Fits.tokens-Fits-decode _ h in
      let h = value-AllShaped fl _ _ _ _ Fits.prompt_cached_tokens-Fits _ h in
      let h = value-AllShaped fl _ _ _ _ (prefill_clock-Fits fams) _ h in
      let h = value-AllShaped fl _ _ _ _ Fits.request_phase_seconds-Fits-decode _ h in
      let h = value-AllShaped fl _ _ _ _ Fits.requests_running-Fits _ h in
      let h = value-AllShaped fl _ _ _ _ Fits.spec_draft_tokens-Fits _ h in
      let h = value-AllShaped fl _ _ _ _ Fits.spec_accepted_tokens-Fits _ h in
      value-AllShaped fl _ _ _ _ Fits.spec_verify_steps-Fits _ h

  of_model-AllShaped :
      (fams : Families F) (m : Selected) → AllShaped fl (of_model fl fams m).result.samples
  unfolding of_model built failed_map
  of_model-AllShaped fams (failed e) = tt
  of_model-AllShaped fams (chosen m) = counted-AllShaped fams _ (new_builder-AllShaped fl fams m)

  pub llamacpp_map-AllShaped :
      (fams : Families F) (served : String)
      → AllShaped fl (llamacpp_map fl fams served).result.samples
  unfolding llamacpp_map failed_map
  llamacpp_map-AllShaped fams served =
      elim (Bool-cases (has fams "llamacpp:tokens_predicted_total")) [
        | inl t ↦ rw t (of_model-AllShaped fams _)
        | inr f ↦ rw f tt
      ]
