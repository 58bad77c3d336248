-- ===== src/Engines/Vllm/Shape.antt =====
-- internal/adapter/vllm/vllm.go: the samples of its mapping and the schema.
use mathlib.Core.List.{foldl}
use llm_metrics_exporter.Base.{Bool-cases, inl, inr, List, [], ◌∷◌, String}
use llm_metrics_exporter.Base.Floats.{Floats}
use llm_metrics_exporter.Promtext.{Families, has, label_values}
use llm_metrics_exporter.Adapter.{Selected, chosen, failed}
use llm_metrics_exporter.Adapter.Builder.{Builder}
use llm_metrics_exporter.Adapter.Builder.Schema.{
  AllShaped, value-AllShaped, histogram_sum-AllShaped, add_histogram-AllShaped,
  new_worker_builder-AllShaped,
}
use llm_metrics_exporter.Engines.{failed_map, built}
use llm_metrics_exporter.Engines.Fits
use llm_metrics_exporter.Engines.Vllm.{finished, counted, of_model, vllm_map}

module _ (fl : Floats) where
  open fl use {F}

  finished-AllShaped :
      (reasons : List String) (b : Builder F)
      → AllShaped fl b.samples
      → AllShaped fl (foldl (finished fl) b reasons).samples
  unfolding finished
  finished-AllShaped [] b h = h
  finished-AllShaped (r ∷ rs) b h =
      finished-AllShaped rs _ (value-AllShaped fl _ _ _ _ (Fits.requests-Fits r) b h)

  counted-AllShaped :
      (fams : Families F) (b : Builder F)
      → AllShaped fl b.samples
      → AllShaped fl (counted fl fams b).samples
  unfolding counted
  counted-AllShaped fams b h =
      let h = value-AllShaped fl _ _ _ _ Fits.tokens-Fits-prefill b h in
      let h = value-AllShaped fl _ _ _ _ Fits.tokens-Fits-decode _ h in
      let h = value-AllShaped fl _ _ _ _ Fits.prompt_cached_tokens-Fits _ h in
      let h = histogram_sum-AllShaped fl _ _ _ _ Fits.request_phase_seconds-Fits-prefill _ h in
      let h = histogram_sum-AllShaped fl _ _ _ _ Fits.request_phase_seconds-Fits-decode _ h in
      let h =
        finished-AllShaped (label_values fams "vllm:request_success_total" "finished_reason") _ h in
      let h = value-AllShaped fl _ _ _ _ Fits.requests_running-Fits _ h in
      let h = value-AllShaped fl _ _ _ _ Fits.kv_cache_usage-Fits _ h in
      let h = add_histogram-AllShaped fl _ _ _ Fits.time_to_first_token-Fits _ h in
      let h = value-AllShaped fl _ _ _ _ Fits.spec_draft_tokens-Fits _ h in
      let h = value-AllShaped fl _ _ _ _ Fits.spec_accepted_tokens-Fits _ h in
      value-AllShaped fl _ _ _ _ Fits.spec_verify_steps-Fits _ h

  of_model-AllShaped :
      (fams : Families F) (m : Selected) → AllShaped fl (of_model fl fams m).result.samples
  unfolding of_model built failed_map
  of_model-AllShaped fams (failed e) = tt
  of_model-AllShaped fams (chosen m) =
      counted-AllShaped fams _ (new_worker_builder-AllShaped fl fams m "engine")

  pub vllm_map-AllShaped :
      (fams : Families F) (served : String) → AllShaped fl (vllm_map fl fams served).result.samples
  unfolding vllm_map failed_map
  vllm_map-AllShaped fams served = elim (Bool-cases (has fams "vllm:generation_tokens_total")) [
    | inl t ↦ rw t (of_model-AllShaped fams _)
    | inr f ↦ rw f tt
  ]
