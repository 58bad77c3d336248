-- ===== src/Engines/Sglang/Shape.antt =====
-- internal/adapter/sglang/sglang.go: the samples of its mapping and the schema.
use llm_metrics_exporter.Base.{Bool-cases, inl, inr, String}
use llm_metrics_exporter.Base.Floats.{Floats}
use llm_metrics_exporter.Promtext.{Families, has}
use llm_metrics_exporter.Adapter.{Selected, chosen, failed}
use llm_metrics_exporter.Adapter.Builder.{Builder}
use llm_metrics_exporter.Adapter.Builder.Schema.{
  AllShaped, value-AllShaped, add_histogram-AllShaped, new_worker_builder-AllShaped,
}
use llm_metrics_exporter.Engines.{failed_map, built}
use llm_metrics_exporter.Engines.Fits
use llm_metrics_exporter.Engines.Sglang.{counted, of_model, sglang_map}

module _ (fl : Floats) where
  open fl use {F}

  counted-AllShaped : (b : Builder F) → AllShaped fl b.samples → AllShaped fl (counted fl b).samples
  unfolding counted
  counted-AllShaped b h =
      let h = value-AllShaped fl _ _ _ _ Fits.tokens-Fits-prefill b h in
      let h = value-AllShaped fl _ _ _ _ Fits.prompt_cached_tokens-Fits _ h in
      let h = value-AllShaped fl _ _ _ _ Fits.tokens-Fits-decode _ h in
      let h = value-AllShaped fl _ _ _ _ Fits.requests_running-Fits _ h in
      let h = value-AllShaped fl _ _ _ _ Fits.kv_cache_usage-Fits _ h in
      add_histogram-AllShaped fl _ _ _ Fits.time_to_first_token-Fits _ h

  of_model-AllShaped :
      (fams : Families F) (m : Selected) → AllShaped fl (of_model fl fams m).result.samples
  unfolding of_model built failed_map
  of_model-AllShaped fams (failed e) = tt
  of_model-AllShaped fams (chosen m) =
      counted-AllShaped _ (new_worker_builder-AllShaped fl fams _ "dp_rank")

  pub sglang_map-AllShaped :
      (fams : Families F) (served : String)
      → AllShaped fl (sglang_map fl fams served).result.samples
  unfolding sglang_map failed_map
  sglang_map-AllShaped fams served = elim (Bool-cases (has fams "sglang:generation_tokens_total")) [
    | inl t ↦ rw t (of_model-AllShaped fams _)
    | inr f ↦ rw f tt
  ]
