-- ===== src/Engines/Tensorfold/Shape.antt =====
-- internal/adapter/tensorfold: the samples of its mappings and the schema.
use llm_metrics_exporter.Base.{◌||◌, ◌&&◌, not, Bool-cases, inl, inr, String}
use llm_metrics_exporter.Base.Floats.{Floats}
use llm_metrics_exporter.Promtext.{Families, has}
use llm_metrics_exporter.Adapter.{Selected, chosen, failed}
use llm_metrics_exporter.Adapter.Builder.{Builder}
use llm_metrics_exporter.Adapter.Builder.Schema.{
  AllShaped, value-AllShaped, add_histogram-AllShaped, new_builder-AllShaped,
}
use llm_metrics_exporter.Engines.{failed_map, built}
use llm_metrics_exporter.Engines.Fits
use llm_metrics_exporter.Engines.Tensorfold.{
  native_counted, native_of, map_native, patch_counted, patch_of, map_patch_0150, tensorfold_map,
  native_decode, patch_decode,
}

module _ (fl : Floats) where
  open fl use {F}

  native_counted-AllShaped :
      (b : Builder F) → AllShaped fl b.samples → AllShaped fl (native_counted fl b).samples
  unfolding native_counted
  native_counted-AllShaped b h =
      let h = value-AllShaped fl _ _ _ _ Fits.tokens-Fits-decode b h in
      let h = value-AllShaped fl _ _ _ _ Fits.prompt_cached_tokens-Fits _ h in
      let h = value-AllShaped fl _ _ _ _ Fits.request_phase_seconds-Fits-prefill _ h in
      let h = value-AllShaped fl _ _ _ _ Fits.request_phase_seconds-Fits-decode _ h in
      let h = value-AllShaped fl _ _ _ _ Fits.requests_running-Fits _ h in
      let h = add_histogram-AllShaped fl _ _ _ Fits.time_to_first_token-Fits _ h in
      let h = value-AllShaped fl _ _ _ _ Fits.spec_draft_tokens-Fits _ h in
      value-AllShaped fl _ _ _ _ Fits.spec_accepted_tokens-Fits _ h

  native_of-AllShaped :
      (fams : Families F) (m : Selected) → AllShaped fl (native_of fl fams m).result.samples
  unfolding native_of built failed_map
  native_of-AllShaped fams (failed e) = tt
  native_of-AllShaped fams (chosen m) = native_counted-AllShaped _ (new_builder-AllShaped fl fams m)

  pub map_native-AllShaped :
      (fams : Families F) (served : String)
      → AllShaped fl (map_native fl fams served).result.samples
  unfolding map_native failed_map
  map_native-AllShaped fams served =
      elim (Bool-cases (not (has fams native_decode) || has fams patch_decode)) [
        | inl t ↦ rw t tt
        | inr f ↦ rw f (native_of-AllShaped fams _)
      ]

  patch_counted-AllShaped :
      (b : Builder F) → AllShaped fl b.samples → AllShaped fl (patch_counted fl b).samples
  unfolding patch_counted
  patch_counted-AllShaped b h =
      let h = value-AllShaped fl _ _ _ _ Fits.tokens-Fits-decode b h in
      let h = value-AllShaped fl _ _ _ _ Fits.prompt_cached_tokens-Fits _ h in
      let h = value-AllShaped fl _ _ _ _ Fits.request_phase_seconds-Fits-prefill _ h in
      value-AllShaped fl _ _ _ _ Fits.request_phase_seconds-Fits-decode _ h

  patch_of-AllShaped :
      (fams : Families F) (m : Selected) → AllShaped fl (patch_of fl fams m).result.samples
  unfolding patch_of built failed_map
  patch_of-AllShaped fams (failed e) = tt
  patch_of-AllShaped fams (chosen m) = patch_counted-AllShaped _ (new_builder-AllShaped fl fams m)

  pub map_patch_0150-AllShaped :
      (fams : Families F) (served : String)
      → AllShaped fl (map_patch_0150 fl fams served).result.samples
  unfolding map_patch_0150 failed_map
  map_patch_0150-AllShaped fams served =
      elim (Bool-cases (not (has fams patch_decode) || has fams native_decode)) [
        | inl t ↦ rw t tt
        | inr f ↦ rw f (patch_of-AllShaped fams _)
      ]

  pub tensorfold_map-AllShaped :
      (fams : Families F) (served : String)
      → AllShaped fl (tensorfold_map fl fams served).result.samples
  unfolding tensorfold_map failed_map
  tensorfold_map-AllShaped fams served =
      elim (Bool-cases (has fams native_decode && has fams patch_decode)) [
        | inl t ↦ rw t tt
        | inr f ↦ rw f (elim (Bool-cases (has fams native_decode)) [
          | inl t ↦ rw t (map_native-AllShaped fams served)
          | inr g ↦ rw g (map_patch_0150-AllShaped fams served)
        ])
      ]
