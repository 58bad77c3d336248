-- ===== src/Engines/Detect/Shape.antt =====
-- The samples of all mappings of internal/engines/detect.go and the schema.
use llm_metrics_exporter.Base.{String}
use llm_metrics_exporter.Base.Floats.{Floats}
use llm_metrics_exporter.Promtext.{Families}
use llm_metrics_exporter.Adapter.Builder.Schema.{AllShaped}
use llm_metrics_exporter.Engines.Detect.{
  Mapping, by_vllm, by_llamacpp, by_sglang, by_patch_0150, by_native, by_tensorfold, map_by,
}
use llm_metrics_exporter.Engines.Vllm.Shape.{vllm_map-AllShaped}
use llm_metrics_exporter.Engines.Llamacpp.Shape.{llamacpp_map-AllShaped}
use llm_metrics_exporter.Engines.Sglang.Shape.{sglang_map-AllShaped}
use llm_metrics_exporter.Engines.Tensorfold.Shape.{
  map_native-AllShaped, map_patch_0150-AllShaped, tensorfold_map-AllShaped,
}

-- Whatever exposition an engine's mapping is given, each of its samples has a definition that
-- adapters may use, a value for each of that definition's labels and no more, and prefill or decode
-- for a phase.
pub map_by-AllShaped :
    (fl : Floats) (m : Mapping) (fams : Families fl.F) (served : String)
    → AllShaped fl (map_by fl m fams served).result.samples
unfolding map_by
map_by-AllShaped fl by_vllm = vllm_map-AllShaped fl
map_by-AllShaped fl by_llamacpp = llamacpp_map-AllShaped fl
map_by-AllShaped fl by_sglang = sglang_map-AllShaped fl
map_by-AllShaped fl by_patch_0150 = map_patch_0150-AllShaped fl
map_by-AllShaped fl by_native = map_native-AllShaped fl
map_by-AllShaped fl by_tensorfold = tensorfold_map-AllShaped fl
