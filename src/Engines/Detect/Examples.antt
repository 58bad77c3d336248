-- ===== src/Engines/Detect/Examples.antt =====
-- The theorems on the engines at a small exposition of vLLM.
use llm_metrics_exporter.Base.{ℕ, ◌≡◌, ◌↔◌, refl, true, false, none, some, [], ◌∷◌, String}
use llm_metrics_exporter.Base.Floats.{whole_floats}
use llm_metrics_exporter.Promtext.{
  Families, Series, other_type, has, series_of, family, label_values, distinct_values, add_value,
  label,
}
use llm_metrics_exporter.Base.Order.{sort_by, insert_by}
use llm_metrics_exporter.Adapter.Builder.Schema.{AllShaped}
use llm_metrics_exporter.Engines.Detect.{
  Mapping, by_vllm, map_by, detect, has_mlx, decide, matches, is_vllm, is_llamacpp, is_sglang,
  candidate, detected, with_model,
}
use llm_metrics_exporter.Engines.Tensorfold.{is_patch_0150, is_native}
use llm_metrics_exporter.Engines.Detect.Shape.{map_by-AllShaped}
use llm_metrics_exporter.Engines.Detect.Evidence.{detect-Evidence, signature}

abbrev counting : String → ℕ → Series ℕ
counting engine n = record {
  labels = ("model_name", "m") ∷ ("engine", engine) ∷ [];
  counter = some n;
  gauge = none;
  untyped = none;
  histogram = none;
}

abbrev exposition : Families ℕ
exposition =
    (
      "vllm:generation_tokens_total",
      record { type = other_type; series = counting "0" 3 ∷ counting "1" 4 ∷ [] },
    )
    ∷ ("vllm:cache_config_info", record { type = other_type; series = counting "0" 1 ∷ [] })
    ∷ []

map_by-AllShaped_example :
    AllShaped whole_floats (map_by whole_floats by_vllm exposition "m").result.samples
map_by-AllShaped_example = map_by-AllShaped whole_floats by_vllm exposition "m"

detect-Evidence_example :
    (has_mlx exposition ≡ false)
    × ((chosen : Mapping) × ((detect exposition).0.mapping ≡ some chosen)
        × ((m : Mapping) → (signature exposition m ≡ true) ↔ (m ≡ chosen)))
unfolding detect decide has_mlx matches is_vllm is_llamacpp is_sglang candidate is_patch_0150
    is_native detected with_model has series_of family label_values distinct_values add_value label
    sort_by insert_by
detect-Evidence_example = detect-Evidence exposition refl
