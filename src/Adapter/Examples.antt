-- ===== src/Adapter/Examples.antt =====
-- The theorems on the Builder and on SelectModel at a small exposition.
use llm_metrics_exporter.Base.{
  ℕ, ◌+◌, ◌≡◌, refl, none, some, [], ◌∷◌, String, contains, Distinct, codes,
}
use llm_metrics_exporter.Base.Order.{Ordered}
use llm_metrics_exporter.Base.Floats.{whole_floats}
use llm_metrics_exporter.Metrics.{tokens, decode}
use llm_metrics_exporter.Promtext.{Families, Series, other_type, series_of, label_values, sum}
use llm_metrics_exporter.Promtext.Selection.{carried, label_values_lem}
use llm_metrics_exporter.Adapter.{select_model}
use llm_metrics_exporter.Adapter.Models.{Kept, select_model-Kept}
use llm_metrics_exporter.Adapter.Builder.{Builder, new_worker_builder, value, selected_by}
use llm_metrics_exporter.Adapter.Builder.Partition.{value-total, samples_total}

abbrev pub counting : String → String → ℕ → Series ℕ
counting model engine n = record {
  labels = ("model_name", model) ∷ ("engine", engine) ∷ [];
  counter = some n;
  gauge = none;
  untyped = none;
  histogram = none;
}

-- Two engines of one model, and one of another.
abbrev pub exposition : Families ℕ
exposition =
    (
      "vllm:generation_tokens_total",
      record {
        type = other_type;
        series = counting "m" "0" 3 ∷ counting "m" "1" 4 ∷ counting "n" "0" 5 ∷ [];
      },
    )
    ∷ []

abbrev builder : Builder ℕ
unfolding new_worker_builder
builder = new_worker_builder exposition none "engine"

value-total_example :
    samples_total
      (value whole_floats builder tokens (decode ∷ []) "vllm:generation_tokens_total" none).samples
    ≡ 0
      + (sum whole_floats exposition "vllm:generation_tokens_total"
          (some (selected_by builder none))).0
unfolding builder
value-total_example =
    value-total tokens (decode ∷ []) "vllm:generation_tokens_total" none builder refl

label_values_lem_example :
    ((v : String)
      → contains (label_values exposition "vllm:generation_tokens_total" "model_name") v
        ≡ carried (series_of exposition "vllm:generation_tokens_total") "model_name" v)
    × Distinct (label_values exposition "vllm:generation_tokens_total" "model_name")
    × Ordered codes (label_values exposition "vllm:generation_tokens_total" "model_name")
label_values_lem_example = label_values_lem exposition "vllm:generation_tokens_total" "model_name"

select_model-Kept_example :
    Kept
      (series_of exposition "vllm:generation_tokens_total")
      "model_name"
      "n"
      (select_model exposition "vllm:generation_tokens_total" "model_name" "n")
select_model-Kept_example =
    select_model-Kept exposition "vllm:generation_tokens_total" "model_name" "n"
