-- ===== src/Engines/Detect.antt =====
-- internal/engines/detect.go: which engine an exposition comes from. A candidate's mapping function is
-- a `Mapping`, which `map_by` runs.
pub mod Shape
pub mod Evidence
mod Examples
use llm_metrics_exporter.Base.{
  ℕ, Bool, true, false, not, ◌&&◌, ◌||◌, Option, none, some, List, [], ◌∷◌, ◌++◌, String, Bytes,
  codes, has_prefix, str_eq, if◌then◌else◌,
}
use llm_metrics_exporter.Base.Floats.{Floats}
use llm_metrics_exporter.Promtext.{Families, Family, has, label_values}
use llm_metrics_exporter.Engines.{Mapped, Info}
use llm_metrics_exporter.Engines.Vllm
use llm_metrics_exporter.Engines.Llamacpp
use llm_metrics_exporter.Engines.Sglang
use llm_metrics_exporter.Engines.Tensorfold
use llm_metrics_exporter.Engines.Vllm.{vllm_map}
use llm_metrics_exporter.Engines.Llamacpp.{llamacpp_map}
use llm_metrics_exporter.Engines.Sglang.{sglang_map}
use llm_metrics_exporter.Engines.Tensorfold.{
  is_patch_0150, is_native, map_patch_0150, map_native, tensorfold_map,
}

pub data Mapping : Type 0 where
  by_vllm by_llamacpp by_sglang by_patch_0150 by_native by_tensorfold : Mapping

pub map_by : (fl : Floats) → Mapping → Families fl.F → String → Mapped fl.F
map_by fl by_vllm = vllm_map fl
map_by fl by_llamacpp = llamacpp_map fl
map_by fl by_sglang = sglang_map fl
map_by fl by_patch_0150 = map_patch_0150 fl
map_by fl by_native = map_native fl
map_by fl by_tensorfold = tensorfold_map fl

pub data DetectError : Type 0 where
  unknown ambiguous unsupported : DetectError

pub record Detection : Type 0 where
  pub engine : String
  pub version : String
  pub model : String
  pub mapping : Option Mapping

pub no_detection : Detection
no_detection = record { engine = ""; version = ""; model = ""; mapping = none }

pub record Candidate : Type 0 where
  pub info : Info
  pub metric : String
  pub label : String
  pub mapping : Mapping

candidate : Bool → Candidate → List Candidate
candidate true c = c ∷ []
candidate false c = []

-- The end of Detect: the model that the candidate's label names.
with_model : Detection → List String → Detection × Option DetectError
with_model d [] = (d, none)
with_model d (m ∷ []) = (record d { model = m }, none)
with_model d (m ∷ n ∷ ms) = (d, some ambiguous)

module _ {F : Type 0} where
  -- The first loop: a family of mlx-serve, by the prefix of its name.
  pub has_mlx : Families F → Bool
  has_mlx [] = false
  has_mlx ((name, fam) ∷ fs) = has_prefix (codes name) (codes "mlx_serve:") || has_mlx fs

  pub is_vllm : Families F → Bool
  is_vllm f =
      has f "vllm:generation_tokens_total"
      && (has f "vllm:prompt_tokens_by_source_total" || has f "vllm:cache_config_info")
      && not (has_mlx f)

  pub is_llamacpp : Families F → Bool
  is_llamacpp f = has f "llamacpp:tokens_predicted_total" && has f "llamacpp:prompt_tokens_total"

  pub is_sglang : Families F → Bool
  is_sglang f = has f "sglang:generation_tokens_total" && has f "sglang:realtime_tokens_total"

  pub matches : Families F → List Candidate
  unfolding is_vllm is_llamacpp is_sglang candidate
  matches f =
      candidate (is_vllm f) (record {
        info = Vllm.info;
        metric = "vllm:generation_tokens_total";
        label = "model_name";
        mapping = by_vllm;
      })
      ++ (candidate (is_llamacpp f) (record {
        info = Llamacpp.info;
        metric = "llamacpp:tokens_predicted_total";
        label = "model";
        mapping = by_llamacpp;
      })
          ++ (candidate (is_sglang f) (record {
            info = Sglang.info;
            metric = "sglang:generation_tokens_total";
            label = "model_name";
            mapping = by_sglang;
          })
              ++ (candidate (is_patch_0150 f) (record {
                info = Tensorfold.info;
                metric = "";
                label = "";
                mapping = by_patch_0150;
              })
                  ++ candidate (is_native f) (record {
                    info = Tensorfold.info;
                    metric = "";
                    label = "";
                    mapping = by_native;
                  }))))

  detected : Families F → Candidate → Detection × Option DetectError
  unfolding with_model
  detected f c =
      let d : Detection = record {
        engine = c.info.engine;
        version = c.info.version;
        model = "";
        mapping = some c.mapping;
      } in
      if str_eq c.label "" then (d, none) else with_model d (label_values f c.metric c.label)

  decide : Families F → Bool → List Candidate → Detection × Option DetectError
  unfolding detected no_detection
  decide f true [] = (record no_detection { engine = "mlx-serve" }, some unsupported)
  decide f false [] = (no_detection, some unknown)
  decide f true (c ∷ cs) = (no_detection, some ambiguous)
  decide f false (c ∷ []) = detected f c
  decide f false (c ∷ d ∷ cs) = (no_detection, some ambiguous)

  -- Detect
  pub detect : Families F → Detection × Option DetectError
  unfolding decide
  detect f = decide f (has_mlx f) (matches f)
