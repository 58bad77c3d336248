-- ===== src/Engines.antt =====
-- internal/engines and the engines' adapters: what a mapping returns, and the compiled-in adapters.
pub mod Fits
pub mod Vllm
pub mod Llamacpp
pub mod Sglang
pub mod Tensorfold
pub mod Detect
use llm_metrics_exporter.Base.{
  ℕ, Option, none, some, List, [], ◌∷◌, String, Bool, if◌then◌else◌, ◌==◌,
}
use llm_metrics_exporter.Metrics.{Sample}
use llm_metrics_exporter.Promtext.{Families}
use llm_metrics_exporter.Adapter.{Result, MapError, unequal_bounds, not_fetched}
use llm_metrics_exporter.Adapter.Builder.{Builder}

-- Go returns a result and an error, which may both be there.
pub record Mapped (F : Type 0) : Type 0 where
  pub result : Result F
  pub error : Option MapError

-- adapter.Info, without the constructor.
pub record Info : Type 0 where
  pub engine : String
  pub version : String

module _ {F : Type 0} where
  -- return adapter.Result{}, err
  unfoldable pub failed_map : MapError → Mapped F
  failed_map e = record { result = record { samples = []; backlog_bytes = 0 }; error = some e }

  -- return adapter.Result{Samples: b.Samples()}, b.Err()
  unfoldable pub built : Builder F → Mapped F
  built b = record {
    result = record { samples = b.samples; backlog_bytes = 0 };
    error = if b.errors == 0 then none else some unequal_bounds;
  }

  -- Pull.Collect, with what FetchMetrics returns.
  pub pull_collect : (Families F → String → Mapped F) → String → Option (Families F) → Mapped F
  pull_collect mapping served none = failed_map not_fetched
  pull_collect mapping served (some fams) = mapping fams served
