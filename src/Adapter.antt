-- ===== src/Adapter.antt =====
-- internal/adapter/adapter.go: one collection's result, and the choice of the model's series.
-- Adapter/Builder is the Builder, by which an engine's series become samples.
pub mod Builder
pub mod Models
mod Examples
use llm_metrics_exporter.Base.{
  ℕ, Bool, true, false, Option, none, some, List, [], ◌∷◌, String, str_eq, contains, if◌then◌else◌,
}
use llm_metrics_exporter.Metrics.{Sample}
use llm_metrics_exporter.Promtext.{Families, Match, label_is, label_values}

pub record Result (F : Type 0) : Type 0 where
  pub samples : List (Sample F)
  pub backlog_bytes : ℕ

pub data MapError : Type 0 where
  -- a body of another engine
  wrong_body : MapError
  -- no served_model and several upstream models
  several_models : List String → MapError
  -- MismatchError
  mismatch : String → List String → MapError
  -- the error of a Builder
  unequal_bounds : MapError
  -- the error of FetchMetrics
  not_fetched : MapError

-- errors.Is(err, ErrModelMismatch)
pub is_model_mismatch : MapError → Bool
is_model_mismatch wrong_body = false
is_model_mismatch (several_models reported) = true
is_model_mismatch (mismatch want reported) = true
is_model_mismatch unequal_bounds = false
is_model_mismatch not_fetched = false

-- A Match to use, nil included, or an error.
pub data Selected : Type 0 where
  chosen : Option Match → Selected
  failed : MapError → Selected

-- SelectModel without served_model, and with it.
unfoldable pub select_any : List String → Selected
select_any [] = chosen none
select_any (m ∷ []) = chosen none
select_any (m ∷ n ∷ ms) = failed (several_models (m ∷ n ∷ ms))

unfoldable pub select_served : List String → String → String → Selected
select_served [] name served = chosen none
select_served (m ∷ ms) name served =
    if contains (m ∷ ms) served
    then chosen (some (label_is name served))
    else failed (mismatch served (m ∷ ms))

unfoldable pub select_model : {F : Type 0} → Families F → String → String → String → Selected
unfolding select_any select_served
select_model fs metric name served =
    let reported = label_values fs metric name in
    if str_eq served "" then select_any reported else select_served reported name served
