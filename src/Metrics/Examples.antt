-- ===== src/Metrics/Examples.antt =====
-- Samples and keys, and the theorems of Metrics at these inputs.
use llm_metrics_exporter.Base.{ℕ, ◌≡◌, ◌↔◌, refl, none, some, List, [], ◌∷◌, String, arith}
use llm_metrics_exporter.Base.Floats.{whole_floats}
use llm_metrics_exporter.Metrics.{
  Sample, tokens, requests, decode, worker_id, validate, validate_def, check_value, check_labels,
  is_adapter_name, has_name, falling_bucket, time_to_first_token, validate_hist,
}
use llm_metrics_exporter.Metrics.Bounds.{IsOrder}
use llm_metrics_exporter.Metrics.Canonical.{IsCanonical, validate-IsCanonical}
use llm_metrics_exporter.Metrics.Keys.{Clean, key-injective}

abbrev decoded : Sample ℕ
decoded = record { worker = "0"; def = some tokens; labels = decode ∷ []; value = 42; hist = none }

decoded_accepted : validate whole_floats decoded ≡ none
unfolding validate validate_def check_value check_labels is_adapter_name has_name
decoded_accepted = refl

-- Histograms whose buckets are not in order, the second with a count that falls.
abbrev timed : List (ℕ × ℕ) → Sample ℕ
timed buckets = record {
  worker = "";
  def = some time_to_first_token;
  labels = [];
  value = 0;
  hist = some (record { count = 9; sum = 3; buckets = buckets });
}

rising_accepted : validate whole_floats (timed ((2, 5) ∷ (1, 4) ∷ [])) ≡ none
unfolding validate validate_def check_value check_labels is_adapter_name has_name validate_hist
rising_accepted = refl

falling_refused : validate whole_floats (timed ((2, 4) ∷ (1, 5) ∷ [])) ≡ some falling_bucket
unfolding validate validate_def check_value check_labels is_adapter_name has_name validate_hist
falling_refused = refl

whole-IsOrder : IsOrder whole_floats
whole-IsOrder = record {
  lt_numbers = λ x y h. (refl, refl);
  eq_numbers = λ x y h. (refl, refl);
  lt_asymm = λ x y h. ground (arith, h);
  lt_between = λ x y z n h. ground (arith, h);
  lt_total = λ x y p q h k. ground (arith, h, k);
  eq_self = λ x h. ground arith;
  eq_same = λ x y z h. ground (arith, h);
}

validate-IsCanonical_example :
    (validate whole_floats (timed ((2, 5) ∷ (1, 4) ∷ [])) ≡ none)
    ↔ IsCanonical whole_floats (timed ((2, 5) ∷ (1, 4) ∷ []))
validate-IsCanonical_example =
    validate-IsCanonical whole_floats whole-IsOrder (timed ((2, 5) ∷ (1, 4) ∷ []))
      ((refl, tt), (tt, tt))

abbrev stop : List String
stop = "stop" ∷ []

stop_Clean : Clean requests stop "0"
unfolding worker_id
stop_Clean = (omega arith, ((λ e. cc), omega arith, tt), omega arith)

key-injective_example :
    (requests.name ≡ requests.name) × (stop ≡ stop) × (worker_id "0" ≡ worker_id "0")
key-injective_example = key-injective requests requests stop stop "0" "0" stop_Clean stop_Clean refl
