-- ===== src/Engines/Llamacpp.antt =====
-- internal/adapter/llamacpp/llamacpp.go: llama-server's exposition.
pub mod Shape
use llm_metrics_exporter.Base.{
  ℕ, Bool, true, false, not, ◌&&◌, ◌||◌, Option, none, some, List, [], ◌∷◌, String, if◌then◌else◌,
  map,
}
use llm_metrics_exporter.Base.Floats.{Floats}
use llm_metrics_exporter.Metrics.{
  Def, Sample, prefill, decode, tokens, prompt_cached_tokens, request_phase_seconds,
  engine_phase_seconds, requests, requests_running, kv_cache_usage, time_to_first_token,
  spec_draft_tokens, spec_accepted_tokens, spec_verify_steps,
}
use llm_metrics_exporter.Promtext.{Families, Match, has, label_is, label_in, label_values, all_of}
use llm_metrics_exporter.Adapter.{
  Result, MapError, wrong_body, Selected, chosen, failed, select_model,
}
use llm_metrics_exporter.Adapter.Builder.{
  Builder, new_builder, new_worker_builder, value, histogram_sum, add_histogram,
}
use llm_metrics_exporter.Engines.{Mapped, Info, failed_map, built}

abbrev pub info : Info
info = record { engine = "llamacpp"; version = "1" }

module _ (fl : Floats) where
  open fl use {F}

  -- The clock of the prompt time: the engine's after the rewrite of the metrics, the request's before.
  prefill_clock : Families F → Def
  prefill_clock fams =
      if has fams "llamacpp:prompt_tokens_cached_total"
      then engine_phase_seconds
      else request_phase_seconds

  counted : Families F → Builder F → Builder F
  unfolding prefill_clock
  counted fams b =
      let b = value fl b tokens (prefill ∷ []) "llamacpp:prompt_tokens_total" none in
      let b = value fl b tokens (decode ∷ []) "llamacpp:tokens_predicted_total" none in
      let b = value fl b prompt_cached_tokens [] "llamacpp:prompt_tokens_cached_total" none in
      let b = value fl b (prefill_clock fams) (prefill ∷ []) "llamacpp:prompt_seconds_total" none in
      let b =
        value fl b request_phase_seconds (decode ∷ []) "llamacpp:tokens_predicted_seconds_total"
          none in
      let b = value fl b requests_running [] "llamacpp:requests_processing" none in
      let b = value fl b spec_draft_tokens [] "llamacpp:spec_decode_num_draft_tokens_total" none in
      let b =
        value fl b spec_accepted_tokens [] "llamacpp:spec_decode_num_accepted_tokens_total" none in
      value fl b spec_verify_steps [] "llamacpp:spec_decode_num_drafts_total" none

  of_model : Families F → Selected → Mapped F
  unfolding counted
  of_model fams (failed e) = failed_map e
  of_model fams (chosen model) = built (counted fams (new_builder fams model))

  -- Map
  pub llamacpp_map : Families F → String → Mapped F
  unfolding of_model
  llamacpp_map fams served =
      if not (has fams "llamacpp:tokens_predicted_total")
      then failed_map wrong_body
      else of_model fams (select_model fams "llamacpp:tokens_predicted_total" "model" served)
