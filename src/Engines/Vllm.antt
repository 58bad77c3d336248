-- ===== src/Engines/Vllm.antt =====
-- internal/adapter/vllm/vllm.go: vLLM's exposition.
pub mod Shape
use mathlib.Core.List.{foldl}
use llm_metrics_exporter.Base.{
  ℕ, Bool, true, false, not, ◌&&◌, ◌||◌, Option, none, some, List, [], ◌∷◌, String, if◌then◌else◌,
  map,
}
use llm_metrics_exporter.Base.Floats.{Floats}
use llm_metrics_exporter.Metrics.{
  Def, Sample, prefill, decode, tokens, prompt_cached_tokens, request_phase_seconds,
  engine_phase_seconds, requests, requests_running, kv_cache_usage, time_to_first_token,
  spec_draft_tokens, spec_accepted_tokens, spec_verify_steps,
}
use llm_metrics_exporter.Promtext.{Families, Match, has, label_is, label_in, label_values, all_of}
use llm_metrics_exporter.Adapter.{
  Result, MapError, wrong_body, Selected, chosen, failed, select_model,
}
use llm_metrics_exporter.Adapter.Builder.{
  Builder, new_builder, new_worker_builder, value, histogram_sum, add_histogram,
}
use llm_metrics_exporter.Engines.{Mapped, Info, failed_map, built}

abbrev pub info : Info
info = record { engine = "vllm"; version = "2" }

module _ (fl : Floats) where
  open fl use {F}

  -- The loop over the finish reasons.
  finished : Builder F → String → Builder F
  finished b reason =
      value fl b requests (reason ∷ []) "vllm:request_success_total"
        (some (label_is "finished_reason" reason))

  counted : Families F → Builder F → Builder F
  unfolding finished
  counted fams b =
      let b =
        value fl b tokens (prefill ∷ []) "vllm:prompt_tokens_by_source_total"
          (some (label_is "source" "local_compute")) in
      let b = value fl b tokens (decode ∷ []) "vllm:generation_tokens_total" none in
      let b = value fl b prompt_cached_tokens [] "vllm:prompt_tokens_cached_total" none in
      let b =
        histogram_sum fl b request_phase_seconds (prefill ∷ []) "vllm:request_prefill_time_seconds"
          none in
      let b =
        histogram_sum fl b request_phase_seconds (decode ∷ []) "vllm:request_decode_time_seconds"
          none in
      let b = foldl finished b (label_values fams "vllm:request_success_total" "finished_reason") in
      let b = value fl b requests_running [] "vllm:num_requests_running" none in
      let b = value fl b kv_cache_usage [] "vllm:kv_cache_usage_perc" none in
      let b = add_histogram fl b time_to_first_token "vllm:time_to_first_token_seconds" none in
      let b = value fl b spec_draft_tokens [] "vllm:spec_decode_num_draft_tokens_total" none in
      let b =
        value fl b spec_accepted_tokens [] "vllm:spec_decode_num_accepted_tokens_total" none in
      value fl b spec_verify_steps [] "vllm:spec_decode_num_drafts_total" none

  of_model : Families F → Selected → Mapped F
  unfolding counted
  of_model fams (failed e) = failed_map e
  of_model fams (chosen model) = built (counted fams (new_worker_builder fams model "engine"))

  -- Map
  pub vllm_map : Families F → String → Mapped F
  unfolding of_model
  vllm_map fams served =
      if not (has fams "vllm:generation_tokens_total")
      then failed_map wrong_body
      else of_model fams (select_model fams "vllm:generation_tokens_total" "model_name" served)
