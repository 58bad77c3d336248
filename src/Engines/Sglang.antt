-- ===== src/Engines/Sglang.antt =====
-- internal/adapter/sglang/sglang.go: SGLang's exposition.
pub mod Shape
use llm_metrics_exporter.Base.{
  ℕ, Bool, true, false, not, ◌&&◌, ◌||◌, Option, none, some, List, [], ◌∷◌, String, if◌then◌else◌,
  map,
}
use llm_metrics_exporter.Base.Floats.{Floats}
use llm_metrics_exporter.Metrics.{
  Def, Sample, prefill, decode, tokens, prompt_cached_tokens, request_phase_seconds,
  engine_phase_seconds, requests, requests_running, kv_cache_usage, time_to_first_token,
  spec_draft_tokens, spec_accepted_tokens, spec_verify_steps,
}
use llm_metrics_exporter.Promtext.{Families, Match, has, label_is, label_in, label_values, all_of}
use llm_metrics_exporter.Adapter.{
  Result, MapError, wrong_body, Selected, chosen, failed, select_model,
}
use llm_metrics_exporter.Adapter.Builder.{
  Builder, new_builder, new_worker_builder, value, histogram_sum, add_histogram,
}
use llm_metrics_exporter.Engines.{Mapped, Info, failed_map, built}

abbrev pub info : Info
info = record { engine = "sglang"; version = "2" }

-- One reporter per tensor, pipeline and expert-parallel group.
rank_zero : Match
rank_zero = all_of (
    some (label_in "tp_rank" ("" ∷ "0" ∷ []))
    ∷ some (label_in "pp_rank" ("" ∷ "0" ∷ []))
    ∷ some (label_in "moe_ep_rank" ("" ∷ "0" ∷ []))
    ∷ [])

mode : String → Option Match
mode m = some (label_is "mode" m)

module _ (fl : Floats) where
  open fl use {F}

  counted : Builder F → Builder F
  unfolding mode
  counted b =
      let b =
        value fl b tokens (prefill ∷ []) "sglang:realtime_tokens_total" (mode "prefill_compute") in
      let b =
        value fl b prompt_cached_tokens [] "sglang:realtime_tokens_total" (mode "prefill_cache") in
      let b = value fl b tokens (decode ∷ []) "sglang:realtime_tokens_total" (mode "decode") in
      let b = value fl b requests_running [] "sglang:num_running_reqs" none in
      let b = value fl b kv_cache_usage [] "sglang:token_usage" none in
      add_histogram fl b time_to_first_token "sglang:time_to_first_token_seconds" none

  of_model : Families F → Selected → Mapped F
  unfolding counted rank_zero
  of_model fams (failed e) = failed_map e
  of_model fams (chosen model) =
      built
        (counted (new_worker_builder fams (some (all_of (model ∷ some rank_zero ∷ []))) "dp_rank"))

  -- Map
  pub sglang_map : Families F → String → Mapped F
  unfolding of_model
  sglang_map fams served =
      if not (has fams "sglang:generation_tokens_total")
      then failed_map wrong_body
      else of_model fams (select_model fams "sglang:generation_tokens_total" "model_name" served)
