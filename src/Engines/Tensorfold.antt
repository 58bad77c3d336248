-- ===== src/Engines/Tensorfold.antt =====
-- internal/adapter/tensorfold/tensorfold.go and native.go: TensorFold's two expositions.
pub mod Shape
pub mod RequestLog
use llm_metrics_exporter.Base.{
  ℕ, Bool, true, false, not, ◌&&◌, ◌||◌, Option, none, some, List, [], ◌∷◌, String, if◌then◌else◌,
  map,
}
use llm_metrics_exporter.Base.Floats.{Floats}
use llm_metrics_exporter.Metrics.{
  Def, Sample, prefill, decode, tokens, prompt_cached_tokens, request_phase_seconds,
  engine_phase_seconds, requests, requests_running, kv_cache_usage, time_to_first_token,
  spec_draft_tokens, spec_accepted_tokens, spec_verify_steps,
}
use llm_metrics_exporter.Promtext.{Families, Match, has, label_is, label_in, label_values, all_of}
use llm_metrics_exporter.Adapter.{
  Result, MapError, wrong_body, Selected, chosen, failed, select_model,
}
use llm_metrics_exporter.Adapter.Builder.{
  Builder, new_builder, new_worker_builder, value, histogram_sum, add_histogram,
}
use llm_metrics_exporter.Engines.{Mapped, Info, failed_map, built}

abbrev pub info : Info
info = record { engine = "tensorfold"; version = "3" }

abbrev patch_decode : String
patch_decode = "tensorfold_completion_tokens_total"

abbrev patch_prompt : String
patch_prompt = "tensorfold_prompt_tokens_total"

abbrev native_decode : String
native_decode = "tensorfold:generation_tokens_total"

abbrev native_prompt : String
native_prompt = "tensorfold:prompt_tokens_total"

unfoldable pub is_patch_0150 : {F : Type 0} → Families F → Bool
is_patch_0150 fams = has fams patch_decode && has fams patch_prompt

unfoldable pub is_native : {F : Type 0} → Families F → Bool
is_native fams = has fams native_decode && has fams native_prompt

module _ (fl : Floats) where
  open fl use {F}

  native_counted : Builder F → Builder F
  native_counted b =
      let b = value fl b tokens (decode ∷ []) native_decode none in
      let b = value fl b prompt_cached_tokens [] "tensorfold_health:cached_tokens_total" none in
      let b =
        value fl b request_phase_seconds (prefill ∷ []) "tensorfold_health:prefill_seconds_total"
          none in
      let b =
        value fl b request_phase_seconds (decode ∷ []) "tensorfold_health:decode_seconds_total"
          none in
      let b = value fl b requests_running [] "tensorfold:requests_running" none in
      let b =
        add_histogram fl b time_to_first_token "tensorfold:time_to_first_token_seconds" none in
      let b = value fl b spec_draft_tokens [] "tensorfold:mtp_drafted_total" none in
      value fl b spec_accepted_tokens [] "tensorfold:mtp_accepted_total" none

  native_of : Families F → Selected → Mapped F
  unfolding native_counted
  native_of fams (failed e) = failed_map e
  native_of fams (chosen model) = built (native_counted (new_builder fams model))

  -- MapNative
  pub map_native : Families F → String → Mapped F
  unfolding native_of
  map_native fams served =
      if not (has fams native_decode) || has fams patch_decode
      then failed_map wrong_body
      else native_of fams (select_model fams native_decode "model" served)

  patch_counted : Builder F → Builder F
  patch_counted b =
      let b = value fl b tokens (decode ∷ []) "tensorfold_completion_tokens_total" none in
      let b = value fl b prompt_cached_tokens [] "tensorfold_cached_tokens_total" none in
      let b =
        value fl b request_phase_seconds (prefill ∷ []) "tensorfold_prefill_seconds_total" none in
      value fl b request_phase_seconds (decode ∷ []) "tensorfold_decode_seconds_total" none

  patch_of : Families F → Selected → Mapped F
  unfolding patch_counted
  patch_of fams (failed e) = failed_map e
  patch_of fams (chosen model) = built (patch_counted (new_builder fams model))

  -- MapPatch0150
  pub map_patch_0150 : Families F → String → Mapped F
  unfolding patch_of
  map_patch_0150 fams served =
      if not (has fams patch_decode) || has fams native_decode
      then failed_map wrong_body
      else patch_of fams (select_model fams patch_decode "model" served)

  -- Map
  pub tensorfold_map : Families F → String → Mapped F
  tensorfold_map fams served =
      if has fams native_decode && has fams patch_decode
      then failed_map wrong_body
      else if has fams native_decode
      then map_native fams served
      else map_patch_0150 fams served
