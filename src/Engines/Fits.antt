-- ===== src/Engines/Fits.antt =====
-- The definitions that the engines' mappings use, with the labels that they give them.
use llm_metrics_exporter.Base.{refl, inl, inr, [], ◌∷◌, String}
use llm_metrics_exporter.Metrics.{
  prefill, decode, tokens, prompt_cached_tokens, request_phase_seconds, engine_phase_seconds,
  requests, requests_running, kv_cache_usage, time_to_first_token, spec_draft_tokens,
  spec_accepted_tokens, spec_verify_steps, is_adapter_name, has_name,
}
use llm_metrics_exporter.Adapter.Builder.Schema.{Fits}

pub tokens-Fits-prefill : Fits tokens (prefill ∷ [])
unfolding is_adapter_name has_name
tokens-Fits-prefill = (refl, refl, (λ h. inl refl, tt))

pub tokens-Fits-decode : Fits tokens (decode ∷ [])
unfolding is_adapter_name has_name
tokens-Fits-decode = (refl, refl, (λ h. inr refl, tt))

pub request_phase_seconds-Fits-prefill : Fits request_phase_seconds (prefill ∷ [])
unfolding is_adapter_name has_name
request_phase_seconds-Fits-prefill = (refl, refl, (λ h. inl refl, tt))

pub request_phase_seconds-Fits-decode : Fits request_phase_seconds (decode ∷ [])
unfolding is_adapter_name has_name
request_phase_seconds-Fits-decode = (refl, refl, (λ h. inr refl, tt))

pub engine_phase_seconds-Fits-prefill : Fits engine_phase_seconds (prefill ∷ [])
unfolding is_adapter_name has_name
engine_phase_seconds-Fits-prefill = (refl, refl, (λ h. inl refl, tt))

pub engine_phase_seconds-Fits-decode : Fits engine_phase_seconds (decode ∷ [])
unfolding is_adapter_name has_name
engine_phase_seconds-Fits-decode = (refl, refl, (λ h. inr refl, tt))

pub prompt_cached_tokens-Fits : Fits prompt_cached_tokens []
unfolding is_adapter_name has_name
prompt_cached_tokens-Fits = (refl, refl, tt)

pub requests_running-Fits : Fits requests_running []
unfolding is_adapter_name has_name
requests_running-Fits = (refl, refl, tt)

pub kv_cache_usage-Fits : Fits kv_cache_usage []
unfolding is_adapter_name has_name
kv_cache_usage-Fits = (refl, refl, tt)

pub time_to_first_token-Fits : Fits time_to_first_token []
unfolding is_adapter_name has_name
time_to_first_token-Fits = (refl, refl, tt)

pub spec_draft_tokens-Fits : Fits spec_draft_tokens []
unfolding is_adapter_name has_name
spec_draft_tokens-Fits = (refl, refl, tt)

pub spec_accepted_tokens-Fits : Fits spec_accepted_tokens []
unfolding is_adapter_name has_name
spec_accepted_tokens-Fits = (refl, refl, tt)

pub spec_verify_steps-Fits : Fits spec_verify_steps []
unfolding is_adapter_name has_name
spec_verify_steps-Fits = (refl, refl, tt)

pub requests-Fits : (reason : String) → Fits requests (reason ∷ [])
unfolding is_adapter_name has_name
requests-Fits reason = (refl, refl, (λ h. cc, tt))
