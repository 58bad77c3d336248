-- ===== src/Metrics.antt =====
-- internal/metrics/metrics.go: the canonical schema, and the test that a sample fits it.
-- Help texts are left out. A Go string is a native String; a map[float64]uint64 is a list of pairs.
pub mod Canonical
pub mod Keys
pub mod Bounds
pub mod Cumulative
pub mod Examples
use mathlib.Core.List.{filter}
use llm_metrics_exporter.Base.{
  ℕ, zero, suc, Bool, true, false, not, ◌&&◌, ◌||◌, Option, none, some, List, [], ◌∷◌, ◌++◌, String,
  Bytes, codes, length, has_suffix, ltb, ◌==◌, str_eq, if◌then◌else◌, map,
}
use llm_metrics_exporter.Base.Floats.{Floats}

pub data Kind : Type 0 where
  counter gauge histogram : Kind

pub record Def : Type 0 where
  pub name : String
  pub kind : Kind
  pub labels : List String
  pub identity : Bool

abbrev pub identity_labels : List String
identity_labels = "engine" ∷ "model" ∷ "backend" ∷ "host" ∷ "nodes" ∷ []

abbrev pub prefill : String
prefill = "prefill"

abbrev pub decode : String
decode = "decode"

-- Def{Identity: true} with the other fields.
abbrev measured : String → Kind → List String → Def
measured name kind labels = record { name = name; kind = kind; labels = labels; identity = true }

abbrev pub tokens : Def
tokens = measured "llme_tokens_total" counter ("phase" ∷ [])

abbrev pub prompt_cached_tokens : Def
prompt_cached_tokens = measured "llme_prompt_cached_tokens_total" counter []

abbrev pub request_phase_seconds : Def
request_phase_seconds = measured "llme_request_phase_seconds_total" counter ("phase" ∷ [])

abbrev pub engine_phase_seconds : Def
engine_phase_seconds = measured "llme_engine_phase_seconds_total" counter ("phase" ∷ [])

abbrev pub requests : Def
requests = measured "llme_requests_total" counter ("status" ∷ [])

abbrev pub requests_running : Def
requests_running = measured "llme_requests_running" gauge []

abbrev pub kv_cache_usage : Def
kv_cache_usage = measured "llme_kv_cache_usage_ratio" gauge []

abbrev pub time_to_first_token : Def
time_to_first_token = measured "llme_time_to_first_token_seconds" histogram []

abbrev pub spec_draft_tokens : Def
spec_draft_tokens = measured "llme_spec_draft_tokens_total" counter []

abbrev pub spec_accepted_tokens : Def
spec_accepted_tokens = measured "llme_spec_accepted_tokens_total" counter []

abbrev pub spec_verify_steps : Def
spec_verify_steps = measured "llme_spec_verify_steps_total" counter []

abbrev pub engine_up : Def
engine_up = measured "llme_engine_up" gauge []

abbrev pub registration_mismatch : Def
registration_mismatch = measured "llme_exporter_registration_mismatch" gauge []

abbrev pub arm_info : Def
arm_info =
    measured "llme_exporter_arm_info" gauge ("issue" ∷ "adapter_version" ∷ "exporter_version" ∷ [])

abbrev pub scrape_errors : Def
scrape_errors = measured "llme_exporter_scrape_errors_total" counter []

abbrev pub last_success : Def
last_success = measured "llme_exporter_last_success_timestamp_seconds" gauge []

abbrev pub registration_invalid : Def
registration_invalid = record {
  name = "llme_exporter_registration_invalid";
  kind = gauge;
  labels = "engine" ∷ "model" ∷ "host" ∷ "file" ∷ [];
  identity = false;
}

abbrev pub backlog_bytes : Def
backlog_bytes = measured "llme_exporter_telemetry_backlog_bytes" gauge []

abbrev pub metric_available : Def
metric_available = measured "llme_exporter_metric_available" gauge ("metric" ∷ "phase" ∷ [])

abbrev pub discovery_status : Def
discovery_status = measured "llme_exporter_discovery_status" gauge ("state" ∷ [])

abbrev pub discovery_changed : Def
discovery_changed = measured "llme_exporter_discovery_changed_timestamp_seconds" gauge []

abbrev pub unknown : String
unknown = "unknown"

abbrev pub adapter_defs : List Def
adapter_defs =
    tokens ∷ prompt_cached_tokens ∷ request_phase_seconds ∷ engine_phase_seconds ∷ requests
    ∷ requests_running ∷ kv_cache_usage ∷ time_to_first_token ∷ spec_draft_tokens
    ∷ spec_accepted_tokens ∷ spec_verify_steps ∷ []

abbrev pub exporter_defs : List Def
exporter_defs =
    backlog_bytes ∷ metric_available ∷ discovery_status ∷ discovery_changed ∷ engine_up
    ∷ registration_mismatch ∷ arm_info ∷ scrape_errors ∷ last_success ∷ registration_invalid ∷ []

unfoldable pub has_name : String → List Def → Bool
has_name name [] = false
has_name name (d ∷ ds) = str_eq d.name name || has_name name ds

-- adapterNames[name]
unfoldable pub is_adapter_name : String → Bool
is_adapter_name name = has_name name adapter_defs

-- The full label list of a series.
pub all_labels : Def → List String
unfolding is_adapter_name has_name
all_labels d =
    if not d.identity
    then d.labels
    else identity_labels ++ d.labels ++ (if is_adapter_name d.name then "worker" ∷ [] else [])

-- A histogram snapshot, with cumulative buckets keyed by upper bound.
pub record Hist (F : Type 0) : Type 0 where
  pub count : ℕ
  pub sum : F
  pub buckets : List (F × ℕ)

pub record Sample (F : Type 0) : Type 0 where
  pub worker : String
  pub def : Option Def
  pub labels : List String
  pub value : F
  pub hist : Option (Hist F)

pub data Invalid : Type 0 where
  no_definition not_emitted label_count empty_label bad_phase no_histogram falling_bucket
        bucket_above_total bad_counter bad_gauge bad_ratio :
      Invalid

-- The loop over Def.Labels: s.Labels[i] is the value of the i-th label.
check_labels : List String → List String → Option Invalid
check_labels [] vs = none
check_labels (l ∷ ls) [] = none
check_labels (l ∷ ls) (v ∷ vs) =
    if str_eq v ""
    then some empty_label
    else if str_eq l "phase" && not (str_eq v prefill) && not (str_eq v decode)
    then some bad_phase
    else check_labels ls vs

module _ (fl : Floats) where
  open fl use {F, zero as zero_float, one, lt, eq, is_nan, is_inf}

  -- The order of sort.Float64s: a NaN comes before the numbers.
  pub before : F → F → Bool
  before x y = lt x y || (is_nan x && not (is_nan y))

  pub insert_bound : F → List F → List F
  unfolding before
  insert_bound b [] = b ∷ []
  insert_bound b (c ∷ cs) = if before c b then c ∷ insert_bound b cs else b ∷ c ∷ cs

  -- sort.Float64s
  pub sort_bounds : List F → List F
  unfolding insert_bound
  sort_bounds [] = []
  sort_bounds (b ∷ bs) = insert_bound b (sort_bounds bs)

  -- h.Buckets[b]; a missing key reads as 0.
  pub bucket : List (F × ℕ) → F → ℕ
  bucket [] b = 0
  bucket ((c, n) ∷ m) b = if eq c b then n else bucket m b

  pub check_buckets : Hist F → ℕ → List F → Option Invalid
  unfolding bucket
  check_buckets h prev [] = none
  check_buckets h prev (b ∷ bs) =
      if ltb (bucket h.buckets b) prev
      then some falling_bucket
      else if ltb h.count (bucket h.buckets b)
      then some bucket_above_total
      else check_buckets h (bucket h.buckets b) bs

  pub validate_hist : Option (Hist F) → Option Invalid
  unfolding check_buckets sort_bounds
  validate_hist none = some no_histogram
  validate_hist (some h) = check_buckets h 0 (sort_bounds (map (λ p. p.0) h.buckets))

  check_value : Def → Sample F → Option Invalid
  unfolding validate_hist
  check_value d s = elim d.kind [
    | histogram ↦ validate_hist s.hist
    | counter ↦
        if is_nan s.value || is_inf s.value || lt s.value zero_float then some bad_counter else none
    | gauge ↦
        if is_nan s.value || is_inf s.value
        then some bad_gauge
        else if has_suffix (codes d.name) (codes "_ratio")
            && (lt s.value zero_float || lt one s.value)
        then some bad_ratio
        else none
  ]

  validate_def : Def → Sample F → Option Invalid
  unfolding check_value check_labels is_adapter_name has_name
  validate_def d s =
      if not (is_adapter_name d.name)
      then some not_emitted
      else if not (length s.labels == length d.labels)
      then some label_count
      else elim (check_labels d.labels s.labels) [ some e ↦ some e | none ↦ check_value d s ]

  -- Refuses a sample that does not fit the canonical schema; none is acceptance.
  pub validate : Sample F → Option Invalid
  unfolding validate_def
  validate s = elim s.def [ none ↦ some no_definition | some d ↦ validate_def d s ]

pub worker_id : String → String
worker_id worker = if str_eq worker "" then "default" else worker

-- strings.Join(parts, "\x00")
pub join_nul : List Bytes → Bytes
join_nul [] = []
join_nul (p ∷ []) = p
join_nul (p ∷ q ∷ ps) = p ++ (0 ∷ join_nul (q ∷ ps))

-- Identifies the series that a sample belongs to within one arm. The source reads s.Def.Name, so
-- the definition is an argument.
pub key : Def → List String → String → Bytes
unfolding join_nul worker_id
key d labels worker =
    codes d.name ++ (0 ∷ (join_nul (map codes labels) ++ (0 ∷ codes (worker_id worker))))
