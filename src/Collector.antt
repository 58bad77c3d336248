-- ===== src/Collector.antt =====
-- internal/collector/collector.go: what one arm contributes to a scrape. An emitted series is its
-- definition, its value or histogram and its label values; a float64 is a `Floats`. The log is left
-- out, and building the metric is the client library's.
pub mod Report
pub mod Lifecycle
pub mod Sync
mod Examples
use llm_metrics_exporter.Base.{
  ℕ, ◌+◌, Bool, true, false, not, ◌&&◌, ◌||◌, Option, none, some, List, [], ◌∷◌, ◌++◌, String,
  Bytes, str_eq, same_bytes, ltb, ◌==◌, if◌then◌else◌,
}
use llm_metrics_exporter.Base.Floats.{Floats}
use llm_metrics_exporter.Metrics.{
  Def, Kind, Hist, Sample, counter, gauge, histogram, validate, key, worker_id, prefill, decode,
  unknown, tokens, prompt_cached_tokens, engine_up, registration_mismatch, arm_info, scrape_errors,
  last_success, backlog_bytes, metric_available,
}
use llm_metrics_exporter.Adapter.{Result}

-- The registration's fields that the report reads.
pub record Registration : Type 0 where
  pub engine : String
  pub model : String
  pub backend : String
  pub nodes : ℕ
  pub issue : ℕ

-- An error of a collection: whether it is a model mismatch, and its text.
pub record Failure : Type 0 where
  pub is_mismatch : Bool
  pub message : String

pub record Arm (F : Type 0) : Type 0 where
  pub reg : Registration
  pub version : String
  pub errors : F
  pub last_success : F
  pub last_err : String

pub data Value (F : Type 0) : Type 0 where
  number : F → Value F
  hist : ℕ → F → List (F × ℕ) → Value F

pub record Series (F : Type 0) : Type 0 where
  pub def : Def
  pub value : Value F
  pub labels : List String

-- strconv.Itoa of the node count and of the issue.
pub record Texts : Type 0 where
  pub itoa : ℕ → String

pub identity : Texts → Registration → String → List String
identity texts r host =
    r.engine
    ∷ r.model
    ∷ r.backend
    ∷ host
    ∷ (if r.nodes == 0 then unknown else texts.itoa r.nodes)
    ∷ []

-- seen[k]
pub holds : List Bytes → Bytes → Bool
holds [] k = false
holds (j ∷ js) k = same_bytes j k || holds js k

module _ (fl : Floats) where
  open fl use {F, is_pos_inf}

  -- The measurement that a line of MetricAvailable is about.
  is_measured : String → String → Sample F → Bool
  is_measured name phase s = elim (validate fl s) [
    | some e ↦ false
    | none ↦ elim s.def [
      | none ↦ false
      | some d ↦
          str_eq d.name name
          && (str_eq phase "none" || elim s.labels [ [] ↦ false | l ∷ ls ↦ str_eq l phase ])
    ]
  ]

  any_measured : String → String → List (Sample F) → Bool
  unfolding is_measured
  any_measured name phase [] = false
  any_measured name phase (s ∷ ss) = is_measured name phase s || any_measured name phase ss

  -- available: the collection succeeded, is caught up and has the measurement.
  pub available : Option Failure → Result F → String → String → Bool
  unfolding any_measured
  available (some e) res name phase = false
  available none res name phase = (res.backlog_bytes == 0) && any_measured name phase res.samples

  -- The buckets without +Inf, which the client library adds.
  finite : List (F × ℕ) → List (F × ℕ)
  finite [] = []
  finite ((b, n) ∷ bs) = let rest = finite bs in if is_pos_inf b then rest else (b, n) ∷ rest

  sample_value : Def → Sample F → Value F
  unfolding finite
  sample_value d s = elim d.kind [
    | histogram ↦ elim s.hist [
      | none ↦ number s.value
      | some h ↦ hist h.count h.sum (finite h.buckets)
    ]
    | counter ↦ number s.value
    | gauge ↦ number s.value
  ]

  -- One series of the engine, with the identity, the sample's labels and its worker.
  pub sample_series : List String → Def → Sample F → Series F
  unfolding sample_value
  sample_series id d s = record {
    def = d;
    value = sample_value d s;
    labels = id ++ (s.labels ++ (worker_id s.worker ∷ []));
  }

  -- A sample that fits its definition: the definition and the key.
  pub fitting : Sample F → Option (Def × Bytes)
  fitting s = elim (validate fl s) [
    | some e ↦ none
    | none ↦ elim s.def [ none ↦ none | some d ↦ some (d, key d s.labels s.worker) ]
  ]

  -- The last loop: invalid samples and duplicates are dropped.
  pub samples_series : List String → List Bytes → List (Sample F) → List (Series F)
  unfolding holds fitting sample_series
  samples_series id seen [] = []
  samples_series id seen (s ∷ ss) = elim (fitting s) [
    | none ↦ samples_series id seen ss
    | some (d, k) ↦
        let skip = samples_series id seen ss in
        let rest = samples_series id (k ∷ seen) ss in
        if holds seen k then skip else sample_series id d s ∷ rest
  ]

module _ (fl : Floats) (texts : Texts) (host exporter_version : String) where
  open fl use {F, zero as zero_float, one, add, of_uint}

  emit : Def → F → List String → Series F
  emit d v labels = record { def = d; value = number v; labels = labels }

  flag : Bool → F
  flag b = if b then one else zero_float

  -- errors++, lastErr and lastSuccess.
  pub noted : Arm F → Result F → Option Failure → F → Arm F
  noted a res (some e) now = record a { errors = add a.errors one; last_err = e.message }
  noted a res none now =
      if res.backlog_bytes == 0 then record a { last_success = now; last_err = "" } else a

  mismatch : Option Failure → Bool
  mismatch none = false
  mismatch (some e) = e.is_mismatch

  measurement : List String → Option Failure → Result F → String → String → Series F
  unfolding flag available emit
  measurement id err res name phase =
      emit metric_available (flag (available fl err res name phase)) (id ++ (name ∷ phase ∷ []))

  succeeded : Option Failure → Bool
  succeeded none = true
  succeeded (some e) = false

  -- The series that every arm has, whether it was read or not.
  pub arm_series : Arm F → Result F → Option Failure → List (Series F)
  unfolding emit flag mismatch measurement succeeded
  arm_series a res err =
      let id = identity texts a.reg host in
      emit engine_up (flag (succeeded err)) id
      ∷ emit registration_mismatch (flag (mismatch err)) id
      ∷ emit arm_info one (
          id
          ++ ((if ltb 0 a.reg.issue then texts.itoa a.reg.issue else "")
              ∷ (if str_eq a.version "" then "none" else a.version)
              ∷ exporter_version
              ∷ []))
      ∷ emit scrape_errors a.errors id
      ∷ emit last_success a.last_success id
      ∷ emit backlog_bytes (of_uint res.backlog_bytes) id
      ∷ measurement id err res tokens.name prefill
      ∷ measurement id err res tokens.name decode
      ∷ measurement id err res prompt_cached_tokens.name "none"
      ∷ []

  engine_series : Arm F → Result F → Option Failure → List (Series F)
  engine_series a res (some e) = []
  engine_series a res none = samples_series fl (identity texts a.reg host) [] res.samples

  -- report: the arm afterwards and the series, in the order in which they are sent.
  pub report : Arm F → Result F → Option Failure → F → Arm F × List (Series F)
  unfolding engine_series
  report a res err now =
      let after = noted a res err now in
      (after, arm_series after res err ++ engine_series after res err)
