-- ===== src/Discovery.antt =====
-- internal/discovery/discovery.go: probe, which identifies and measures one endpoint. What the endpoint
-- answers to each request is an argument. A text is valid UTF-8.
pub mod Evidence
mod Examples
use llm_metrics_exporter.Base.{
  ℕ, ◌+◌, Bool, true, false, not, ◌&&◌, ◌||◌, Option, none, some, List, [], ◌∷◌, String, Bytes,
  codes, str_eq, length, ltb, ◌==◌, if◌then◌else◌,
}
use llm_metrics_exporter.Base.Floats.{Floats}
use llm_metrics_exporter.Promtext.{Families, sum}
use llm_metrics_exporter.Adapter.{Result, MapError}
use llm_metrics_exporter.Engines.{Mapped}
use llm_metrics_exporter.Engines.Detect.{
  Detection, DetectError, unknown, ambiguous, unsupported, Mapping, map_by, detect,
}

pub data ProbeError : Type 0 where
  request_failed no_metadata request_changed engine_changed model_changed bad_identity no_mapping :
      ProbeError
  not_detected : DetectError → ProbeError
  not_mapped : MapError → ProbeError

-- The fields of an Observation that probe sets; the generation is that of the target and the start
-- time that is appended to it.
pub record Observation (F : Type 0) : Type 0 where
  pub engine : String
  pub model : String
  pub version : String
  pub state : String
  pub generation : String
  pub started : Option F
  pub result : Result F
  pub error : Option ProbeError

-- A space, or one of \x00, \t, \n and \r.
is_blank : ℕ → Bool
is_blank c = c == 0 || c == 9 || c == 10 || c == 13 || c == 32

any_blank : Bytes → Bool
unfolding is_blank
any_blank [] = false
any_blank (c ∷ cs) = is_blank c || any_blank cs

-- len of a string: the bytes of its UTF-8 form.
utf8_length : Bytes → ℕ
utf8_length [] = 0
utf8_length (c ∷ cs) =
    (if ltb c 128 then 1 else if ltb c 2048 then 2 else if ltb c 65536 then 3 else 4)
    + utf8_length cs

pub is_identity : String → Bool
unfolding any_blank utf8_length
is_identity model =
    not (str_eq model "" || ltb 512 (utf8_length (codes model)) || any_blank (codes model))

pub engine_of : String → String
engine_of engine = if str_eq engine "" then "unknown" else engine

state_of : DetectError → String
state_of unknown = "unknown"
state_of ambiguous = "ambiguous"
state_of unsupported = "unsupported"

started_of : {F : Type 0} → F × Bool → Option F
started_of (v, true) = some v
started_of (v, false) = none

module _ (fl : Floats) where
  open fl use {F}

  refused : Observation F → String → ProbeError → Observation F
  refused o state e = record o { state = state; error = some e }

  begin : String → Observation F
  begin generation = record {
    engine = "unknown";
    model = "unknown";
    version = "";
    state = "unavailable";
    generation = generation;
    started = none;
    result = record { samples = []; backlog_bytes = 0 };
    error = none;
  }

  by_error : Observation F → Result F → Option MapError → Observation F
  unfolding refused
  by_error o result (some e) = refused o "unavailable" (not_mapped e)
  by_error o result none = record o { state = "ready"; result = result }

  by_mapping : Observation F → Families F → String → Option Mapping → Observation F
  unfolding refused by_error
  by_mapping o f model none = refused o "unavailable" no_mapping
  by_mapping o f model (some m) =
      let mapped = map_by fl m f model in by_error o mapped.result mapped.error

  -- The end of probe: the measurement of a snapshot under a model name.
  measure : Observation F → Option Mapping → Families F → String → Observation F
  unfolding refused by_mapping started_of
  measure o mapping f model =
      if not (is_identity model)
      then refused o "identity_missing" bad_identity
      else by_mapping
          (record o {
            model = model;
            started = started_of (sum fl f "process_start_time_seconds" none);
          })
          f model mapping

  by_after :
      Observation F → Option Mapping → Families F → String → String → Option String → Observation F
  unfolding refused measure
  by_after o mapping f before again none = refused o "ambiguous" model_changed
  by_after o mapping f before again (some after) =
      if not (str_eq before after) || (not (str_eq again "") && not (str_eq again before))
      then refused o "ambiguous" model_changed
      else measure o mapping f before

  by_again :
      Observation F
      → Detection
      → Families F
      → String
      → Detection
      → Option DetectError
      → Option String
      → Observation F
  unfolding refused by_after
  by_again o d f before again (some e) after = refused o "ambiguous" engine_changed
  by_again o d f before again none after =
      if not (str_eq again.engine d.engine)
      then refused o "ambiguous" engine_changed
      else by_after o d.mapping f before again.model after

  by_second :
      Observation F → Detection → String → Option (Families F) → Option String → Observation F
  unfolding refused by_again
  by_second o d before none after = refused o o.state request_changed
  by_second o d before (some f) after = by_again o d f before (detect f).0 (detect f).1 after

  -- The model's name from the metadata, asked before and after a second snapshot.
  bracket :
      Observation F
      → Detection
      → Option String
      → Option (Families F)
      → Option String
      → Observation F
  unfolding refused by_second
  bracket o d none second after = refused o "identity_missing" no_metadata
  bracket o d (some before) second after = by_second o d before second after

  by_detection :
      Observation F
      → Families F
      → Detection
      → Option DetectError
      → Option String
      → Option (Families F)
      → Option String
      → Observation F
  unfolding refused measure bracket engine_of state_of
  by_detection o f d (some e) before second after =
      refused (record o { engine = engine_of d.engine; version = d.version }) (state_of e)
        (not_detected e)
  by_detection o f d none before second after =
      let o = record o { engine = engine_of d.engine; version = d.version } in
      if str_eq d.model "" then bracket o d before second after else measure o d.mapping f d.model

  -- probe: what the first request for metrics, the one for the model, the second one for metrics and
  -- the second one for the model answer.
  pub probe :
      String
      → Option (Families F)
      → Option String
      → Option (Families F)
      → Option String
      → Observation F
  unfolding refused begin by_detection
  probe generation none before second after =
      refused (begin generation) "unavailable" request_failed
  probe generation (some f) before second after =
      by_detection (begin generation) f (detect f).0 (detect f).1 before second after
