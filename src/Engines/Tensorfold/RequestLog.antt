-- ===== src/Engines/Tensorfold/RequestLog.antt =====
-- internal/adapter/tensorfold/reqlog.go: finished requests by finish reason, counted from the request
-- log. json.Unmarshal is the parameter `decode`: none where it fails, and what it leaves in Finish.
pub mod Counting
mod Examples
use mathlib.Core.List.{foldl}
use llm_metrics_exporter.Base.{
  ℕ, ◌+◌, ◌%◌, ◌^◌, Bool, true, false, Option, none, some, List, [], ◌∷◌, ◌++◌, String, Bytes,
  str_eq, contains, ltb, if◌then◌else◌,
}
use llm_metrics_exporter.Base.Floats.{Floats}
use llm_metrics_exporter.Metrics.{Sample, requests}
use llm_metrics_exporter.Promtext.{Families}
use llm_metrics_exporter.Tail
use llm_metrics_exporter.Tail.{Reader, Open, Error, not_exist, io_error}
use llm_metrics_exporter.Adapter.{Result, MapError}
use llm_metrics_exporter.Engines.{Mapped, pull_collect}
use llm_metrics_exporter.Engines.Tensorfold.{tensorfold_map}

pub finishes : List String
finishes = "stop" ∷ "length" ∷ "tool_calls" ∷ "cancelled" ∷ "error" ∷ []

-- map[string]uint64
abbrev pub Finished : Type 0
Finished = List (String × ℕ)

pub get_finished : Finished → String → Option ℕ
get_finished [] status = none
get_finished ((k, n) ∷ m) status = if str_eq k status then some n else get_finished m status

-- a.finished[status]++
pub bump : Finished → String → Finished
bump [] status = (status, 1) ∷ []
bump ((k, n) ∷ m) status =
    if str_eq k status then (k, (n + 1) % 2 ^ 64) ∷ m else (k, n) ∷ bump m status

pub record LogAdapter : Type 0 where
  pub tail : Reader
  pub finished : Finished

-- Start
pub start : ℕ → LogAdapter
start max_read = record { tail = Tail.new max_read (2 ^ 20); finished = [] }

pub data Failure : Type 0 where
  not_mapped : MapError → Failure
  not_read : Error → Failure

pub data Outcome (F : Type 0) : Type 0 where
  result : Result F → Outcome F
  failure : Failure → Outcome F

module _ (decode : Bytes → Option (Option String)) where
  finish_of : Option (Option String) → String × Bool
  unfolding finishes
  finish_of none = ("<not json>", false)
  finish_of (some none) = ("<null>", false)
  finish_of (some (some finish)) = (finish, contains finishes finish)

  -- ParseFinish
  pub parse_finish : Bytes → String × Bool
  unfolding finish_of
  parse_finish line = finish_of (decode line)

  -- line; its warnings are log lines only.
  pub on_line : Finished → Bytes → Finished
  unfolding parse_finish
  on_line finished line =
      let status = parse_finish line in if status.1 then bump finished status.0 else finished

module _ (fl : Floats) where
  open fl use {F, zero as zero_float, of_uint}

  request_sample : String → Option ℕ → List (Sample F)
  request_sample status none = []
  request_sample status (some n) =
      record {
        worker = "";
        def = some requests;
        labels = status ∷ [];
        value = of_uint n;
        hist = none;
      }
      ∷ []

  -- The loop over Finishes.
  pub request_samples : List String → Finished → List (Sample F)
  unfolding request_sample
  request_samples [] finished = []
  request_samples (status ∷ more) finished =
      request_sample status (get_finished finished status) ++ request_samples more finished

  answer : Result F → Finished → ℕ → Result F
  unfolding request_samples finishes
  answer res finished backlog =
      if ltb 0 backlog
      then record { samples = []; backlog_bytes = backlog }
      else record res { samples = res.samples ++ request_samples finishes finished }

  -- What Collect returns once the lines are read.
  respond : Result F → Option Error → Finished → ℕ → Outcome F
  unfolding answer
  respond res (some not_exist) finished backlog = result res
  respond res (some io_error) finished backlog = failure (not_read io_error)
  respond res none finished backlog = result (answer res finished backlog)

module _ (decode : Bytes → Option (Option String)) (fl : Floats) where
  open fl use {F}

  log_collect : Result F → LogAdapter → Open → Outcome F × LogAdapter
  unfolding respond
  log_collect res a o =
      let out = Tail.read a.tail o in
      let before = if out.reset then [] else a.finished in
      let finished = foldl (on_line decode) before out.lines in
      (
        respond fl res out.error finished out.reader.backlog,
        record { tail = out.reader; finished = finished },
      )

  after_map : LogAdapter → Option MapError → Result F → Open → Outcome F × LogAdapter
  unfolding log_collect
  after_map a (some e) res o = (failure (not_mapped e), a)
  after_map a none res o = log_collect res a o

  -- Collect, with what FetchMetrics returns.
  pub collect : LogAdapter → String → Option (Families F) → Open → Outcome F × LogAdapter
  unfolding after_map
  collect a served fetched o =
      let m = pull_collect (tensorfold_map fl) served fetched in after_map a m.error m.result o
