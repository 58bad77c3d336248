-- ===== src/Engines/Tensorfold/RequestLog/Examples.antt =====
-- The theorem on the request log at a small log and a small exposition.
use llm_metrics_exporter.Base.{
  ℕ, ◌^◌, ◌≡◌, refl, true, Option, none, some, [], ◌∷◌, ◌++◌, String, Bytes, codes, take, length,
  same_bytes, if◌then◌else◌,
}
use llm_metrics_exporter.Base.Floats.{whole_floats}
use llm_metrics_exporter.Promtext.{
  all_of, Families, Series, other_type, has, sum, label_values, label,
}
use llm_metrics_exporter.Base.Order.{sort_by}
use llm_metrics_exporter.Adapter.{select_model}
use llm_metrics_exporter.Adapter.Builder.{new_builder, value, workers, worker_match}
use llm_metrics_exporter.Tail
use llm_metrics_exporter.Tail.{Opened, opened}
use llm_metrics_exporter.Tail.Examples.{file, file-Serves}
use llm_metrics_exporter.Tail.Exact.{kept, Holds}
use llm_metrics_exporter.Tail.Lines.{owed}
use llm_metrics_exporter.Engines.{pull_collect, built}
use llm_metrics_exporter.Engines.Tensorfold.{tensorfold_map, map_patch_0150}
use llm_metrics_exporter.Engines.Tensorfold.RequestLog.{LogAdapter, get_finished, start, collect}
use llm_metrics_exporter.Engines.Tensorfold.RequestLog.Counting.{
  Life, born, polled, reported, occurrences, Life-finished,
}

-- A decoder of lines that are a bare finish reason.
abbrev decode : Bytes → Option (Option String)
decode line =
    if same_bytes line (codes "stop")
    then some (some "stop")
    else if same_bytes line (codes "bad")
    then some (some "bad")
    else none

abbrev counter : Series ℕ
counter = record { labels = []; counter = some 3; gauge = none; untyped = none; histogram = none }

abbrev fetched : Option (Families ℕ)
fetched = some (
    ("tensorfold_completion_tokens_total", record { type = other_type; series = counter ∷ [] })
    ∷ [])

abbrev log : Bytes
log = codes "stop" ++ (10 ∷ codes "bad" ++ (10 ∷ codes "stop" ++ (10 ∷ [])))

abbrev log_file : Opened
log_file = record {
  id = 1;
  size = length log;
  seeks = true;
  sys = file log;
  latest = some (length log);
}

mapped : (pull_collect (tensorfold_map whole_floats) "" fetched).error ≡ none
unfolding pull_collect tensorfold_map has map_patch_0150 select_model label_values sort_by label
    built value workers new_builder all_of sum worker_match
mapped = refl

abbrev fresh : LogAdapter
fresh = record { tail = Tail.new 64 (2 ^ 20); finished = [] }

log-Holds : Holds 1 log log_file
log-Holds = record { serves = file-Serves log; identity = refl; sized = refl }

alive : Life decode whole_floats 64 1 log fresh
unfolding start
alive = born 1 log

after_log :
    Life decode whole_floats 64 1 log
      (collect decode whole_floats fresh "" fetched (opened log_file)).1
after_log = polled "" fetched log_file mapped kept log-Holds alive

Life-finished_example :
    get_finished (collect decode whole_floats fresh "" fetched (opened log_file)).1.finished "stop"
    ≡ reported (
        occurrences decode "stop" (
          owed (2 ^ 20) (
            take
              (collect decode whole_floats fresh "" fetched (opened log_file)).1.tail.offset
              log)))
Life-finished_example = Life-finished decode whole_floats 64 "stop" after_log
