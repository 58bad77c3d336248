-- ===== src/Collector/Examples.antt =====
-- An arm that is closed during a collection, and a collection with a duplicate sample.
use llm_metrics_exporter.Base.{
  ◌==◌, ◌≡◌, ◌≤◌, ◌+◌, refl, ℕ, true, false, none, some, List, [], ◌∷◌, String, arith,
}
use llm_metrics_exporter.Base.Floats.{whole_floats}
use llm_metrics_exporter.Metrics.{Sample, requests_running}
use llm_metrics_exporter.Collector.{samples_series}
use llm_metrics_exporter.Collector.Report.{Once, samples_series-Once}
use llm_metrics_exporter.Collector.Sync.{
  Entry, Slot, register, replace, new_arm, is_busy, Reached as Reached_slot, nothing, registered,
  collected,
}
use llm_metrics_exporter.Collector.Sync.Exclusive.{IsExclusive}
use llm_metrics_exporter.Collector.Sync.Flying.{flying, Reached-IsExclusive}
use llm_metrics_exporter.Collector.Lifecycle.{
  Life, IsSafe, Reached, born, shut, begun, ended, fresh, begin, close_arm, finish, Reached-IsSafe,
}

abbrev running : Sample ℕ
running = record { worker = ""; def = some requests_running; labels = []; value = 2; hist = none }

abbrev id : List String
id = "vllm" ∷ "m" ∷ "b" ∷ "h" ∷ "1" ∷ []

samples_series-Once_example :
    Once whole_floats id []
      (running ∷ running ∷ [])
      (samples_series whole_floats id [] (running ∷ running ∷ []))
samples_series-Once_example = samples_series-Once whole_floats id [] (running ∷ running ∷ [])

abbrev busy : Life
busy = record { busy = true; closed = false; has_adapter = true; collecting = 1; closes = 0 }

late : Reached true (finish (close_arm busy).0)
unfolding begin close_arm fresh
late = ended (omega arith) (shut (begun refl born))

Reached-IsSafe_example : IsSafe (finish (close_arm busy).0)
Reached-IsSafe_example = Reached-IsSafe late

abbrev Backend : Type 0
Backend = Slot ℕ ◌==◌

abbrev idle_slot : Backend
idle_slot = record { current = none; retired = none }

-- A collection outlives its scrape, and the registration changes.
abbrev collecting_slot : Backend
collecting_slot = record { current = some (record { reg = 1; life = busy }); retired = none }

abbrev new_entry : Entry ℕ ◌==◌
new_entry = record { reg = 1; life = fresh true }

registers : (register ℕ ◌==◌ idle_slot 1 true false).current ≡ some new_entry
unfolding register replace new_arm is_busy
registers = refl

abbrev after : Backend
after = register ℕ ◌==◌ collecting_slot 2 true false

changed : Reached_slot ℕ ◌==◌ after 1
unfolding register replace new_arm is_busy begin fresh
changed =
    registered 2 true false
      (collected new_entry busy registers refl (registered 1 true false nothing))

Reached-IsExclusive_example :
    (1 ≤ 1)
    × (1 ≡ flying ℕ ◌==◌ after.current + flying ℕ ◌==◌ after.retired)
    × IsExclusive ℕ ◌==◌ after
Reached-IsExclusive_example = Reached-IsExclusive ℕ ◌==◌ changed
