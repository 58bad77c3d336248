-- ===== src/Discovery/Examples.antt =====
-- The theorem on probe at a TensorFold endpoint, whose model the metadata names.
use llm_metrics_exporter.Base.{ℕ, none, some, [], ◌∷◌}
use llm_metrics_exporter.Base.Floats.{whole_floats}
use llm_metrics_exporter.Promtext.{Families, Series, other_type}
use llm_metrics_exporter.Discovery.{probe}
use llm_metrics_exporter.Discovery.Evidence.{Fate, probe-Fate}

abbrev counter : ℕ → Series ℕ
counter n = record { labels = []; counter = some n; gauge = none; untyped = none; histogram = none }

abbrev exposition : Families ℕ
exposition =
    ("tensorfold:generation_tokens_total", record { type = other_type; series = counter 7 ∷ [] })
    ∷ ("tensorfold:prompt_tokens_total", record { type = other_type; series = counter 9 ∷ [] })
    ∷ []

probe-Fate_example :
    Fate whole_floats exposition
      (some "m")
      (some exposition)
      (some "m")
      (probe whole_floats "1" (some exposition) (some "m") (some exposition) (some "m"))
probe-Fate_example = probe-Fate whole_floats "1" exposition (some "m") (some exposition) (some "m")
