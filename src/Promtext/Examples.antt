-- ===== src/Promtext/Examples.antt =====
-- The theorem on Histogram at two series of one family.
use llm_metrics_exporter.Base.{ℕ, none, some, [], ◌∷◌, String}
use llm_metrics_exporter.Base.Floats.{whole_floats}
use llm_metrics_exporter.Promtext.{Families, Series, family, histogram, histogram_type}
use llm_metrics_exporter.Promtext.Sums.{Merges, histograms_of, histogram-Merges}

abbrev times : String → ℕ → ℕ → Series ℕ
times engine low high = record {
  labels = ("engine", engine) ∷ [];
  counter = none;
  gauge = none;
  untyped = none;
  histogram = some (record {
    sample_count = high;
    sample_sum = 10;
    buckets =
        record { upper_bound = 1; cumulative_count = low }
        ∷ record { upper_bound = 5; cumulative_count = high }
        ∷ [];
  });
}

abbrev exposition : Families ℕ
exposition =
    ("ttft", record { type = histogram_type; series = times "0" 1 2 ∷ times "1" 3 4 ∷ [] }) ∷ []

histogram-Merges_example :
    Merges
      (histograms_of (family exposition "ttft") none)
      (histogram whole_floats exposition "ttft" none)
histogram-Merges_example = histogram-Merges exposition "ttft" none
