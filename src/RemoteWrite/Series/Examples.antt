-- ===== src/RemoteWrite/Series/Examples.antt =====
-- Two small snapshots and a gathered family, and the theorems of the series at them.
use llm_metrics_exporter.Base.{◌≡◌, ◌↔◌, ◌⊎◌, refl, true, some, List, [], ◌∷◌, ◌++◌, Bytes, codes}
use llm_metrics_exporter.Base.Order.{Ordered, sort_by, insert_by, bytes_lt}
use llm_metrics_exporter.RemoteWrite.Series.{
  TimeSeries, series_key, with_stale, active_series, is_active,
}
use llm_metrics_exporter.RemoteWrite.Series.Keys.{series_key-injective}
use llm_metrics_exporter.RemoteWrite.Series.Staleness.{
  Has, AllSeries, Marked, with_stale-Has, active-with_stale,
}
use llm_metrics_exporter.RemoteWrite.Series.Encode.{
  Family, Numbers, gauge, encode_families, families_series, metrics_series, metric_series, series,
  base_labels, put_all, put,
}
use llm_metrics_exporter.RemoteWrite.Series.Encode.Output.{IsEncoded, encode_families-AllEncoded}

abbrev series_of : Bytes → TimeSeries
series_of name = record {
  labels = record { name = codes "__name__"; value = name } ∷ [];
  samples = record { bits = 1; timestamp = 5 } ∷ [];
}

abbrev old : List TimeSeries
old = series_of (codes "a") ∷ series_of (codes "b") ∷ []

abbrev now : List TimeSeries
now = series_of (codes "b") ∷ []

series_key-injective_example : (series_of (codes "a")).labels ≡ (series_of (codes "a")).labels
series_key-injective_example =
    series_key-injective (series_of (codes "a")).labels (series_of (codes "a")).labels refl

with_stale-Has_example :
    ((added : List TimeSeries) × (with_stale now old 9 ≡ now ++ added)
      × AllSeries (Marked now 9 old) added)
    × (Has (series_of (codes "a")).labels (with_stale now old 9)
        ↔ (Has (series_of (codes "a")).labels now ⊎ Has (series_of (codes "a")).labels old))
with_stale-Has_example = with_stale-Has now 9 (series_of (codes "a")).labels old

now_active : is_active (series_of (codes "b")) ≡ true
unfolding is_active
now_active = refl

active-with_stale_example : active_series (with_stale now old 9) ≡ now
active-with_stale_example = active-with_stale now old 9 (now_active, tt)

abbrev numbers : Numbers
numbers = record { of_uint = λ n. n; format = λ n. codes "1" }

abbrev loads : List Family
loads =
    record {
      name = codes "load";
      type = gauge;
      metrics =
          record { labels = []; value = 1; buckets = []; sample_count = 0; sample_sum = 0 } ∷ [];
    }
    ∷ []

abbrev encoded : List TimeSeries
encoded =
    record {
      labels =
          record { name = codes "__name__"; value = codes "load" }
          ∷ record { name = codes "instance"; value = codes "h" }
          ∷ record { name = codes "job"; value = codes "llm-metrics-exporter" }
          ∷ [];
      samples = record { bits = 1; timestamp = 9 } ∷ [];
    }
    ∷ []

encodes : encode_families numbers loads (codes "h") 9 ≡ some encoded
unfolding encode_families families_series metrics_series metric_series series base_labels put_all
    put sort_by insert_by bytes_lt
encodes = refl

encode_families-AllEncoded_example :
    Ordered (λ s. series_key s.labels) encoded × AllSeries (IsEncoded 9) encoded
encode_families-AllEncoded_example = encode_families-AllEncoded numbers (codes "h") 9 loads encodes
