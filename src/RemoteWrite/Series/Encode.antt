-- ===== src/RemoteWrite/Series/Encode.antt =====
-- encodeFamilies: a gathered registry as time series with one sample each.
pub mod Output
use llm_metrics_exporter.Base.Options.{◌>>=◌}
use llm_metrics_exporter.Base.{
  ℕ, zero, suc, ◌+◌, ◌≡◌, refl, sym, ap, ◌∙◌, Bool, true, false, not, Option, none, some, List, [],
  ◌∷◌, ◌++◌, Bytes, codes, length, ltb, ◌==◌, same_bytes, if◌then◌else◌, map, arith, Bool-cases,
  inl, inr,
}
use llm_metrics_exporter.Base.Order.{sort_by, insert_by, Ordered, sort_by-Ordered}
use llm_metrics_exporter.RemoteWrite.Series.{Label, Point, TimeSeries, series_key}

-- The parts of dto.MetricFamily that the code reads; a float64 is its bits.
pub data MetricType : Type 0 where
  counter gauge histogram other : MetricType

pub record Bucket : Type 0 where
  pub upper_bound : ℕ
  pub cumulative_count : ℕ

pub record Metric : Type 0 where
  pub labels : List Label
  pub value : ℕ
  pub buckets : List Bucket
  pub sample_count : ℕ
  pub sample_sum : ℕ

pub record Family : Type 0 where
  pub name : Bytes
  pub type : MetricType
  pub metrics : List Metric

-- float64(n) and strconv.FormatFloat, on bits.
pub record Numbers : Type 0 where
  pub of_uint : ℕ → ℕ
  pub format : ℕ → Bytes

-- math.IsInf(x, 1)
abbrev pub pos_inf_bits : ℕ
pos_inf_bits = 0x7ff0000000000000

-- base[name] = value
unfoldable pub put : List Label → Label → List Label
put [] l = l ∷ []
put (k ∷ ks) l = if same_bytes k.name l.name then l ∷ ks else k ∷ put ks l

unfoldable pub put_all : List Label → List Label → List Label
unfolding put
put_all base [] = base
put_all base (l ∷ ls) = put_all (if same_bytes l.value [] then base else put base l) ls

abbrev label : Bytes → Bytes → Label
label name value = record { name = name; value = value }

unfoldable pub base_labels : Bytes → Metric → List Label
unfolding put_all
base_labels host m =
    put_all
      (label (codes "job") (codes "llm-metrics-exporter") ∷ label (codes "instance") host ∷ [])
      m.labels

-- The closure `add`, without the append to the result.
unfoldable pub series : List Label → ℕ → Bytes → ℕ → List Label → TimeSeries
series base timestamp name bits extra = record {
  labels = sort_by (λ l. l.name) (base ++ (label (codes "__name__") name ∷ extra));
  samples = record { bits = bits; timestamp = timestamp } ∷ [];
}

module _ (numbers : Numbers) where
  unfoldable pub bucket_series : List Label → ℕ → Bytes → List Bucket → List TimeSeries
  unfolding series
  bucket_series base timestamp name [] = []
  bucket_series base timestamp name (b ∷ bs) =
      let rest = bucket_series base timestamp name bs in
      if b.upper_bound == pos_inf_bits
      then rest
      else series base timestamp (name ++ codes "_bucket") (numbers.of_uint b.cumulative_count)
          (label (codes "le") (numbers.format b.upper_bound) ∷ [])
        ∷ rest

  -- The series of one metric; none is an unsupported type.
  unfoldable pub metric_series : Bytes → ℕ → Family → Metric → Option (List TimeSeries)
  unfolding bucket_series series
  metric_series host timestamp f m =
      let base = base_labels host m in
      elim f.type [
        | counter ↦ some (series base timestamp f.name m.value [] ∷ [])
        | gauge ↦ some (series base timestamp f.name m.value [] ∷ [])
        | histogram ↦ some (
            bucket_series base timestamp f.name m.buckets
            ++ (series base timestamp (f.name ++ codes "_bucket") (numbers.of_uint m.sample_count)
                  (label (codes "le") (codes "+Inf") ∷ [])
                ∷ series base timestamp (f.name ++ codes "_count") (numbers.of_uint m.sample_count)
                    []
                ∷ series base timestamp (f.name ++ codes "_sum") m.sample_sum []
                ∷ []))
        | other ↦ none
      ]

  unfoldable pub metrics_series : Bytes → ℕ → Family → List Metric → Option (List TimeSeries)
  unfolding metric_series
  metrics_series host timestamp f [] = some []
  metrics_series host timestamp f (m ∷ ms) = do
    first ← metric_series host timestamp f m
    rest ← metrics_series host timestamp f ms
    some (first ++ rest)

  unfoldable pub families_series : Bytes → ℕ → List Family → Option (List TimeSeries)
  unfolding metrics_series
  families_series host timestamp [] = some []
  families_series host timestamp (f ∷ fs) = do
    first ← metrics_series host timestamp f f.metrics
    rest ← families_series host timestamp fs
    some (first ++ rest)

  -- encodeFamilies; none is the error for an unsupported metric type.
  unfoldable pub encode_families : List Family → Bytes → ℕ → Option (List TimeSeries)
  encode_families families host timestamp = do
    all ← families_series host timestamp families
    some (sort_by (λ s. series_key s.labels) all)
