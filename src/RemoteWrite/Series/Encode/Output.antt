-- ===== src/RemoteWrite/Series/Encode/Output.antt =====
-- What every snapshot that encodeFamilies returns satisfies.
use llm_metrics_exporter.Base.{
  ℕ, ◌≡◌, ◌≢◌, refl, subst, none, some, List, [], ◌∷◌, ◌++◌, Bytes, ◌==◌, Bool-cases, inl, inr,
}
use llm_metrics_exporter.Base.Options.{>>=-eq-some}
use llm_metrics_exporter.Base.Order.{sort_by, insert_by, Ordered, sort_by-Ordered, bytes_lt}
use llm_metrics_exporter.RemoteWrite.Series.{Label, TimeSeries, series_key}
use llm_metrics_exporter.RemoteWrite.Series.Encode.{
  MetricType, counter, gauge, histogram, other, Bucket, Metric, Family, Numbers, series,
  base_labels, bucket_series, metric_series, metrics_series, families_series, encode_families,
  pos_inf_bits,
}
use llm_metrics_exporter.RemoteWrite.Series.Staleness.{AllSeries}

-- One sample at the snapshot's time, and labels in the order of their names.
abbrev pub IsEncoded : ℕ → TimeSeries → Type 0
IsEncoded timestamp s =
    ((bits : ℕ) × (s.samples ≡ record { bits = bits; timestamp = timestamp } ∷ []))
    × Ordered (λ l. l.name) s.labels

AllSeries-append :
    (P : TimeSeries → Type 0) (xs ys : List TimeSeries)
    → AllSeries P xs
    → AllSeries P ys
    → AllSeries P (xs ++ ys)
AllSeries-append P [] ys h k = k
AllSeries-append P (x ∷ xs) ys h k = (h.0, AllSeries-append P xs ys h.1 k)

module _ (P : TimeSeries → Type 0) (by : TimeSeries → Bytes) where
  AllSeries-insert :
      (s : TimeSeries) (ss : List TimeSeries)
      → P s
      → AllSeries P ss
      → AllSeries P (insert_by by s ss)
  unfolding insert_by
  AllSeries-insert s [] h k = (h, tt)
  AllSeries-insert s (x ∷ ss) h k = elim (Bool-cases (bytes_lt (by x) (by s))) [
    | inl lt ↦ rw lt (k.0, AllSeries-insert s ss h k.1)
    | inr ge ↦ rw ge (h, k)
  ]

  AllSeries-sort : (ss : List TimeSeries) → AllSeries P ss → AllSeries P (sort_by by ss)
  unfolding sort_by
  AllSeries-sort [] h = tt
  AllSeries-sort (s ∷ ss) h = AllSeries-insert s (sort_by by ss) h.0 (AllSeries-sort ss h.1)

some_inj {ℓ} : {A : Type ℓ} {a b : A} → some a ≡ some b → a ≡ b
some_inj e = cc

none≢some {ℓ} : {A : Type ℓ} {a : A} → none ≢ some a
none≢some e = cc

series-IsEncoded :
    (base : List Label) (timestamp : ℕ) (name : Bytes) (bits : ℕ) (extra : List Label)
    → IsEncoded timestamp (series base timestamp name bits extra)
unfolding series
series-IsEncoded base timestamp name bits extra = ((bits, refl), sort_by-Ordered (λ l. l.name) _)

module _ (numbers : Numbers) (host : Bytes) (timestamp : ℕ) where
  abbrev AllEncoded : List TimeSeries → Type 0
  AllEncoded = AllSeries (IsEncoded timestamp)

  bucket_series-AllEncoded :
      (base : List Label) (name : Bytes) (bs : List Bucket)
      → AllEncoded (bucket_series numbers base timestamp name bs)
  unfolding bucket_series
  bucket_series-AllEncoded base name [] = tt
  bucket_series-AllEncoded base name (b ∷ bs) =
      let rest = bucket_series-AllEncoded base name bs in
      elim (Bool-cases (b.upper_bound == pos_inf_bits)) [
        | inl inf ↦ rw inf rest
        | inr fin ↦ rw fin (series-IsEncoded base timestamp _ _ _, rest)
      ]

  -- Every series of the base labels of one metric.
  abbrev one : Family → Metric → Bytes → ℕ → List Label → TimeSeries
  one f m = series (base_labels host m) timestamp

  metric_series-AllEncoded :
      (f : Family) (m : Metric) (k : MetricType) {ss : List TimeSeries}
      → f.type ≡ k
      → metric_series numbers host timestamp f m ≡ some ss
      → AllEncoded ss
  unfolding metric_series
  metric_series-AllEncoded f m counter q e =
      subst AllEncoded (some_inj (rw (q, metric_series) at e))
        (series-IsEncoded _ timestamp _ _ _, tt)
  metric_series-AllEncoded f m gauge q e =
      subst AllEncoded (some_inj (rw (q, metric_series) at e))
        (series-IsEncoded _ timestamp _ _ _, tt)
  metric_series-AllEncoded f m histogram q e =
      subst AllEncoded (some_inj (rw (q, metric_series) at e)) (
        AllSeries-append _ _ _ (bucket_series-AllEncoded (base_labels host m) f.name m.buckets) (
          series-IsEncoded _ timestamp _ _ _,
          (series-IsEncoded _ timestamp _ _ _, (series-IsEncoded _ timestamp _ _ _, tt)),
        ))
  metric_series-AllEncoded f m other q e = absurd (none≢some (rw (q, metric_series) at e))

  metrics_series-AllEncoded :
      (f : Family) (ms : List Metric) {ss : List TimeSeries}
      → metrics_series numbers host timestamp f ms ≡ some ss
      → AllEncoded ss
  unfolding metrics_series
  metrics_series-AllEncoded f [] e = subst AllEncoded (some_inj e) tt
  metrics_series-AllEncoded f (m ∷ ms) e =
      let (first, p, e') = >>=-eq-some (metric_series numbers host timestamp f m) _ e in
      let (rest, q, e'') = >>=-eq-some (metrics_series numbers host timestamp f ms) _ e' in
      subst AllEncoded (some_inj e'') (
        AllSeries-append _ first rest (metric_series-AllEncoded f m f.type refl p)
          (metrics_series-AllEncoded f ms q))

  families_series-AllEncoded :
      (fs : List Family) {ss : List TimeSeries}
      → families_series numbers host timestamp fs ≡ some ss
      → AllEncoded ss
  unfolding families_series
  families_series-AllEncoded [] e = subst AllEncoded (some_inj e) tt
  families_series-AllEncoded (f ∷ fs) e =
      let (first, p, e') = >>=-eq-some (metrics_series numbers host timestamp f f.metrics) _ e in
      let (rest, q, e'') = >>=-eq-some (families_series numbers host timestamp fs) _ e' in
      subst AllEncoded (some_inj e'') (
        AllSeries-append _ first rest (metrics_series-AllEncoded f f.metrics p)
          (families_series-AllEncoded fs q))

  -- A snapshot that is encoded is in the order of its series' keys, and each of its series has its
  -- labels in the order of their names and exactly one sample, at the snapshot's time.
  pub encode_families-AllEncoded :
      (fs : List Family) {ss : List TimeSeries}
      → encode_families numbers fs host timestamp ≡ some ss
      → Ordered (λ s. series_key s.labels) ss × AllSeries (IsEncoded timestamp) ss
  unfolding encode_families
  encode_families-AllEncoded fs e =
      let (all, p, e') = >>=-eq-some (families_series numbers host timestamp fs) _ e in
      (
        subst (Ordered (λ s. series_key s.labels)) (some_inj e')
            (sort_by-Ordered (λ s. series_key s.labels) all),
        subst AllEncoded (some_inj e')
            (AllSeries-sort _ (λ s. series_key s.labels) all (families_series-AllEncoded fs p)),
      )
