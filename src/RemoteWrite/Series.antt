-- ===== src/RemoteWrite/Series.antt =====
-- internal/remotewrite/encode.go: keys, staleness and the encoding of metric families.
-- A label's texts are byte lists; a sample's value is the 64 bits of its float64, which is what the
-- code compares. The protobuf messages are records of the fields that the code reads and writes.
pub mod Keys
pub mod Encode
pub mod Staleness
mod Examples
use llm_metrics_exporter.Base.{
  ℕ, zero, suc, ◌+◌, Bool, true, false, not, ◌&&◌, ◌||◌, Option, none, some, List, [], ◌∷◌, ◌++◌,
  Bytes, length, ltb, ◌==◌, same_bytes, if◌then◌else◌, map,
}
use llm_metrics_exporter.Base.Decimal.{decimal}

pub record Label : Type 0 where
  pub name : Bytes
  pub value : Bytes

pub record Point : Type 0 where
  pub bits : ℕ
  pub timestamp : ℕ

pub record TimeSeries : Type 0 where
  pub labels : List Label
  pub samples : List Point

abbrev pub stale_bits : ℕ
stale_bits = 0x7ff0000000000002

-- fmt.Sprintf("%d:%s", len(s), s)
abbrev pub sized : Bytes → Bytes
sized s = decimal (length s) ++ (58 ∷ s)

unfoldable pub series_key : List Label → Bytes
series_key [] = []
series_key (l ∷ ls) = sized l.name ++ (sized l.value ++ series_key ls)

-- seen[seriesKey(s.Labels)], for the map filled from `current`.
unfoldable pub seen_in : List TimeSeries → Bytes → Bool
seen_in [] k = false
seen_in (s ∷ ss) k = same_bytes (series_key s.labels) k || seen_in ss k

-- What one series of the previous snapshot adds.
unfoldable pub stale_point : TimeSeries → ℕ → TimeSeries
stale_point s timestamp = record {
  labels = s.labels;
  samples = record { bits = stale_bits; timestamp = timestamp } ∷ [];
}

-- The loop over `previous`.
unfoldable pub stale_of : List TimeSeries → List TimeSeries → ℕ → List TimeSeries
unfolding stale_point
stale_of current [] timestamp = []
stale_of current (s ∷ ss) timestamp =
    let rest = stale_of current ss timestamp in
    if not (seen_in current (series_key s.labels)) then stale_point s timestamp ∷ rest else rest

unfoldable pub with_stale : List TimeSeries → List TimeSeries → ℕ → List TimeSeries
with_stale current previous timestamp = current ++ stale_of current previous timestamp

-- len(s.Samples) > 0 and the first value is not the stale marker.
unfoldable pub is_active : TimeSeries → Bool
is_active s = elim s.samples [ [] ↦ false | p ∷ ps ↦ not (p.bits == stale_bits) ]

pub active_series : List TimeSeries → List TimeSeries
unfolding is_active
active_series [] = []
active_series (s ∷ ss) = let rest = active_series ss in if is_active s then s ∷ rest else rest
