-- ===== src/Promtext.antt =====
-- internal/promtext/promtext.go: the questions that adapters ask of a parsed exposition. The parser
-- is the client library's; what it returns is a `Families`: families by name, each with its series.
-- A float64 is a `Floats`, an unsigned count keeps its wrap-around at 2^64.
pub mod Selection
pub mod Sums
mod Examples
use mathlib.Core.List.{foldl}
use llm_metrics_exporter.Base.{
  ℕ, ◌+◌, ◌%◌, ◌^◌, Bool, true, false, not, ◌&&◌, ◌||◌, Option, none, some, List, [], ◌∷◌, map,
  String, str_eq, codes, contains, length, ◌==◌, if◌then◌else◌,
}
use llm_metrics_exporter.Base.Floats.{Floats}
use llm_metrics_exporter.Base.Order.{sort_by}
use llm_metrics_exporter.Metrics.{Hist}

-- A series' label pairs, as GetLabel returns them.
abbrev pub Labels : Type 0
Labels = List (String × String)

-- Labels(m)[name]: the last pair of that name.
unfoldable pub label : Labels → String → Option String
label [] name = none
label ((k, v) ∷ ls) name = elim (label ls name) [
  | some w ↦ some w
  | none ↦ if str_eq k name then some v else none
]

-- A missing label has the value "".
unfoldable pub label_or_empty : Labels → String → String
unfolding label
label_or_empty ls name = elim (label ls name) [ none ↦ "" | some v ↦ v ]

abbrev pub Match : Type 0
Match = Labels → Bool

unfoldable pub label_is : String → String → Match
label_is name value ls = str_eq (label_or_empty ls name) value

unfoldable pub label_in : String → List String → Match
label_in name values ls = contains values (label_or_empty ls name)

-- A nil Match selects every series.
unfoldable pub selects : Option Match → Match
selects none ls = true
selects (some m) ls = m ls

unfoldable pub all_of : List (Option Match) → Match
unfolding selects
all_of [] ls = true
all_of (m ∷ ms) ls = selects m ls && all_of ms ls

pub data FamilyType : Type 0 where
  histogram_type other_type : FamilyType

pub record Bucket (F : Type 0) : Type 0 where
  pub upper_bound : F
  pub cumulative_count : ℕ

pub record Histogram (F : Type 0) : Type 0 where
  pub sample_count : ℕ
  pub sample_sum : F
  pub buckets : List (Bucket F)

-- dto.Metric.
pub record Series (F : Type 0) : Type 0 where
  pub labels : Labels
  pub counter : Option F
  pub gauge : Option F
  pub untyped : Option F
  pub histogram : Option (Histogram F)

pub record Family (F : Type 0) : Type 0 where
  pub type : FamilyType
  pub series : List (Series F)

abbrev pub Families : Type 0 → Type 0
Families F = List (String × Family F)

-- What Histogram returns.
pub data Merged (F : Type 0) : Type 0 where
  absent different_bounds : Merged F
  merged : Hist F → Merged F

unfoldable pub add_value : List String → Option String → List String
add_value vs none = vs
add_value vs (some v) = if contains vs v then vs else v ∷ vs

module _ {F : Type 0} where
  -- f[name]
  unfoldable pub family : Families F → String → Option (Family F)
  family [] name = none
  family ((k, fam) ∷ fs) name = if str_eq k name then some fam else family fs name

  -- f[name].GetMetric(), which is empty for a missing family.
  unfoldable pub series_of : Families F → String → List (Series F)
  unfolding family
  series_of fs name = elim (family fs name) [ none ↦ [] | some fam ↦ fam.series ]

  unfoldable pub has : Families F → String → Bool
  unfolding series_of
  has fs name = elim (series_of fs name) [ [] ↦ false | s ∷ ss ↦ true ]

  unfoldable pub value : Series F → Option F
  value s = elim s.counter [
    | some v ↦ some v
    | none ↦ elim s.gauge [ some v ↦ some v | none ↦ s.untyped ]
  ]

  unfoldable pub distinct_values : List String → List (Series F) → String → List String
  unfolding add_value
  distinct_values vs [] name = vs
  distinct_values vs (s ∷ ss) name = distinct_values (add_value vs (label s.labels name)) ss name

  -- The distinct values of a label in a family, sorted.
  unfoldable pub label_values : Families F → String → String → List String
  unfolding distinct_values
  label_values fs metric name = sort_by codes (distinct_values [] (series_of fs metric) name)

module _ (fl : Floats) where
  open fl use {F, zero as zero_float, add, eq}

  -- The loop's body: total += v, found = true.
  unfoldable pub sum_step : Option Match → F × Bool → Series F → F × Bool
  unfolding value selects
  sum_step m acc s =
      if not (selects m s.labels)
      then acc
      else elim (value s) [ none ↦ acc | some v ↦ (add acc.0 v, true) ]

  -- The total, and whether a series was selected.
  unfoldable pub sum : Families F → String → Option Match → F × Bool
  unfolding sum_step series_of
  sum fs name m = foldl (sum_step m) (zero_float, false) (series_of fs name)

  unfoldable pub same_bounds : List F → List F → Bool
  same_bounds [] [] = true
  same_bounds [] (y ∷ ys) = false
  same_bounds (x ∷ xs) [] = false
  same_bounds (x ∷ xs) (y ∷ ys) = eq x y && same_bounds xs ys

  -- h.Buckets[b] += n
  unfoldable pub add_bucket : List (F × ℕ) → F → ℕ → List (F × ℕ)
  add_bucket [] b n = (b, n) ∷ []
  add_bucket ((c, k) ∷ bs) b n =
      if eq c b then (c, (k + n) % 2 ^ 64) ∷ bs else (c, k) ∷ add_bucket bs b n

  unfoldable pub add_buckets : List (F × ℕ) → List (Bucket F) → List (F × ℕ)
  unfolding add_bucket
  add_buckets bs [] = bs
  add_buckets bs (b ∷ more) = add_buckets (add_bucket bs b.upper_bound b.cumulative_count) more

  -- The variables of Histogram's loop: the first series' bounds, h and found.
  pub record Merging : Type 0 where
    pub bounds : List F
    pub hist : Hist F
    pub found : Bool

  unfoldable pub bounds_of : Histogram F → List F
  bounds_of h = map (λ b. b.upper_bound) h.buckets

  unfoldable pub absorb : Merging → Histogram F → Merging
  unfolding add_buckets bounds_of
  absorb acc sh = record {
    bounds = if acc.found then acc.bounds else bounds_of sh;
    found = true;
    hist = record {
      count = (acc.hist.count + sh.sample_count) % 2 ^ 64;
      sum = add acc.hist.sum sh.sample_sum;
      buckets = add_buckets acc.hist.buckets sh.buckets;
    };
  }

  -- One round; none is the error about different bounds.
  unfoldable pub merge_step : Option Match → Merging → Series F → Option Merging
  unfolding absorb bounds_of same_bounds selects
  merge_step m acc s = if not (selects m s.labels) then some acc else elim s.histogram [
    | none ↦ some acc
    | some sh ↦
        if acc.found && not (same_bounds acc.bounds (bounds_of sh))
        then none
        else some (absorb acc sh)
  ]

  unfoldable pub merge_loop : Option Match → Merging → List (Series F) → Merged F
  unfolding merge_step
  merge_loop m acc [] = if acc.found then merged acc.hist else absent
  merge_loop m acc (s ∷ ss) = elim (merge_step m acc s) [
    | none ↦ different_bounds
    | some next ↦ merge_loop m next ss
  ]

  unfoldable pub no_merging : Merging
  no_merging = record {
    bounds = [];
    found = false;
    hist = record { count = 0; sum = zero_float; buckets = [] };
  }

  unfoldable pub merge_family : Option Match → Option (Family F) → Merged F
  unfolding merge_loop no_merging
  merge_family m none = absent
  merge_family m (some fam) = elim fam.type [
    | histogram_type ↦ merge_loop m no_merging fam.series
    | other_type ↦ absent
  ]

  unfoldable pub histogram : Families F → String → Option Match → Merged F
  unfolding merge_family family
  histogram fs name m = merge_family m (family fs name)
