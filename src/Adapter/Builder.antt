-- ===== src/Adapter/Builder.antt =====
-- internal/adapter/adapter.go: the Builder. Go visits the workers of a source in no fixed order; here
-- they come as they first appear among the source's series.
pub mod Partition
pub mod Schema
use mathlib.Core.List.{foldl}
use llm_metrics_exporter.Base.{
  ℕ, ◌+◌, Bool, true, false, Option, none, some, List, [], ◌∷◌, ◌++◌, map, String, str_eq, contains,
  if◌then◌else◌,
}
use llm_metrics_exporter.Base.Floats.{Floats}
use llm_metrics_exporter.Metrics.{Def, Hist, Sample}
use llm_metrics_exporter.Promtext.{
  Labels, Match, Families, Series, Merged, absent, different_bounds, merged, all_of, label_is,
  label_or_empty, series_of, sum, histogram,
}

pub record Builder (F : Type 0) : Type 0 where
  pub fams : Families F
  pub model : Option Match
  pub worker_label : String
  pub samples : List (Sample F)
  -- len(b.errs)
  pub errors : ℕ

unfoldable pub worker_name : String → String
worker_name worker = if str_eq worker "" then "default" else worker

module _ {F : Type 0} where
  unfoldable pub new_worker_builder : Families F → Option Match → String → Builder F
  new_worker_builder fams model name = record {
    fams = fams;
    model = model;
    worker_label = name;
    samples = [];
    errors = 0;
  }

  unfoldable pub new_builder : Families F → Option Match → Builder F
  unfolding new_worker_builder
  new_builder fams model = new_worker_builder fams model ""

  -- The keys of `workers`, in the order of their first series.
  unfoldable pub workers_from : Match → String → List String → List (Series F) → List String
  workers_from selected name seen [] = []
  workers_from selected name seen (s ∷ ss) =
      let w = label_or_empty s.labels name in
      let skip = workers_from selected name seen ss in
      let rest = workers_from selected name (w ∷ seen) ss in
      if selected s.labels then (if contains seen w then skip else w ∷ rest) else skip

  unfoldable pub selected_by : Builder F → Option Match → Match
  selected_by b m = all_of (b.model ∷ m ∷ [])

  unfoldable pub workers : Builder F → String → Option Match → List String
  unfolding workers_from selected_by
  workers b source m = workers_from (selected_by b m) b.worker_label [] (series_of b.fams source)

  -- The Match that `each` hands its function for one worker.
  unfoldable pub worker_match : Builder F → Option Match → String → Match
  unfolding selected_by
  worker_match b m worker =
      if str_eq b.worker_label ""
      then selected_by b m
      else all_of (some (selected_by b m) ∷ some (label_is b.worker_label worker) ∷ [])

  -- append(b.samples, s)
  unfoldable pub add : Builder F → Sample F → Builder F
  add b s = record b { samples = b.samples ++ (s ∷ []) }

module _ (fl : Floats) where
  open fl use {F}

  unfoldable pub sample : Def → List String → String → F → Sample F
  sample d labels worker v = record {
    worker = worker_name worker;
    def = some d;
    labels = labels;
    value = v;
    hist = none;
  }

  -- What one worker's sum adds.
  unfoldable pub sum_sample : Def → List String → String → F × Bool → Builder F → Builder F
  unfolding sample add
  sum_sample d labels worker total b = if total.1 then add b (sample d labels worker total.0) else b

  unfoldable pub value_of :
      Def → List String → String → Option Match → Builder F → String → Builder F
  unfolding sum_sample
  value_of d labels source m b worker =
      sum_sample d labels worker (sum fl b.fams source (some (worker_match b m worker))) b

  unfoldable pub value : Builder F → Def → List String → String → Option Match → Builder F
  unfolding value_of
  value b d labels source m = foldl (value_of d labels source m) b (workers b source m)

  fail : Builder F → Builder F
  fail b = record b { errors = b.errors + 1 }

  hist_sum_sample : Def → List String → String → Merged F → Builder F → Builder F
  unfolding sample add fail
  hist_sum_sample d labels worker absent b = b
  hist_sum_sample d labels worker different_bounds b = fail b
  hist_sum_sample d labels worker (merged h) b = add b (sample d labels worker h.sum)

  hist_sum_of : Def → List String → String → Option Match → Builder F → String → Builder F
  unfolding hist_sum_sample
  hist_sum_of d labels source m b worker =
      hist_sum_sample d labels worker (histogram fl b.fams source (some (worker_match b m worker)))
        b

  pub histogram_sum : Builder F → Def → List String → String → Option Match → Builder F
  unfolding hist_sum_of
  histogram_sum b d labels source m = foldl (hist_sum_of d labels source m) b (workers b source m)

  hist_sample : Def → String → Merged F → Builder F → Builder F
  unfolding sample add fail
  hist_sample d worker absent b = b
  hist_sample d worker different_bounds b = fail b
  hist_sample d worker (merged h) b = add b (record (sample d [] worker fl.zero) { hist = some h })

  hist_of : Def → String → Option Match → Builder F → String → Builder F
  unfolding hist_sample
  hist_of d source m b worker =
      hist_sample d worker (histogram fl b.fams source (some (worker_match b m worker))) b

  pub add_histogram : Builder F → Def → String → Option Match → Builder F
  unfolding hist_of
  add_histogram b d source m = foldl (hist_of d source m) b (workers b source m)
