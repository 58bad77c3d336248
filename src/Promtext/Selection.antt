-- ===== src/Promtext/Selection.antt =====
-- What LabelValues lists: the values that a family's series carry under a label.
use llm_metrics_exporter.Base.{
  ◌≡◌, refl, ◌∙◌, ap, Bool, false, ◌||◌, Option, none, some, List, [], ◌∷◌, String, str_eq, eq_iff,
  contains, codes, arith, Distinct, Bool-cases, inl, inr,
}
use llm_metrics_exporter.Base.Order.{sort_by, insert_by, Ordered, sort_by-Ordered}
use llm_metrics_exporter.Promtext.{
  Series, Families, label, add_value, distinct_values, label_values, series_of,
}

abbrev pub is_value : Option String → String → Bool
is_value none v = false
is_value (some w) v = str_eq w v

-- A series carries the value under this label.
abbrev pub carried : {F : Type 0} → List (Series F) → String → String → Bool
carried [] name v = false
carried (s ∷ ss) name v = is_value (label s.labels name) v || carried ss name v

add_value_lem :
    (vs : List String) (o : Option String) (v : String)
    → contains (add_value vs o) v ≡ (contains vs v || is_value o v)
unfolding add_value
add_value_lem vs none v = ground arith
add_value_lem vs (some w) v = ground (arith, eq_iff w v)

add_value-Distinct :
    (vs : List String) (o : Option String) → Distinct vs → Distinct (add_value vs o)
unfolding add_value
add_value-Distinct vs none d = d
add_value-Distinct vs (some w) d = elim (Bool-cases (contains vs w)) [
  | inl t ↦ rw (t, add_value) d
  | inr f ↦ rw (f, add_value) (f, d)
]

distinct_values_lem :
    {F : Type 0} (vs : List String) (ss : List (Series F)) (name v : String)
    → contains (distinct_values vs ss name) v ≡ (contains vs v || carried ss name v)
unfolding distinct_values
distinct_values_lem vs [] name v = ground arith
distinct_values_lem vs (s ∷ ss) name v =
    let here = add_value_lem vs (label s.labels name) v in
    let rest = distinct_values_lem (add_value vs (label s.labels name)) ss name v in ground arith

distinct_values-Distinct :
    {F : Type 0} (vs : List String) (ss : List (Series F)) (name : String)
    → Distinct vs
    → Distinct (distinct_values vs ss name)
unfolding distinct_values
distinct_values-Distinct vs [] name d = d
distinct_values-Distinct vs (s ∷ ss) name d =
    distinct_values-Distinct (add_value vs (label s.labels name)) ss name
      (add_value-Distinct vs (label s.labels name) d)

contains-insert_by :
    (a : String) (bs : List String) (v : String)
    → contains (insert_by codes a bs) v ≡ (str_eq a v || contains bs v)
unfolding insert_by
contains-insert_by a [] v = refl
contains-insert_by a (b ∷ bs) v = ground (arith, contains-insert_by a bs v)

contains-sort_by :
    (as' : List String) (v : String) → contains (sort_by codes as') v ≡ contains as' v
unfolding sort_by
contains-sort_by [] v = refl
contains-sort_by (a ∷ as') v =
    contains-insert_by a (sort_by codes as') v ∙ ap (λ b. str_eq a v || b) (contains-sort_by as' v)

insert_by-Distinct :
    (a : String) (bs : List String)
    → contains bs a ≡ false
    → Distinct bs
    → Distinct (insert_by codes a bs)
unfolding insert_by
insert_by-Distinct a [] h d = (refl, tt)
insert_by-Distinct a (b ∷ bs) h d =
    ground (arith, eq_iff a b, eq_iff b a, contains-insert_by a bs b, insert_by-Distinct a bs)

sort_by-Distinct : (as' : List String) → Distinct as' → Distinct (sort_by codes as')
unfolding sort_by
sort_by-Distinct [] d = tt
sort_by-Distinct (a ∷ as') d =
    insert_by-Distinct a (sort_by codes as') (contains-sort_by as' a ∙ d.0)
      (sort_by-Distinct as' d.1)

-- LabelValues lists a value exactly if a series of the family carries it under the label, each once
-- and in the order of their bytes.
pub label_values_lem :
    {F : Type 0} (fs : Families F) (metric name : String)
    → ((v : String)
        → contains (label_values fs metric name) v ≡ carried (series_of fs metric) name v)
      × Distinct (label_values fs metric name)
      × Ordered codes (label_values fs metric name)
unfolding label_values
label_values_lem fs metric name =
    let values = distinct_values [] (series_of fs metric) name in
    (
      λ v. contains-sort_by values v ∙ distinct_values_lem [] (series_of fs metric) name v,
      sort_by-Distinct values (distinct_values-Distinct [] (series_of fs metric) name tt),
      sort_by-Ordered codes values,
    )
