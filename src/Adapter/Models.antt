-- ===== src/Adapter/Models.antt =====
-- SelectModel of internal/adapter/adapter.go: which series it lets through, and when it refuses.
use llm_metrics_exporter.Base.{
  ◌≡◌, ◌≢◌, refl, sym, ◌∙◌, Bool, true, false, ◌&&◌, ◌||◌, Option, none, some, List, [], ◌∷◌,
  String, str_eq, eq_iff, contains, arith, Distinct, Bool-cases, inl, inr, Option-cases,
}
use llm_metrics_exporter.Promtext.{
  Series, Families, Match, label, label_is, label_or_empty, series_of, selects,
}
use llm_metrics_exporter.Promtext.Selection.{carried, is_value, label_values_lem}
use llm_metrics_exporter.Adapter.{
  Selected, chosen, failed, is_model_mismatch, select_any, select_served, select_model,
}

first-ne : (m n : String) (ms : List String) → Distinct (m ∷ n ∷ ms) → m ≢ n
first-ne m n ms d e = ground (arith, eq_iff n m, d.0, e)

module _ {F : Type 0} where
  -- A series that the match selects carries the value under this label.
  abbrev pub offered : Option Match → List (Series F) → String → String → Bool
  offered m [] name v = false
  offered m (s ∷ ss) name v =
      (selects m s.labels && is_value (label s.labels name) v) || offered m ss name v

  offered-carried :
      (m : Option Match) (ss : List (Series F)) (name v : String)
      → offered m ss name v ≡ true
      → carried ss name v ≡ true
  offered-carried m [] name v h = cc
  offered-carried m (s ∷ ss) name v h = ground (arith, offered-carried m ss name v)

  -- With the match on one value of the label, no other value is offered.
  offered-label_is :
      (ss : List (Series F)) (name served v : String)
      → offered (some (label_is name served)) ss name v ≡ true
      → v ≡ served
  unfolding selects label_is label_or_empty
  offered-label_is [] name served v h = cc
  offered-label_is (s ∷ ss) name served v h = elim (Option-cases (label s.labels name)) [
    | inl e ↦ offered-label_is ss name served v (ground arith)
    | inr (w, e) ↦ ground (arith, eq_iff w served, eq_iff w v, offered-label_is ss name served v)
  ]

  -- What SelectModel promises of a source's series: the match leaves one model's, which is the
  -- served one where it is given; and an error says that there are two models, or that there are
  -- models and the served one is not among them.
  abbrev pub Kept : List (Series F) → String → String → Selected → Type 0
  Kept ss name served (chosen m) =
      ((v w : String) → offered m ss name v ≡ true → offered m ss name w ≡ true → v ≡ w)
      × ((v : String) → str_eq served "" ≡ false → offered m ss name v ≡ true → v ≡ served)
  Kept ss name served (failed e) =
      (is_model_mismatch e ≡ true)
      × (str_eq served "" ≡ true
          → (v : String) × (w : String) × (v ≢ w)
            × (carried ss name v ≡ true)
            × (carried ss name w ≡ true))
      × (str_eq served "" ≡ false
          → (v : String) × (carried ss name v ≡ true) × (carried ss name served ≡ false))

  module _ (ss : List (Series F)) (name served : String) where
    -- The reported models are those that the series carry.
    abbrev AreReported : List String → Type 0
    AreReported reported = (v : String) → contains reported v ≡ carried ss name v

    listed :
        (reported : List String) (m : Option Match) (v : String)
        → AreReported reported
        → offered m ss name v ≡ true
        → contains reported v ≡ true
    listed reported m v all h = all v ∙ offered-carried m ss name v h

    select_any-Kept :
        (reported : List String)
        → AreReported reported
        → Distinct reported
        → str_eq served "" ≡ true
        → Kept ss name served (select_any reported)
    unfolding select_any is_model_mismatch
    select_any-Kept [] all d g =
        (λ v w hv hw. ground (arith, listed [] none v all hv), λ v f hv. ground (arith, g, f))
    select_any-Kept (m ∷ []) all d g = (
      λ v w hv hw. ground (
        arith,
        eq_iff m v,
        eq_iff m w,
        listed (m ∷ []) none v all hv,
        listed (m ∷ []) none w all hw,
      ),
      λ v f hv. ground (arith, g, f),
    )
    select_any-Kept (m ∷ n ∷ ms) all d g = (
      refl,
      λ t. (
        m,
        n,
        first-ne m n ms d,
        sym (all m) ∙ ground (arith, eq_iff m m),
        sym (all n) ∙ ground (arith, eq_iff n n),
      ),
      λ f. ground (arith, g, f),
    )

    select_served-Kept :
        (reported : List String)
        → AreReported reported
        → str_eq served "" ≡ false
        → Kept ss name served (select_served reported name served)
    unfolding select_served is_model_mismatch
    select_served-Kept [] all g = (
      λ v w hv hw. ground (arith, listed [] none v all hv),
      λ v f hv. ground (arith, listed [] none v all hv),
    )
    select_served-Kept (m ∷ ms) all g = elim (Bool-cases (contains (m ∷ ms) served)) [
      | inl t ↦
          rw (t, select_served)
            (
              λ v w hv hw.
                  offered-label_is ss name served v hv ∙ sym (offered-label_is ss name served w hw),
              λ v f hv. offered-label_is ss name served v hv,
            )
      | inr f ↦
          rw (f, select_served)
            (
              refl,
              λ t. ground (arith, g, t),
              λ f'. (m, sym (all m) ∙ ground (arith, eq_iff m m), sym (all served) ∙ f),
            )
    ]

  -- The series that SelectModel leaves, of those that carry the label, have one value under it: the
  -- served model, where it is given. It refuses, with ErrModelMismatch, only when two values are
  -- carried and no served model is given, or when values are carried and the served one is not.
  pub select_model-Kept :
      (fs : Families F) (metric name served : String)
      → Kept (series_of fs metric) name served (select_model fs metric name served)
  unfolding select_model
  select_model-Kept fs metric name served =
      let reported = label_values_lem fs metric name in
      elim (Bool-cases (str_eq served "")) [
        | inl t ↦
            rw (t, select_model)
              (select_any-Kept (series_of fs metric) name served _ reported.0 reported.1 t)
        | inr f ↦
            rw (f, select_model)
              (select_served-Kept (series_of fs metric) name served _ reported.0 f)
      ]
