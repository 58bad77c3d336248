-- ===== src/Discovery/Evidence.antt =====
-- probe of internal/discovery/discovery.go: what an observation rests on.
use llm_metrics_exporter.Base.{
  ◌≡◌, ◌⊎◌, refl, sym, ap, ◌∙◌, inl, inr, true, false, not, ◌&&◌, ◌||◌, Option, none, some, [],
  String, str_eq, eq_iff, arith, if-elim, Bool-cases,
}
use llm_metrics_exporter.Base.Floats.{Floats}
use llm_metrics_exporter.Promtext.{Families, sum}
use llm_metrics_exporter.Adapter.{MapError}
use llm_metrics_exporter.Engines.Detect.{DetectError, Mapping, map_by, detect}
use llm_metrics_exporter.Discovery.{
  Observation, ProbeError, bad_identity, no_mapping, not_mapped, no_metadata, request_changed,
  engine_changed, model_changed, not_detected, started_of, state_of, is_identity, engine_of,
  refused, begin, by_error, by_mapping, measure, by_after, by_again, by_second, bracket,
  by_detection, probe,
}

module _ (fl : Floats) where
  open fl use {F}

  -- Which exposition is measured, and under which model: the first one, under its own label, or, where
  -- that has none, the second one, under the model that the metadata gave before and gave after it,
  -- which its label does not contradict.
  abbrev pub Source :
      Families F
      → Option String
      → Option (Families F)
      → Option String
      → Families F
      → String
      → Type 0
  Source first before second after snapshot model =
      ((snapshot ≡ first) × ((detect first).0.model ≡ model))
      ⊎ (((detect first).0.model ≡ "")
          × (second ≡ some snapshot)
          × (before ≡ some model)
          × (after ≡ some model)
          × (((detect snapshot).0.model ≡ "") ⊎ ((detect snapshot).0.model ≡ model)))

  -- The samples are a mapping's of this snapshot, which the first detection chose.
  pub record Measured (first : Families F) (before : Option String) (second : Option (Families F))
      (after : Option String) (o : Observation F) : Type 0 where
    pub snapshot : Families F
    pub mapping : Mapping
    pub chosen : (detect first).0.mapping ≡ some mapping
    pub detected : (detect snapshot).1 ≡ none
    pub same_engine : (detect snapshot).0.engine ≡ (detect first).0.engine
    pub named : o.engine ≡ engine_of (detect first).0.engine
    pub samples : o.result ≡ (map_by fl mapping snapshot o.model).result
    pub clean : (map_by fl mapping snapshot o.model).error ≡ none
    pub identity : is_identity o.model ≡ true
    pub source : Source first before second after snapshot o.model

  -- Either an error and no samples, or no error and evidence.
  pub data Fate (first : Families F) (before : Option String) (second : Option (Families F))
      (after : Option String) (o : Observation F) : Type 0 where
    silent :
        (e : ProbeError)
        → o.error ≡ some e
        → o.result.samples ≡ []
        → Fate first before second after o
    measured :
        o.error ≡ none → Measured first before second after o → Fate first before second after o

  module _ (first : Families F) (before : Option String) (second : Option (Families F))
      (after : Option String) where
    -- An observation that probe has begun, of the first detection's engine.
    record Begun (o : Observation F) : Type 0 where
      empty : o.result.samples ≡ []
      no_error : o.error ≡ none
      engine : o.engine ≡ engine_of (detect first).0.engine

    -- What is known of the snapshot that is measured.
    record Known (f : Families F) (model : String) : Type 0 where
      detected : (detect f).1 ≡ none
      same_engine : (detect f).0.engine ≡ (detect first).0.engine
      source : Source first before second after f model

    refused-Fate :
        (o : Observation F) (state : String) (e : ProbeError)
        → o.result.samples ≡ []
        → Fate first before second after (refused fl o state e)
    unfolding refused
    refused-Fate o state e q = silent e refl q

    measure-Fate :
        (o : Observation F) (mapping : Option Mapping) (f : Families F) (model : String)
        → Begun o
        → (detect first).0.mapping ≡ mapping
        → Known f model
        → Fate first before second after (measure fl o mapping f model)
    unfolding measure by_mapping by_error refused
    measure-Fate o mapping f model b c k =
        if-elim (Fate first before second after) (not (is_identity model))
          (λ t. refused-Fate o "identity_missing" bad_identity b.empty)
          (λ i. mapped (ground (arith, i)) mapping c)
      where
        named : Observation F
        named = record o {
          model = model;
          started = started_of (sum fl f "process_start_time_seconds" none);
        }

        by_outcome :
            is_identity model ≡ true
            → (m : Mapping) → (detect first).0.mapping ≡ some m
            → (e : Option MapError) → (map_by fl m f model).error ≡ e
            → Fate first before second after (by_error fl named (map_by fl m f model).result e)
        by_outcome i m c (some e) q = refused-Fate named "unavailable" (not_mapped e) b.empty
        by_outcome i m c none q = measured b.no_error (record {
          snapshot = f;
          mapping = m;
          chosen = c;
          detected = k.detected;
          same_engine = k.same_engine;
          named = b.engine;
          samples = refl;
          clean = q;
          identity = i;
          source = k.source;
        })

        mapped :
            is_identity model ≡ true
            → (mapping : Option Mapping) → (detect first).0.mapping ≡ mapping
            → Fate first before second after (by_mapping fl named f model mapping)
        mapped i none c = refused-Fate named "unavailable" no_mapping b.empty
        mapped i (some m) c = by_outcome i m c (map_by fl m f model).error refl

    by_after-Fate :
        (o : Observation F) (mapping : Option Mapping) (f : Families F) (b again : String)
        (a : Option String)
        → Begun o
        → (detect first).0.mapping ≡ mapping
        → (detect f).1 ≡ none
        → (detect f).0.engine ≡ (detect first).0.engine
        → (detect f).0.model ≡ again
        → (detect first).0.model ≡ ""
        → second ≡ some f
        → before ≡ some b
        → after ≡ a
        → Fate first before second after (by_after fl o mapping f b again a)
    unfolding by_after
    by_after-Fate o mapping f b again none h c d e m n g p q =
        refused-Fate o "ambiguous" model_changed h.empty
    by_after-Fate o mapping f b again (some a) h c d e m n g p q =
        if-elim (Fate first before second after)
          (not (str_eq b a) || (not (str_eq again "") && not (str_eq again b)))
          (λ t. refused-Fate o "ambiguous" model_changed h.empty)
          (λ ok.
            measure-Fate o mapping f b h c
              (record { detected = d; same_engine = e; source = source ok }))
      where
        source :
            (not (str_eq b a) || (not (str_eq again "") && not (str_eq again b))) ≡ false
            → Source first before second after f b
        source ok =
            let same : b ≡ a = ground (arith, eq_iff b a, ok) in
            inr (
              n,
              g,
              p,
              q ∙ ap some (sym same),
              elim (Bool-cases (str_eq again "")) [
                | inl t ↦ inl (m ∙ (eq_iff again "").0 t)
                | inr other ↦ inr (m ∙ ground (arith, eq_iff again b, ok, other))
              ],
            )

    by_again-Fate :
        (o : Observation F) (f : Families F) (b : String) (e : Option DetectError)
        → Begun o
        → (detect f).1 ≡ e
        → (detect first).0.model ≡ ""
        → second ≡ some f
        → before ≡ some b
        → Fate first before second after (by_again fl o (detect first).0 f b (detect f).0 e after)
    unfolding by_again
    by_again-Fate o f b (some e) h d n g p = refused-Fate o "ambiguous" engine_changed h.empty
    by_again-Fate o f b none h d n g p =
        if-elim (Fate first before second after)
          (not (str_eq (detect f).0.engine (detect first).0.engine))
          (λ t. refused-Fate o "ambiguous" engine_changed h.empty)
          (λ same.
            by_after-Fate o (detect first).0.mapping f b (detect f).0.model after h refl d
              (ground (arith, eq_iff (detect f).0.engine (detect first).0.engine, same)) refl n g p
              refl)

    bracket-Fate :
        (o : Observation F) (b : Option String) (given : Option (Families F))
        → Begun o
        → (detect first).0.model ≡ ""
        → before ≡ b
        → second ≡ given
        → Fate first before second after (bracket fl o (detect first).0 b given after)
    unfolding bracket by_second
    bracket-Fate o none given h n p g = refused-Fate o "identity_missing" no_metadata h.empty
    bracket-Fate o (some b) none h n p g = refused-Fate o o.state request_changed h.empty
    bracket-Fate o (some b) (some f) h n p g = by_again-Fate o f b (detect f).1 h refl n g p

    by_detection-Fate :
        (generation : String) (e : Option DetectError)
        → (detect first).1 ≡ e
        → Fate first before second after
            (by_detection fl (begin fl generation) first (detect first).0 e before second after)
    unfolding by_detection begin
    by_detection-Fate generation (some e) d =
        refused-Fate
          (record (begin fl generation) {
            engine = engine_of (detect first).0.engine;
            version = (detect first).0.version;
          })
          (state_of e) (not_detected e) refl
    by_detection-Fate generation none d =
        if-elim (Fate first before second after) (str_eq (detect first).0.model "")
          (λ t. bracket-Fate known before second begun ((eq_iff _ _).0 t) refl refl)
          (λ f.
            measure-Fate known (detect first).0.mapping first (detect first).0.model begun refl
              (record { detected = d; same_engine = refl; source = inl (refl, refl) }))
      where
        known : Observation F
        known = record (begin fl generation) {
          engine = engine_of (detect first).0.engine;
          version = (detect first).0.version;
        }

        begun : Begun known
        begun = record { empty = refl; no_error = refl; engine = refl }

  -- An endpoint that answers a first request for metrics is never mislabelled: the observation has an
  -- error and no samples, or it has no error, and its samples are what the mapping that the first
  -- exposition chose makes of an exposition that is detected without error as of the same engine,
  -- under a model name that is a valid identity. That is the first exposition, under its own label,
  -- or, where it has none, the second one, which was requested between the metadata's two answers,
  -- under the model that both gave and that its label, if any, names too.
  pub probe-Fate :
      (generation : String) (first : Families F) (before : Option String)
      (second : Option (Families F)) (after : Option String)
      → Fate first before second after (probe fl generation (some first) before second after)
  unfolding probe
  probe-Fate generation first before second after =
      by_detection-Fate first before second after generation (detect first).1 refl
