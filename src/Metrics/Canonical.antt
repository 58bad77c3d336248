-- ===== src/Metrics/Canonical.antt =====
-- What the canonical schema asks of a sample, and that validate accepts exactly that.
use mathlib.Core.Bool.{false≢true}
use llm_metrics_exporter.Base.{
  suc, ◌≡◌, ◌≢◌, ◌↔◌, ◌⊎◌, inl, inr, refl, sym, ap, subst, ◌∙◌, Bool, true, false, not, Option,
  none, some, List, [], ◌∷◌, String, arith, codes, length, has_suffix, ◌==◌, eq_iff, if◌then◌else◌,
  Bool-cases, ==_iff,
}
use llm_metrics_exporter.Base.Floats.{Floats}
use llm_metrics_exporter.Metrics.Bounds.{IsOrder}
use llm_metrics_exporter.Metrics.Cumulative.{IsMap, IsCumulative, validate_hist-IsCumulative}
use llm_metrics_exporter.Metrics.{
  Kind, counter, gauge, histogram, Def, Hist, Sample, prefill, decode, adapter_defs, has_name,
  is_adapter_name, check_labels, validate_hist, check_value, validate_def, validate, Invalid,
  not_emitted, label_count,
}

abbrev pub Named : String → List Def → Type 0
Named n [] = ⊥
Named n (d ∷ ds) = (d.name ≡ n) ⊎ Named n ds

-- A value for each label, none empty, and a phase is prefill or decode.
abbrev pub LabelsFit : List String → List String → Type 0
LabelsFit [] [] = Unit
LabelsFit [] (v ∷ vs) = ⊥
LabelsFit (l ∷ ls) [] = ⊥
LabelsFit (l ∷ ls) (v ∷ vs) =
    (v ≢ "") × (l ≡ "phase" → (v ≡ prefill) ⊎ (v ≡ decode)) × LabelsFit ls vs

has_name-Named : (n : String) (ds : List Def) → (has_name n ds ≡ true) ↔ Named n ds
unfolding has_name
has_name-Named n [] = (λ h. false≢true h, λ h. absurd h)
has_name-Named n (d ∷ ds) = ground (arith, has_name-Named n ds, eq_iff d.name n)

check_labels-LabelsFit :
    (ls vs : List String) → length vs ≡ length ls → (check_labels ls vs ≡ none) ↔ LabelsFit ls vs
unfolding check_labels
check_labels-LabelsFit [] [] h = ground arith
check_labels-LabelsFit [] (v ∷ vs) h = absurd (omega arith)
check_labels-LabelsFit (l ∷ ls) [] h = absurd (omega arith)
check_labels-LabelsFit (l ∷ ls) (v ∷ vs) h = ground (
  arith,
  check_labels-LabelsFit ls vs (omega arith),
  eq_iff v "",
  eq_iff l "phase",
  eq_iff v prefill,
  eq_iff v decode,
)

LabelsFit-length : (ls vs : List String) → LabelsFit ls vs → length vs ≡ length ls
LabelsFit-length [] [] h = refl
LabelsFit-length [] (v ∷ vs) h = absurd h
LabelsFit-length (l ∷ ls) [] h = absurd h
LabelsFit-length (l ∷ ls) (v ∷ vs) h = ap suc (LabelsFit-length ls vs h.2)

none≢some {ℓ} : {A : Type ℓ} {a : A} → none ≢ some a
none≢some e = cc

gates :
    {A B C : Type 0} (a n : Bool) (l v : Option Invalid)
    → (a ≡ true) ↔ A
    → (n ≡ true → (l ≡ none) ↔ B)
    → (B → n ≡ true)
    → (v ≡ none) ↔ C
    → ((if not a
          then some not_emitted
          else if not n
          then some label_count
          else elim l [ some e ↦ some e | none ↦ v ])
        ≡ none)
      ↔ (A × B × C)
gates false n l v ha hl hn hv = (λ e. cc, λ (x, y, z). absurd (false≢true (ha.1 x)))
gates true false l v ha hl hn hv = (λ e. cc, λ (x, y, z). absurd (false≢true (hn y)))
gates true true none v ha hl hn hv =
    (λ e. (ha.0 refl, (hl refl).0 refl, hv.0 e), λ (x, y, z). hv.1 z)
gates true true (some l) v ha hl hn hv = (λ e. cc, λ (x, y, z). (hl refl).1 y)

module _ (fl : Floats) where
  open fl use {F, zero as zero_float, one, lt, is_nan, is_inf}

  abbrev pub IsFinite : F → Type 0
  IsFinite x = (is_nan x ≡ false) × (is_inf x ≡ false)

  abbrev pub ValueFits : Kind → String → Sample F → Type 0
  ValueFits counter name s = IsFinite s.value × (lt s.value zero_float ≡ false)
  ValueFits gauge name s =
      IsFinite s.value
      × (has_suffix (codes name) (codes "_ratio") ≡ true
          → (lt s.value zero_float ≡ false) × (lt one s.value ≡ false))
  ValueFits histogram name s = (h : Hist F) × (s.hist ≡ some h) × IsCumulative fl h

  -- The buckets of a sample's histogram are a map.
  abbrev pub Keyed : Option (Hist F) → Type 0
  Keyed none = Unit
  Keyed (some h) = IsMap fl h.buckets

  -- The schema, without reference to the code that checks it.
  abbrev pub IsCanonical : Sample F → Type 0
  IsCanonical s =
      (d : Def) × (s.def ≡ some d)
      × Named d.name adapter_defs
      × LabelsFit d.labels s.labels
      × ValueFits d.kind d.name s

module _ (fl : Floats) (laws : IsOrder fl) where
  open fl use {F}

  hist-fits :
      (o : Option (Hist F))
      → Keyed fl o
      → (validate_hist fl o ≡ none) ↔ ((h : Hist F) × (o ≡ some h) × IsCumulative fl h)
  unfolding validate_hist
  hist-fits none k = (λ e. cc, λ (h, e, r). cc)
  hist-fits (some h) k = (
    λ e. (h, refl, (validate_hist-IsCumulative fl laws h k).0 e),
    λ (h', e, r).
        ap (validate_hist fl) e
        ∙ (validate_hist-IsCumulative fl laws h' (subst (Keyed fl) e k)).1 r,
  )

  check_value-fits :
      (k : Kind) (d : Def) (s : Sample F)
      → d.kind ≡ k
      → Keyed fl s.hist
      → (check_value fl d s ≡ none) ↔ ValueFits fl k d.name s
  unfolding check_value
  check_value-fits counter d s e k = rw (e, check_value) (ground arith)
  check_value-fits gauge d s e k = elim (Bool-cases (has_suffix (codes d.name) (codes "_ratio"))) [
    | inl ratio ↦ rw (e, ratio, check_value) (ground arith)
    | inr plain ↦ rw (e, plain, check_value) (ground arith)
  ]
  check_value-fits histogram d s e k = rw (e, check_value) (hist-fits s.hist k)

  validate_def-fits :
      (d : Def) (s : Sample F)
      → Keyed fl s.hist
      → (validate_def fl d s ≡ none)
        ↔ (Named d.name adapter_defs × LabelsFit d.labels s.labels × ValueFits fl d.kind d.name s)
  unfolding validate_def is_adapter_name
  validate_def-fits d s k =
      gates (is_adapter_name d.name) (length s.labels == length d.labels)
        (check_labels d.labels s.labels) (check_value fl d s) (has_name-Named d.name adapter_defs)
        (λ n. check_labels-LabelsFit d.labels s.labels ((==_iff _ _).0 n))
        (λ h. (==_iff _ _).1 (LabelsFit-length d.labels s.labels h))
        (check_value-fits d.kind d s refl k)

  -- validate accepts a sample exactly if it is canonical: a known series with a value for each of
  -- its labels, none empty and each phase prefill or decode, and a value that fits the kind: finite
  -- and not negative for a counter, finite (and within 0..1 for a ratio) for a gauge, and for a
  -- histogram a snapshot in which no count under a number passes the total or the count under a
  -- greater number. The comparisons are those of IEEE 754, and no two keys of the buckets are equal.
  pub validate-IsCanonical :
      (s : Sample F) → Keyed fl s.hist → (validate fl s ≡ none) ↔ IsCanonical fl s
  unfolding validate
  validate-IsCanonical s keyed = accepts s.def refl
    where
      accepts : (o : Option Def) → s.def ≡ o → (validate fl s ≡ none) ↔ IsCanonical fl s
      accepts none e = (
        λ v. absurd (none≢some (sym (rw (e, validate) at v))),
        λ c. absurd (none≢some (sym e ∙ c.1)),
      )
      accepts (some d) e = (
        λ v.
            let parts = (validate_def-fits d s keyed).0 (rw (e, validate) at v) in
            (d, e, parts.0, parts.1, parts.2),
        λ c. rw (c.1, validate) ((validate_def-fits c.0 s keyed).1 (c.2, c.3, c.4)),
      )
