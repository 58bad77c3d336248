-- ===== src/RemoteWrite/Series/Keys.antt =====
-- The length prefixes of seriesKey: no two label lists share a key.
use mathlib.Core.Path.{ap₂}
use llm_metrics_exporter.Base.{
  ℕ, ◌≡◌, ◌≢◌, refl, sym, ap, ◌∙◌, List, [], ◌∷◌, ◌++◌, append_assoc, Bytes, arith, length,
  length-append,
}
use llm_metrics_exporter.Base.Decimal.{
  AllDigits, value, decimal, value-decimal, decimal-AllDigits, decimal_pos,
}
use llm_metrics_exporter.Base.Separators.{Free, eq-append_sep, eq-append_length}
use llm_metrics_exporter.RemoteWrite.Series.{Label, series_key, sized}

AllDigits-Free : (ds : Bytes) → AllDigits ds → Free 58 ds
AllDigits-Free [] h = tt
AllDigits-Free (d ∷ ds) h = (omega arith, AllDigits-Free ds h.2)

decimal-injective : (m n : ℕ) → decimal m ≡ decimal n → m ≡ n
decimal-injective m n e = sym (value-decimal m) ∙ ap (value 0) e ∙ value-decimal n

decimal-Free : (n : ℕ) → Free 58 (decimal n)
decimal-Free n = AllDigits-Free (decimal n) (decimal-AllDigits n)

-- A sized text, whatever follows it, determines the text and what follows.
sized-injective : (s t r q : Bytes) → sized s ++ r ≡ sized t ++ q → (s ≡ t) × (r ≡ q)
sized-injective s t r q e =
    let cut =
      eq-append_sep 58 (decimal (length s)) (decimal (length t)) (decimal-Free (length s))
        (decimal-Free (length t))
        (sym (append_assoc (decimal (length s)) (58 ∷ s) r)
          ∙ e
          ∙ append_assoc (decimal (length t)) (58 ∷ t) q) in
    eq-append_length s t (decimal-injective (length s) (length t) cut.0) cut.1

sized_ne : (s r : Bytes) → [] ≢ sized s ++ r
sized_ne s r e = omega (
  arith,
  ap length e,
  length-append (sized s) r,
  length-append (decimal (length s)) (58 ∷ s),
  decimal_pos (length s),
)

-- Series with the same key have the same labels, whatever bytes the names and values hold.
pub series_key-injective : (ls ms : List Label) → series_key ls ≡ series_key ms → ls ≡ ms
unfolding series_key
series_key-injective [] [] e = refl
series_key-injective [] (m ∷ ms) e = absurd (sized_ne m.name _ e)
series_key-injective (l ∷ ls) [] e = absurd (sized_ne l.name _ (sym e))
series_key-injective (l ∷ ls) (m ∷ ms) e =
    let names = sized-injective l.name m.name _ _ e in
    let values = sized-injective l.value m.value _ _ names.1 in
    ap₂ ◌∷◌ (label_eq l m names.0 values.0) (series_key-injective ls ms values.1)
  where
    label_eq : (l m : Label) → l.name ≡ m.name → l.value ≡ m.value → l ≡ m
    label_eq l m p q = λ i. record { name = p i; value = q i }
