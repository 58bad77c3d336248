-- ===== src/Metrics/Keys.antt =====
-- Two samples of one arm share a key only if they are of the same series.
use mathlib.Core.Path.{ap₂}
use text.Mathlib.TextEquality.{Char-path}
use llm_metrics_exporter.Base.{
  ◌≡◌, ◌≢◌, refl, sym, ap, ◌∙◌, List, [], ◌∷◌, ◌++◌, append_assoc, String, Bytes, codes, map,
}
use llm_metrics_exporter.Base.Separators.{Free, eq-append_sep, Free-ne-append_sep}
use llm_metrics_exporter.Metrics.{Def, key, join_nul, worker_id}

head-eq {ℓ} : {A : Type ℓ} {x y : A} {xs ys : List A} → (x ∷ xs) ≡ (y ∷ ys) → x ≡ y
head-eq e = cc

tail-eq {ℓ} : {A : Type ℓ} {x y : A} {xs ys : List A} → (x ∷ xs) ≡ (y ∷ ys) → xs ≡ ys
tail-eq e = cc

nil≢cons {ℓ} : {A : Type ℓ} {x : A} {xs : List A} → [] ≢ (x ∷ xs)
nil≢cons e = cc

codes-injective : (s t : String) → codes s ≡ codes t → s ≡ t
codes-injective String.[] String.[] e = refl
codes-injective String.[] (String.◌∷◌ d t) e = absurd (nil≢cons e)
codes-injective (String.◌∷◌ c s) String.[] e = absurd (nil≢cons (sym e))
codes-injective (String.◌∷◌ c s) (String.◌∷◌ d t) e =
    ap₂ String.◌∷◌ (Char-path c d (head-eq e)) (codes-injective s t (tail-eq e))

map-codes-injective : (ss ts : List String) → map codes ss ≡ map codes ts → ss ≡ ts
map-codes-injective [] [] e = refl
map-codes-injective [] (t ∷ ts) e = absurd (nil≢cons e)
map-codes-injective (s ∷ ss) [] e = absurd (nil≢cons (sym e))
map-codes-injective (s ∷ ss) (t ∷ ts) e =
    ap₂ ◌∷◌ (codes-injective s t (head-eq e)) (map-codes-injective ss ts (tail-eq e))

-- Each part is not empty and has no NUL.
abbrev Parts : List Bytes → Type 0
Parts [] = Unit
Parts (p ∷ ps) = (p ≢ []) × Free 0 p × Parts ps

-- The joined label values and the worker are determined by the bytes behind the name.
join_nul-injective :
    (ps qs : List Bytes) (w v : Bytes)
    → Parts ps
    → Parts qs
    → Free 0 w
    → Free 0 v
    → join_nul ps ++ (0 ∷ w) ≡ join_nul qs ++ (0 ∷ v)
    → (ps ≡ qs) × (w ≡ v)
unfolding join_nul
join_nul-injective [] [] w v hp hq hw hv e = (refl, tail-eq e)
join_nul-injective [] (q ∷ []) w v hp hq hw hv e =
    absurd (hq.0 (sym (eq-append_sep 0 [] q tt hq.1 e).0))
join_nul-injective [] (q ∷ q' ∷ qs) w v hp hq hw hv e =
    absurd (hq.0 (sym (eq-append_sep 0 [] q tt hq.1 (e ∙ append_assoc q _ _)).0))
join_nul-injective (p ∷ []) [] w v hp hq hw hv e = absurd (hp.0 (eq-append_sep 0 p [] hp.1 tt e).0)
join_nul-injective (p ∷ p' ∷ ps) [] w v hp hq hw hv e =
    absurd (hp.0 (eq-append_sep 0 p [] hp.1 tt (sym (append_assoc p _ _) ∙ e)).0)
join_nul-injective (p ∷ []) (q ∷ []) w v hp hq hw hv e =
    let both = eq-append_sep 0 p q hp.1 hq.1 e in (ap (λ x. x ∷ []) both.0, both.1)
join_nul-injective (p ∷ []) (q ∷ q' ∷ qs) w v hp hq hw hv e =
    let both = eq-append_sep 0 p q hp.1 hq.1 (e ∙ append_assoc q _ _) in
    absurd (Free-ne-append_sep 0 w (join_nul (q' ∷ qs)) _ hw both.1)
join_nul-injective (p ∷ p' ∷ ps) (q ∷ []) w v hp hq hw hv e =
    let both = eq-append_sep 0 p q hp.1 hq.1 (sym (append_assoc p _ _) ∙ e) in
    absurd (Free-ne-append_sep 0 v (join_nul (p' ∷ ps)) _ hv (sym both.1))
join_nul-injective (p ∷ p' ∷ ps) (q ∷ q' ∷ qs) w v hp hq hw hv e =
    let both = eq-append_sep 0 p q hp.1 hq.1 (sym (append_assoc p _ _) ∙ e ∙ append_assoc q _ _) in
    let more = join_nul-injective (p' ∷ ps) (q' ∷ qs) w v hp.2 hq.2 hw hv both.1 in
    (ap₂ ◌∷◌ both.0 more.0, more.1)

-- No label value is empty (validate refuses one that is), and no text holds a NUL.
abbrev pub Clean : Def → List String → String → Type 0
Clean d labels worker =
    Free 0 (codes d.name) × Parts (map codes labels) × Free 0 (codes (worker_id worker))

-- Samples whose label values are not empty, and whose texts hold no NUL, have the same key only if
-- they agree in the series' name, in every label value and in the worker.
pub key-injective :
    (d e : Def) (ls ms : List String) (w v : String)
    → Clean d ls w
    → Clean e ms v
    → key d ls w ≡ key e ms v
    → (d.name ≡ e.name) × (ls ≡ ms) × (worker_id w ≡ worker_id v)
unfolding key
key-injective d e ls ms w v hd he same =
    let name = eq-append_sep 0 (codes d.name) (codes e.name) hd.0 he.0 same in
    let rest = join_nul-injective (map codes ls) (map codes ms) _ _ hd.1 he.1 hd.2 he.2 name.1 in
    (
      codes-injective d.name e.name name.0,
      map-codes-injective ls ms rest.0,
      codes-injective (worker_id w) (worker_id v) rest.1,
    )
