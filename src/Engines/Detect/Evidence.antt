-- ===== src/Engines/Detect/Evidence.antt =====
-- What a detection of internal/engines/detect.go rests on.
use llm_metrics_exporter.Base.{
  ◌≡◌, ◌≢◌, ◌↔◌, refl, ap, ◌∙◌, Bool, true, false, none, some, List, [], ◌∷◌, ◌++◌, String,
  Bool-cases, inl, inr, str_eq, arith,
}
use llm_metrics_exporter.Promtext.{Families, label_values}
use llm_metrics_exporter.Engines.Tensorfold.{is_patch_0150, is_native}
use llm_metrics_exporter.Engines.Detect.{
  Mapping, by_vllm, by_llamacpp, by_sglang, by_patch_0150, by_native, by_tensorfold, Candidate,
  Detection, candidate, matches, with_model, detected, decide, detect, has_mlx, is_vllm,
  is_llamacpp, is_sglang,
}

some≢none {ℓ} : {A : Type ℓ} {a : A} → some a ≢ none
some≢none e = cc

-- The signature that Detect asks of a mapping; the mapping of the registered adapter has none.
pub signature : {F : Type 0} → Families F → Mapping → Bool
signature f by_vllm = is_vllm f
signature f by_llamacpp = is_llamacpp f
signature f by_sglang = is_sglang f
signature f by_patch_0150 = is_patch_0150 f
signature f by_native = is_native f
signature f by_tensorfold = false

with_model_mapping : (d : Detection) (ms : List String) → (with_model d ms).0.mapping ≡ d.mapping
unfolding with_model
with_model_mapping d [] = refl
with_model_mapping d (m ∷ []) = refl
with_model_mapping d (m ∷ n ∷ ms) = refl

detected_mapping :
    {F : Type 0} (f : Families F) (c : Candidate) → (detected f c).0.mapping ≡ some c.mapping
unfolding detected
detected_mapping f c = elim (Bool-cases (str_eq c.label "")) [
  | inl t ↦ rw (t, detected)
  | inr n ↦ rw (n, detected) (with_model_mapping _ (label_values f c.metric c.label))
]

-- The one candidate that a detection without error has.
Sole : {F : Type 0} → Families F → List Candidate → Type 0
Sole f cs = (c : Candidate) × (cs ≡ c ∷ []) × ((decide f false cs).0.mapping ≡ some c.mapping)

decide-Sole :
    {F : Type 0} (f : Families F) (mlx : Bool) (cs : List Candidate)
    → (decide f mlx cs).1 ≡ none
    → (mlx ≡ false) × Sole f cs
unfolding decide Sole
decide-Sole f true [] e = absurd (some≢none e)
decide-Sole f false [] e = absurd (some≢none e)
decide-Sole f true (c ∷ cs) e = absurd (some≢none e)
decide-Sole f false (c ∷ []) e = (refl, (c, refl, detected_mapping f c))
decide-Sole f false (c ∷ d ∷ cs) e = absurd (some≢none e)

-- Five tests, the candidates of those that hold, and the test of a mapping.
module _ (v l s p n : Bool) where
  bit : Mapping → Bool
  bit by_vllm = v
  bit by_llamacpp = l
  bit by_sglang = s
  bit by_patch_0150 = p
  bit by_native = n
  bit by_tensorfold = false

module _ (cv cl cs cp cn : Candidate) where
  candidates : (v l s p n : Bool) → List Candidate
  unfolding candidate
  candidates v l s p n =
      candidate v cv ++ (candidate l cl ++ (candidate s cs ++ (candidate p cp ++ candidate n cn)))

  record Named : Type 0 where
    vllm_name : cv.mapping ≡ by_vllm
    llamacpp_name : cl.mapping ≡ by_llamacpp
    sglang_name : cs.mapping ≡ by_sglang
    patch_name : cp.mapping ≡ by_patch_0150
    native_name : cn.mapping ≡ by_native

  sole_of :
      (v l s p n : Bool) (c : Candidate) (m : Mapping)
      → Named
      → candidates v l s p n ≡ c ∷ []
      → (bit v l s p n m ≡ true) ↔ (m ≡ c.mapping)
  unfolding candidates bit
  sole_of v l s p n c by_vllm h e = ground arith
  sole_of v l s p n c by_llamacpp h e = ground arith
  sole_of v l s p n c by_sglang h e = ground arith
  sole_of v l s p n c by_patch_0150 h e = ground arith
  sole_of v l s p n c by_native h e = ground arith
  sole_of v l s p n c by_tensorfold h e = ground arith

signature-bit :
    {F : Type 0} (f : Families F) (m : Mapping)
    → signature f m
      ≡ bit (is_vllm f) (is_llamacpp f) (is_sglang f) (is_patch_0150 f) (is_native f) m
unfolding signature bit
signature-bit f by_vllm = refl
signature-bit f by_llamacpp = refl
signature-bit f by_sglang = refl
signature-bit f by_patch_0150 = refl
signature-bit f by_native = refl
signature-bit f by_tensorfold = refl

-- A detection without error: no family of mlx-serve, and a mapping whose signature the exposition
-- has, while it has no other mapping's.
pub detect-Evidence :
    {F : Type 0} (f : Families F)
    → (detect f).1 ≡ none
    → (has_mlx f ≡ false)
      × ((chosen : Mapping) × ((detect f).0.mapping ≡ some chosen)
          × ((m : Mapping) → (signature f m ≡ true) ↔ (m ≡ chosen)))
unfolding detect matches candidates Sole
detect-Evidence f e =
    let sole = decide-Sole f (has_mlx f) (matches f) e in
    let c = sole.1.0 in
    (
      sole.0,
      (
        c.mapping,
        ap (λ b. (decide f b (matches f)).0.mapping) sole.0 ∙ sole.1.2,
        λ m. rw (signature-bit f m) (
            sole_of _ _ _ _ _ (is_vllm f) (is_llamacpp f) (is_sglang f) (is_patch_0150 f)
              (is_native f) c m
              (record {
                vllm_name = refl;
                llamacpp_name = refl;
                sglang_name = refl;
                patch_name = refl;
                native_name = refl;
              })
              sole.1.1),
      ),
    )
