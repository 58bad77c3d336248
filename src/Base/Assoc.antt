-- ===== src/Base/Assoc.antt =====
-- A map from byte strings as an association list: a directory's files by name.
use mathlib.Core.List.{List, [], ◌∷◌}
use mathlib.Core.Logic.{◌≢◌}
use mathlib.Core.Option.{Option, none, some}
use mathlib.Core.Path.{◌≡◌, refl, subst, ◌∙◌}
use native.Mathlib.Omega.{arith}
use llm_metrics_exporter.Base.Lists.{Bytes, same_bytes, same_bytes_iff}
use llm_metrics_exporter.Base.Tests.{if◌then◌else◌, if-elim}

abbrev pub Assoc {ℓ} : Type ℓ → Type ℓ
Assoc V = List (Bytes × V)

module _ {ℓ} {V : Type ℓ} where
  unfoldable pub get : Bytes → Assoc V → Option V
  get k [] = none
  get k ((j, v) ∷ m) = if same_bytes j k then some v else get k m

  unfoldable pub put : Bytes → V → Assoc V → Assoc V
  put k v [] = (k, v) ∷ []
  put k v ((j, w) ∷ m) = if same_bytes j k then (k, v) ∷ m else (j, w) ∷ put k v m

  unfoldable pub delete : Bytes → Assoc V → Assoc V
  delete k [] = []
  delete k ((j, v) ∷ m) = let rest = delete k m in if same_bytes j k then rest else (j, v) ∷ rest

  pub get-put_self : (k : Bytes) (v : V) (m : Assoc V) → get k (put k v m) ≡ some v
  unfolding get put
  get-put_self k v [] = rw ((same_bytes_iff k k).1 refl)
  get-put_self k v ((j, w) ∷ m) =
      ground (arith, same_bytes_iff j k, same_bytes_iff k k, get-put_self k v m)

  pub get-put_ne : (k j : Bytes) (v : V) (m : Assoc V) → j ≢ k → get j (put k v m) ≡ get j m
  unfolding get put
  get-put_ne k j v [] h = ground (arith, same_bytes_iff k j)
  get-put_ne k j v ((i, w) ∷ m) h =
      ground (arith, same_bytes_iff i k, same_bytes_iff i j, same_bytes_iff k j, get-put_ne k j v m)

  pub get-delete_ne : (k j : Bytes) (m : Assoc V) → j ≢ k → get j (delete k m) ≡ get j m
  unfolding get delete
  get-delete_ne k j [] h = refl
  get-delete_ne k j ((i, w) ∷ m) h =
      ground (arith, same_bytes_iff i k, same_bytes_iff i j, get-delete_ne k j m)

  -- No two entries have one name.
  abbrev pub Unique : Assoc V → Type ℓ
  Unique [] = Unit
  Unique ((j, v) ∷ m) = (get j m ≡ none) × Unique m

  pub get-delete-none : (k j : Bytes) (m : Assoc V) → get j m ≡ none → get j (delete k m) ≡ none
  unfolding get delete
  get-delete-none k j [] h = refl
  get-delete-none k j ((i, v) ∷ m) h =
      ground (arith, same_bytes_iff i k, same_bytes_iff i j, get-delete-none k j m)

  pub put-Unique : (k : Bytes) (v : V) (m : Assoc V) → Unique m → Unique (put k v m)
  unfolding get put
  put-Unique k v [] u = (refl, tt)
  put-Unique k v ((j, w) ∷ m) u =
      if-elim Unique (same_bytes j k)
        (λ t. (subst (λ n. get n m ≡ none) ((same_bytes_iff _ _).0 t) u.0, u.1))
        (λ f. (
          get-put_ne k j v m (λ e. ground (arith, same_bytes_iff j k, e, f)) ∙ u.0,
          put-Unique k v m u.1,
        ))

  pub delete-Unique : (k : Bytes) (m : Assoc V) → Unique m → Unique (delete k m)
  unfolding delete
  delete-Unique k [] u = tt
  delete-Unique k ((j, w) ∷ m) u =
      if-elim Unique (same_bytes j k) (λ t. delete-Unique k m u.1)
        (λ f. (get-delete-none k j m u.0, delete-Unique k m u.1))
