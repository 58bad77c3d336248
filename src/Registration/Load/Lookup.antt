-- ===== src/Registration/Load/Lookup.antt =====
-- LoadDir of internal/registration/registration.go, as a map from backends to registrations.
use mathlib.Core.List.{foldl}
use llm_metrics_exporter.Base.{
  ◌≡◌, ◌≢◌, ◌⊎◌, refl, sym, ap, subst, ◌∙◌, Bool, true, false, Option, none, some, List, [], ◌∷◌,
  ◌++◌, Bytes, codes, same_bytes, same_bytes_iff, has_prefix, has_suffix, length, drop,
  if◌then◌else◌, if-elim, arith, Bool-cases, inl, inr, length-append, ◌-◌,
}
use llm_metrics_exporter.Base.Assoc.{Assoc, get, Unique}
use llm_metrics_exporter.Base.Order.{sort_by, insert_by, bytes_lt, Ordered, sort_by-Ordered}
use llm_metrics_exporter.Registration.{
  Registration, Fault, Url, validate, is_backend, is_alphanumeric, within,
}
use llm_metrics_exporter.Registration.Valid.{validate-IsValid}
use llm_metrics_exporter.Registration.Load.{
  Codec, Decoded, document, at_end, not_decoded, Parsed, parsed, refused, Entry, listed, Loaded,
  suffix, parse, by_document, by_faults, check_file, with_run_id, is_skipped, load_entry,
  parsed_entry, rejected, load_listed, load_dir, no_entries,
}

abbrev pub lookup : Bytes → List Registration → Option Registration
lookup b [] = none
lookup b (r ∷ rs) = if same_bytes r.backend b then some r else lookup b rs

-- The first of two.
abbrev or_else : {A : Type 0} → Option A → Option A → Option A
or_else none o = o
or_else (some a) o = some a

lookup-append :
    (b : Bytes) (rs : List Registration) (r : Registration)
    → lookup b (rs ++ (r ∷ []))
      ≡ or_else (lookup b rs) (if same_bytes r.backend b then some r else none)
lookup-append b [] r = refl
lookup-append b (x ∷ rs) r = ground (arith, lookup-append b rs r)

bytes_lt_irrefl : (xs : Bytes) → bytes_lt xs xs ≡ false
unfolding bytes_lt
bytes_lt_irrefl [] = refl
bytes_lt_irrefl (x ∷ xs) = ground (arith, bytes_lt_irrefl xs)

abbrev pub backend_of : Registration → Bytes
backend_of r = r.backend

lookup-insert_by :
    (b : Bytes) (r : Registration) (rs : List Registration)
    → lookup b (insert_by backend_of r rs) ≡ lookup b (r ∷ rs)
unfolding insert_by
lookup-insert_by b r [] = refl
lookup-insert_by b r (x ∷ rs) =
    if-elim (λ l. lookup b l ≡ lookup b (r ∷ x ∷ rs)) (bytes_lt x.backend r.backend)
      (λ t. ground (
        arith,
        same_bytes_iff x.backend b,
        same_bytes_iff r.backend b,
        lookup-insert_by b r rs,
        apart t,
      ))
      (λ f. refl)
  where
    apart : bytes_lt x.backend r.backend ≡ true → x.backend ≢ r.backend
    apart t e =
        let no = bytes_lt_irrefl r.backend in
        let yes = subst (λ y. bytes_lt y r.backend ≡ true) e t in cc

lookup-sort_by :
    (b : Bytes) (rs : List Registration) → lookup b (sort_by backend_of rs) ≡ lookup b rs
unfolding sort_by
lookup-sort_by b [] = refl
lookup-sort_by b (r ∷ rs) =
    lookup-insert_by b r (sort_by backend_of rs)
    ∙ ap (λ o. if same_bytes r.backend b then some r else o) (lookup-sort_by b rs)

-- Plain files that can be read.
abbrev pub entries : Assoc Bytes → List Entry
entries [] = []
entries ((name, body) ∷ dir) =
    record { name = name; is_dir = false; body = body; read_fails = false } ∷ entries dir

abbrev pub the : Parsed → Option Registration
the (parsed r) = some r
the (refused e) = none

pub append_inj : (xs ys s : Bytes) → xs ++ s ≡ ys ++ s → xs ≡ ys
append_inj [] [] s e = refl
append_inj [] (y ∷ ys) s e = absurd (omega (arith, ap length e, length-append ys s))
append_inj (x ∷ xs) [] s e = absurd (omega (arith, ap length e, length-append xs s))
append_inj (x ∷ xs) (y ∷ ys) s e =
    let head : x ≡ y = cc in
    let rest : xs ++ s ≡ ys ++ s = cc in let tail = append_inj xs ys s rest in cc

drop-append : (xs ys : Bytes) → drop (length xs) (xs ++ ys) ≡ ys
drop-append [] ys = refl
drop-append (x ∷ xs) ys = drop-append xs ys

suffix_lem : (b : Bytes) → has_suffix (b ++ suffix) suffix ≡ true
suffix_lem b =
    let n = length-append b suffix in
    let e : length (b ++ suffix) - length suffix ≡ length b = omega arith in
    let d : drop (length (b ++ suffix) - length suffix) (b ++ suffix) ≡ suffix =
      rw e (drop-append b suffix) in
    let s : same_bytes (drop (length (b ++ suffix) - length suffix) (b ++ suffix)) suffix ≡ true =
      (same_bytes_iff _ _).1 d in
    ground arith

-- A backend's file is no hidden file.
pub visible : (b : Bytes) → is_backend b ≡ true → has_prefix (b ++ suffix) (codes ".") ≡ false
unfolding is_backend is_alphanumeric within
visible [] h = cc
visible (c ∷ cs) h = ground arith

abbrev entry : Bytes → Bytes → Entry
entry name body = record { name = name; is_dir = false; body = body; read_fails = false }

backend_file :
    (b body : Bytes) → is_backend b ≡ true → is_skipped (entry (b ++ suffix) body) ≡ false
unfolding is_skipped
backend_file b body h = let v = visible b h in let s = suffix_lem b in ground arith

module _ (parse_url : Bytes → Option Url) (codec : Codec) where
  -- What one file says about its backend.
  abbrev pub registered_in : Bytes → Option Bytes → Option Registration
  registered_in b none = none
  registered_in b (some body) = the (parse parse_url codec body (b ++ suffix))

  -- The registration of a backend, in the file that has its name.
  abbrev pub registered : Assoc Bytes → Bytes → Option Registration
  registered dir b = registered_in b (get (b ++ suffix) dir)

  by_faults_lem :
      (fs : List Fault) (s : Registration) (name : Bytes) (r : Registration)
      → by_faults fs s name ≡ parsed r
      → (fs ≡ []) × (s ≡ r) × (name ≡ s.backend ++ suffix)
  unfolding by_faults check_file
  by_faults_lem [] s name r =
      if-elim
        (λ p. p ≡ parsed r → (◌≡◌ {A = List Fault} [] []) × (s ≡ r) × (name ≡ s.backend ++ suffix))
        (same_bytes name (s.backend ++ suffix)) (λ t e. (refl, cc, (same_bytes_iff _ _).0 t))
        (λ f e. cc)
  by_faults_lem (f ∷ fs) s name r = λ e. cc

  by_document_lem :
      (d : Decoded) (single : Bool) (name : Bytes) (r : Registration)
      → by_document parse_url codec d single name ≡ parsed r
      → (name ≡ r.backend ++ suffix) × (validate parse_url r ≡ [])
  unfolding by_document
  by_document_lem at_end single name r e = cc
  by_document_lem not_decoded single name r e = cc
  by_document_lem (document s) false name r e = cc
  by_document_lem (document s) true name r e =
      let h = by_faults_lem (validate parse_url (with_run_id s)) (with_run_id s) name r e in
      (h.2 ∙ ap (λ x. x.backend ++ suffix) h.1, ap (validate parse_url) (sym h.1) ∙ h.0)

  -- A registration that Parse accepts is valid and stands in the file of its backend.
  pub parse_lem :
      (body name : Bytes) (r : Registration)
      → parse parse_url codec body name ≡ parsed r
      → (name ≡ r.backend ++ suffix) × (validate parse_url r ≡ [])
  unfolding parse
  parse_lem body name r e = by_document_lem (codec.strict body) (codec.is_single body) name r e

  parsed_file :
      (body name : Bytes) (r : Registration)
      → parse parse_url codec body name ≡ parsed r
      → is_skipped (entry name body) ≡ false
  parsed_file body name r e =
      let h = parse_lem body name r e in
      subst (λ n. is_skipped (entry n body) ≡ false) (sym h.0)
        (backend_file r.backend body ((validate-IsValid parse_url r).0 h.1).backend)

  -- An entry adds its registration, if it has one.
  load_entry_lem :
      (acc : Loaded) (name body : Bytes)
      → (((load_entry parse_url codec acc (entry name body)).valid ≡ acc.valid)
          × (the (parse parse_url codec body name) ≡ none))
        ⊎ ((r : Registration) × (parse parse_url codec body name ≡ parsed r)
            × ((load_entry parse_url codec acc (entry name body)).valid ≡ acc.valid ++ (r ∷ [])))
  unfolding load_entry parsed_entry rejected
  load_entry_lem acc name body = go (parse parse_url codec body name) refl
    where
      go :
          (p : Parsed)
          → parse parse_url codec body name ≡ p
          → (((load_entry parse_url codec acc (entry name body)).valid ≡ acc.valid)
              × (the (parse parse_url codec body name) ≡ none))
            ⊎ ((r : Registration) × (parse parse_url codec body name ≡ parsed r)
                × ((load_entry parse_url codec acc (entry name body)).valid
                    ≡ acc.valid ++ (r ∷ [])))
      go (parsed r) e = inr (
        r,
        e,
        ap
              (λ s.
                (if s
                  then acc
                  else parsed_entry parse_url codec acc (entry name body)
                      (parse parse_url codec body name)).valid)
              (parsed_file body name r e)
            ∙ ap (λ p. (parsed_entry parse_url codec acc (entry name body) p).valid) e,
      )
      go (refused err) e = inl (
        if-elim (λ (l : Loaded). l.valid ≡ acc.valid) (is_skipped (entry name body)) (λ t. refl)
            (λ f. ap (λ p. (parsed_entry parse_url codec acc (entry name body) p).valid) e),
        ap the e,
      )

  module _ (b name body : Bytes) (dir : Assoc Bytes) where
    abbrev with_file : Assoc Bytes
    with_file = (name, body) ∷ dir

    own_file : name ≡ b ++ suffix → registered with_file b ≡ the (parse parse_url codec body name)
    unfolding get
    own_file e =
        ap (λ t. registered_in b (if t then some body else get (b ++ suffix) dir))
          ((same_bytes_iff name (b ++ suffix)).1 e)
        ∙ ap (λ n. the (parse parse_url codec body n)) (sym e)

    other_file : same_bytes name (b ++ suffix) ≡ false → registered with_file b ≡ registered dir b
    unfolding get
    other_file f = ap (λ t. registered_in b (if t then some body else get (b ++ suffix) dir)) f

    no_more : name ≡ b ++ suffix → get name dir ≡ none → registered dir b ≡ none
    no_more e u = ap (registered_in b) (subst (λ n. get n dir ≡ none) e u)

    -- A file without a registration.
    empty_file_lem :
        get name dir ≡ none
        → the (parse parse_url codec body name) ≡ none
        → registered dir b ≡ registered with_file b
    empty_file_lem u n = elim (Bool-cases (same_bytes name (b ++ suffix))) [
      | inl t ↦ let e = (same_bytes_iff _ _).0 t in no_more e u ∙ sym (own_file e ∙ n)
      | inr f ↦ sym (other_file f)
    ]

    -- A file with one.
    full_file_lem :
        (o : Option Registration) (r : Registration)
        → parse parse_url codec body name ≡ parsed r
        → or_else (or_else o (if same_bytes r.backend b then some r else none)) (registered dir b)
          ≡ or_else o (registered with_file b)
    full_file_lem o r e =
        let h = parse_lem body name r e in
        elim (Bool-cases (same_bytes r.backend b)) [
          | inl t ↦
              let n : name ≡ b ++ suffix = h.0 ∙ ap (λ x. x ++ suffix) ((same_bytes_iff _ _).0 t) in
              rw (t, own_file n, e) (found o)
          | inr f ↦
              rw (f, other_file (differs f h.0))
                (ap (λ x. or_else x (registered dir b)) (or_none o))
        ]
      where
        found :
            (o : Option Registration)
            → or_else (or_else o (some r)) (registered dir b) ≡ or_else o (some r)
        found none = refl
        found (some x) = refl

        or_none : (o : Option Registration) → or_else o none ≡ o
        or_none none = refl
        or_none (some r) = refl

        differs :
            same_bytes r.backend b ≡ false
            → name ≡ r.backend ++ suffix
            → same_bytes name (b ++ suffix) ≡ false
        differs f e = elim (Bool-cases (same_bytes name (b ++ suffix))) [
          | inr apart ↦ apart
          | inl equal ↦
              let same = append_inj r.backend b suffix (sym e ∙ (same_bytes_iff _ _).0 equal) in
              absurd (ground (arith, same_bytes_iff r.backend b, same, f))
        ]

  load_entries_lem :
      (b : Bytes) (acc : Loaded) (dir : Assoc Bytes)
      → Unique dir
      → lookup b (foldl (load_entry parse_url codec) acc (entries dir)).valid
        ≡ or_else (lookup b acc.valid) (registered dir b)
  unfolding get
  load_entries_lem b acc [] u = or_none (lookup b acc.valid)
    where
      or_none : (o : Option Registration) → o ≡ or_else o none
      or_none none = refl
      or_none (some r) = refl
  load_entries_lem b acc ((name, body) ∷ dir) u =
      let next = load_entry parse_url codec acc (entry name body) in
      load_entries_lem b next dir u.1 ∙ elim (load_entry_lem acc name body) [
        | inl (v, n) ↦
            ap (λ l. or_else (lookup b l) (registered dir b)) v
            ∙ ap (or_else (lookup b acc.valid)) (empty_file_lem b name body dir u.0 n)
        | inr (r, e, v) ↦
            ap (λ l. or_else (lookup b l) (registered dir b)) v
            ∙ ap (λ o. or_else o (registered dir b)) (lookup-append b acc.valid r)
            ∙ full_file_lem b name body dir (lookup b acc.valid) r e
      ]

  -- LoadDir on a directory of readable files, no two of one name: what it lists for a backend is what
  -- Parse makes of the file `<backend>.yaml`, and it lists in the order of the backends.
  pub load_dir-lookup :
      (path : Bytes) (dir : Assoc Bytes)
      → Unique dir
      → ((b : Bytes)
          → lookup b (load_dir parse_url codec path (listed (entries dir))).valid
            ≡ registered dir b)
        × Ordered backend_of (load_dir parse_url codec path (listed (entries dir))).valid
  unfolding load_dir load_listed no_entries
  load_dir-lookup path dir u =
      let all = foldl (load_entry parse_url codec) (no_entries parse_url codec) (entries dir) in
      (
        λ b. lookup-sort_by b all.valid ∙ load_entries_lem b (no_entries parse_url codec) dir u,
        sort_by-Ordered backend_of all.valid,
      )
