-- ===== src/Registration/Write/Atomic.antt =====
-- What LoadDir sees while Write of internal/registration/registration.go runs.
use llm_metrics_exporter.Base.{
  ◌≡◌, refl, sym, ap, subst, ◌∙◌, true, false, Option, none, some, List, [], ◌∷◌, ◌++◌, Bytes,
  codes, same_bytes, same_bytes_iff, has_prefix, take, if◌then◌else◌, if-elim, arith, Bool-cases,
  inl, inr,
}
use llm_metrics_exporter.Base.Assoc.{
  get, put, delete, get-put_self, get-put_ne, get-delete_ne, Unique, put-Unique, delete-Unique,
}
use llm_metrics_exporter.Registration.{Registration, Fault, Url, validate, is_token, is_empty}
use llm_metrics_exporter.Registration.Valid.{validate-IsValid}
use llm_metrics_exporter.Registration.Load.{
  Codec, document, Parsed, parsed, refused, suffix, parse, by_document, by_faults as check_faults,
  check_file, with_run_id, load_dir, listed, wrong_file,
}
use llm_metrics_exporter.Registration.Load.Lookup.{
  lookup, entries, registered, registered_in, parse_lem, load_dir-lookup, visible, the, append_inj,
}
use llm_metrics_exporter.Registration.Write.{
  Dir, System, Failing, nothing, at_mkdir, at_lock, at_create, at_write, at_chmod, at_sync,
  at_close, at_rename, Written, WriteError, invalid, not_marshalled, system_error, tmp_name,
  unchanged, discarded, renamed, store_by, marshalled, by_faults, write,
}

abbrev pub Every : (Dir → Type 0) → List Dir → Type 0
Every P [] = Unit
Every P (d ∷ ds) = P d × Every P ds

module _ (parse_url : Bytes → Option Url) (codec : Codec) where
  -- A hidden file holds no registration.
  hidden_lem :
      (d : Dir) (b : Bytes)
      → has_prefix (b ++ suffix) (codes ".") ≡ true
      → registered parse_url codec d b ≡ none
  hidden_lem d b h = go (get (b ++ suffix) d)
    where
      by_parse :
          (body : Bytes) (p : Parsed)
          → parse parse_url codec body (b ++ suffix) ≡ p
          → the (parse parse_url codec body (b ++ suffix)) ≡ none
      by_parse body (refused e) q = ap the q
      by_parse body (parsed r) q =
          let l = parse_lem parse_url codec body (b ++ suffix) r q in
          let v = visible r.backend ((validate-IsValid parse_url r).0 l.1).backend in
          let w = subst (λ n. has_prefix n (codes ".") ≡ false) (sym l.0) v in cc

      go : (o : Option Bytes) → registered_in parse_url codec b o ≡ none
      go none = refl
      go (some body) = by_parse body (parse parse_url codec body (b ++ suffix)) refl

  module _ (t : Bytes) (hidden : has_prefix t (codes ".") ≡ true) where
    hidden_name :
        (b : Bytes)
        → same_bytes (b ++ suffix) t ≡ true
        → has_prefix (b ++ suffix) (codes ".") ≡ true
    hidden_name b e =
        let same : b ++ suffix ≡ t = (same_bytes_iff (b ++ suffix) t).0 e in
        ap (λ n. has_prefix n (codes ".")) same ∙ hidden

    registered-put :
        (v b : Bytes) (d : Dir)
        → registered parse_url codec (put t v d) b ≡ registered parse_url codec d b
    registered-put v b d = elim (Bool-cases (same_bytes (b ++ suffix) t)) [
      | inl e ↦ let h = hidden_name b e in hidden_lem (put t v d) b h ∙ sym (hidden_lem d b h)
      | inr f ↦ ap (registered_in parse_url codec b) (
          get-put_ne t (b ++ suffix) v d
            (λ e. ground (arith, same_bytes_iff (b ++ suffix) t, e, f)))
    ]

    registered-delete :
        (b : Bytes) (d : Dir)
        → registered parse_url codec (delete t d) b ≡ registered parse_url codec d b
    registered-delete b d = elim (Bool-cases (same_bytes (b ++ suffix) t)) [
      | inl e ↦ let h = hidden_name b e in hidden_lem (delete t d) b h ∙ sym (hidden_lem d b h)
      | inr f ↦ ap (registered_in parse_url codec b) (
          get-delete_ne t (b ++ suffix) d
            (λ e. ground (arith, same_bytes_iff (b ++ suffix) t, e, f)))
    ]

  -- What LoadDir lists for a backend.
  abbrev pub loaded : Bytes → Dir → Bytes → Option Registration
  loaded path d b = lookup b (load_dir parse_url codec path (listed (entries d))).valid

  -- LoadDir lists what it listed before, for every backend.
  pub record Same (path : Bytes) (dir d : Dir) : Type 0 where
    pub unique : Unique d
    pub same : (b : Bytes) → loaded path d b ≡ loaded path dir b

  -- LoadDir lists the new registration for its backend, and for others what it listed before.
  pub record Replaces (path : Bytes) (r : Registration) (dir d : Dir) : Type 0 where
    pub unique : Unique d
    pub listed_new :
        (b : Bytes)
        → loaded path d b ≡ (if same_bytes r.backend b then some r else loaded path dir b)

  pub data Atomic (path : Bytes) (r : Registration) (dir : Dir) : Written → Type 0 where
    kept :
        (e : WriteError) (states : List Dir)
        → Every (Same path dir) states
        → Atomic path r dir (record { error = some e; states = states })
    replaced :
        (d : Dir) (states : List Dir)
        → Every (Same path dir) states
        → Replaces path r dir d
        → Atomic path r dir (record { error = none; states = d ∷ states })

  -- What the YAML library promises: what Marshal writes is one document, which Decode reads back.
  abbrev pub RoundTrips : Registration → Type 0
  RoundTrips r =
      (body : Bytes)
      → codec.marshal r ≡ some body
      → (codec.strict body ≡ document r) × (codec.is_single body ≡ true)

  with_run_id_lem : (r : Registration) → is_token r.run_id ≡ true → with_run_id r ≡ r
  unfolding with_run_id is_token
  with_run_id_lem r h =
      ap (λ b. if b then record r { run_id = codes "static" } else r) (not_empty r.run_id h)
    where
      not_empty : (s : Bytes) → is_token s ≡ true → is_empty s ≡ false
      not_empty [] h = cc
      not_empty (c ∷ s) h = refl

  parse-marshal :
      (r : Registration) (body : Bytes)
      → RoundTrips r
      → validate parse_url r ≡ []
      → codec.marshal r ≡ some body
      → parse parse_url codec body (r.backend ++ suffix) ≡ parsed r
  unfolding parse by_document check_faults check_file
  parse-marshal r body trips valid m =
      let back = trips body m in
      let id = with_run_id_lem r ((validate-IsValid parse_url r).0 valid).run_id in
      let own = (same_bytes_iff (r.backend ++ suffix) (r.backend ++ suffix)).1 refl in
      ap (λ d. by_document parse_url codec d (codec.is_single body) (r.backend ++ suffix)) back.0
      ∙ ap (λ s. by_document parse_url codec (document r) s (r.backend ++ suffix)) back.1
      ∙ ap (λ s. check_faults (validate parse_url s) s (r.backend ++ suffix)) id
      ∙ ap (λ fs. check_faults fs r (r.backend ++ suffix)) valid
      ∙ ap (λ b. if b then parsed r else refused wrong_file) own

  module _ (path : Bytes) (r : Registration) (dir : Dir) (u : Unique dir) where
    -- The files of backends are as before.
    record Quiet (d : Dir) : Type 0 where
      unique : Unique d
      quiet : (b : Bytes) → registered parse_url codec d b ≡ registered parse_url codec dir b

    loaded_lem : (d : Dir) (b : Bytes) → Unique d → loaded path d b ≡ registered parse_url codec d b
    loaded_lem d b v = (load_dir-lookup parse_url codec path d v).0 b

    quiet-Same : {d : Dir} → Quiet d → Same path dir d
    quiet-Same {d} q = record {
      unique = q.unique;
      same = λ b. loaded_lem d b q.unique ∙ q.quiet b ∙ sym (loaded_lem dir b u);
    }

    start : Quiet dir
    start = record { unique = u; quiet = λ b. refl }

    module _ (tmp : Bytes) (hidden : has_prefix tmp (codes ".") ≡ true) where
      put-Quiet : {d : Dir} (v : Bytes) → Quiet d → Quiet (put tmp v d)
      put-Quiet {d} v q = record {
        unique = put-Unique tmp v d q.unique;
        quiet = λ b. registered-put tmp hidden v b d ∙ q.quiet b;
      }

      delete-Quiet : {d : Dir} → Quiet d → Quiet (delete tmp d)
      delete-Quiet {d} q = record {
        unique = delete-Unique tmp d q.unique;
        quiet = λ b. registered-delete tmp hidden b d ∙ q.quiet b;
      }

      before : Every (Same path dir) (put tmp [] dir ∷ dir ∷ [])
      before = (quiet-Same (put-Quiet [] start), (quiet-Same start, tt))

      discarded-Atomic :
          (os : System) (body : Bytes)
          → Atomic path r dir (discarded os tmp body dir (put tmp [] dir ∷ dir ∷ []))
      unfolding discarded
      discarded-Atomic os body =
          let there = put-Quiet body start in
          let last =
            if-elim (Same path dir) os.keeps_tmp (λ t. quiet-Same there)
              (λ f. quiet-Same (delete-Quiet there)) in
          kept system_error _ (last, (quiet-Same there, before))

      renamed-Atomic :
          (body : Bytes)
          → parse parse_url codec body (r.backend ++ suffix) ≡ parsed r
          → Atomic path r dir
              (renamed tmp (r.backend ++ suffix) body dir (put tmp [] dir ∷ dir ∷ []))
      unfolding renamed
      renamed-Atomic body e =
          let there = put-Quiet body start in
          let gone = delete-Quiet there in
          replaced _ _ (quiet-Same there, before)
            (record {
              unique = put-Unique (r.backend ++ suffix) body _ gone.unique;
              listed_new = λ b.
                  loaded_lem _ b (put-Unique (r.backend ++ suffix) body _ gone.unique) ∙ new gone b;
            })
        where
          new :
              {d : Dir} (q : Quiet d) (b : Bytes)
              → registered parse_url codec (put (r.backend ++ suffix) body d) b
                ≡ (if same_bytes r.backend b then some r else loaded path dir b)
          new {d} q b =
              if-elim (λ o. registered parse_url codec (put (r.backend ++ suffix) body d) b ≡ o)
                (same_bytes r.backend b)
                (λ t.
                  subst
                    (λ c. registered parse_url codec (put (r.backend ++ suffix) body d) c ≡ some r)
                    ((same_bytes_iff _ _).0 t)
                    (ap (registered_in parse_url codec r.backend)
                        (get-put_self (r.backend ++ suffix) body d)
                      ∙ ap the e))
                (λ f.
                  ap (registered_in parse_url codec b) (
                    get-put_ne (r.backend ++ suffix) (b ++ suffix) body d (λ same.
                      let eq = append_inj b r.backend suffix same in
                      ground (arith, same_bytes_iff r.backend b, eq, f)))
                  ∙ q.quiet b
                  ∙ sym (loaded_lem dir b u))

      store_by-Atomic :
          (failing : Failing) (os : System) (body : Bytes)
          → parse parse_url codec body (r.backend ++ suffix) ≡ parsed r
          → Atomic path r dir (store_by failing os tmp (r.backend ++ suffix) body dir)
      unfolding store_by unchanged
      store_by-Atomic at_mkdir os body e = kept system_error _ (quiet-Same start, tt)
      store_by-Atomic at_lock os body e = kept system_error _ (quiet-Same start, tt)
      store_by-Atomic at_create os body e = kept system_error _ (quiet-Same start, tt)
      store_by-Atomic (at_write n) os body e = discarded-Atomic os (take n body)
      store_by-Atomic at_chmod os body e = discarded-Atomic os body
      store_by-Atomic at_sync os body e = discarded-Atomic os body
      store_by-Atomic at_close os body e = discarded-Atomic os body
      store_by-Atomic at_rename os body e = discarded-Atomic os body
      store_by-Atomic nothing os body e = renamed-Atomic body e

    marshalled-Atomic :
        RoundTrips r
        → (os : System) (m : Option Bytes) → validate parse_url r ≡ []
        → codec.marshal r ≡ m
        → Atomic path r dir (marshalled m os r.backend dir)
    unfolding marshalled unchanged tmp_name
    marshalled-Atomic trips os none v e = kept not_marshalled _ (quiet-Same start, tt)
    marshalled-Atomic trips os (some body) v e =
        store_by-Atomic (tmp_name r.backend os.random) refl os.failing os body
          (parse-marshal r body trips v e)

    by_faults-Atomic :
        RoundTrips r
        → (os : System) (fs : List Fault) → validate parse_url r ≡ fs
        → Atomic path r dir (by_faults fs (codec.marshal r) os r.backend dir)
    unfolding by_faults unchanged
    by_faults-Atomic trips os [] v = marshalled-Atomic trips os (codec.marshal r) v refl
    by_faults-Atomic trips os (f ∷ fs) v = kept (invalid (f ∷ fs)) _ (quiet-Same start, tt)

  -- While Write runs, whatever system call fails, LoadDir of the directory, in which no two files have
  -- one name, lists for every backend what it listed before. When Write returns an error that is so
  -- in the end too; when it returns none, the last state lists the new registration for its backend
  -- and for the others what it listed before. The YAML library must read back the
  -- registration that it writes.
  pub write-Atomic :
      (path : Bytes) (os : System) (r : Registration) (dir : Dir)
      → RoundTrips r
      → Unique dir
      → Atomic path r dir (write parse_url codec os r dir)
  unfolding write
  write-Atomic path os r dir trips u =
      by_faults-Atomic path r dir u trips os (validate parse_url r) refl
