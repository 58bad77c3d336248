-- ===== src/Registration/Valid.antt =====
-- Validate of internal/registration/registration.go, and what a valid registration is.
use llm_metrics_exporter.Base.{
  ℕ, ◌≤◌, ◌≡◌, ◌≢◌, ◌⊎◌, ◌↔◌, refl, Bool, true, false, not, ◌&&◌, ◌||◌, Option, none, some, List,
  [], ◌∷◌, ◌++◌, String, Bytes, codes, same_bytes_iff, arith, inl, inr, Option-cases,
}
use llm_metrics_exporter.Base.Integers.{ℤ, pos, negsuc, at_least, at_most, is_nat}
use llm_metrics_exporter.Registration.{
  Registration, Url, Fault, EndpointFault, engines, contains, is_token, is_backend, is_empty,
  is_absolute, check_url, check_parsed, check_endpoint, when, check_path, endpoint_faults, validate,
}

append_iff : {A : Type 0} (xs ys : List A) → (xs ++ ys ≡ []) ↔ ((xs ≡ []) × (ys ≡ []))
append_iff [] ys = (λ e. (refl, e), λ e. e.1)
append_iff (x ∷ xs) ys = (λ e. cc, λ e. cc)

is_empty_iff : (s : Bytes) → (is_empty s ≡ true) ↔ (s ≡ [])
is_empty_iff [] = (λ e. refl, λ e. refl)
is_empty_iff (c ∷ s) = (λ e. cc, λ e. cc)

when_iff : (b : Bool) (e : Fault) → (when b e ≡ []) ↔ (b ≡ false)
unfolding when
when_iff true e = (λ h. cc, λ h. cc)
when_iff false e = (λ h. refl, λ h. refl)

-- An error unless the test holds.
unless_iff : (b : Bool) (e : Fault) → (when (not b) e ≡ []) ↔ (b ≡ true)
unfolding when
unless_iff true e = (λ h. refl, λ h. refl)
unless_iff false e = (λ h. cc, λ h. cc)

served_iff :
    (s : Bytes) (e : Fault)
    → (when (not (is_empty s) && not (is_token s)) e ≡ []) ↔ ((s ≡ []) ⊎ (is_token s ≡ true))
served_iff s e =
    let empty = is_empty_iff s in
    let off = when_iff (not (is_empty s) && not (is_token s)) e in
    (λ h. let x = off.0 h in ground arith, λ h. off.1 (ground arith))

pub record IsBase (u : Url) : Type 0 where
  pub scheme : (u.scheme ≡ codes "http") ⊎ (u.scheme ≡ codes "https")
  pub host : u.host ≢ []
  pub path : (u.path ≡ []) ⊎ (u.path ≡ codes "/")
  pub query : u.raw_query ≡ []

-- A path field that one engine needs, another may have, and no other engine has.
pub record HasPath (engine path needs may : Bytes) : Type 0 where
  pub needed : engine ≡ needs → path ≢ []
  pub others : path ≢ [] → (engine ≡ needs) ⊎ (engine ≡ may)
  pub absolute : path ≢ [] → is_absolute path ≡ true

check_url_iff : (u : Url) → (check_url u ≡ none) ↔ IsBase u
unfolding check_url
check_url_iff u =
    let http = same_bytes_iff u.scheme (codes "http") in
    let https = same_bytes_iff u.scheme (codes "https") in
    let host = is_empty_iff u.host in
    let path = is_empty_iff u.path in
    let root = same_bytes_iff u.path (codes "/") in
    let query = is_empty_iff u.raw_query in
    (
      λ e. record {
        scheme = ground arith;
        host = ground arith;
        path = ground arith;
        query = ground arith;
      },
      λ h.
          let scheme = h.scheme in
          let h2 = h.host in let p = h.path in let q = h.query in ground arith,
    )

check_path_iff :
    (r : Registration) (field : String) (path engine optional : Bytes)
    → (check_path r field path engine optional ≡ []) ↔ HasPath r.engine path engine optional
unfolding check_path when
check_path_iff r field path engine optional =
    let is_engine = same_bytes_iff r.engine engine in
    let is_optional = same_bytes_iff r.engine optional in
    let empty = is_empty_iff path in
    (
      λ e. record { needed = ground arith; others = ground arith; absolute = ground arith },
      λ h. let n = h.needed in let o = h.others in let a = h.absolute in ground arith,
    )

parsed_iff :
    (o : Option Url)
    → (endpoint_faults (check_parsed o) ≡ []) ↔ ((u : Url) × (o ≡ some u) × IsBase u)
unfolding endpoint_faults check_parsed
parsed_iff none = (λ e. cc, λ h. let e = h.1 in cc)
parsed_iff (some u) = elim (Option-cases (check_url u)) [
  | inl e ↦ rw e (λ t. (u, refl, (check_url_iff u).0 e), λ h. refl)
  | inr (f, e) ↦ rw e (λ t. cc, λ h. absurd (base h.0 h.1 h.2 f e))
]
  where
    base : (v : Url) → some u ≡ some v → IsBase v → (f : EndpointFault) → check_url u ≡ some f → ⊥
    base v e b f g = let fine = (check_url_iff v).1 b in let same : u ≡ v = cc in cc

version_iff : (z : ℤ) → (not (is_nat 1 z) ≡ false) ↔ (z ≡ pos 1)
version_iff (pos n) = ground arith
version_iff (negsuc n) = (λ e. cc, λ e. cc)

nodes_iff :
    (z : ℤ)
    → ((not (at_least 1 z) || not (at_most 64 z)) ≡ false)
      ↔ ((n : ℕ) × (z ≡ pos n) × (1 ≤ n) × (n ≤ 64))
nodes_iff (pos n) = (
  λ e. (n, refl, ground arith, ground arith),
  λ h. let e = h.1 in let l = h.2 in let u = h.3 in ground arith,
)
nodes_iff (negsuc n) = (λ e. cc, λ h. let e = h.1 in cc)

issue_iff : (z : ℤ) → (not (at_least 0 z) ≡ false) ↔ ((n : ℕ) × (z ≡ pos n))
issue_iff (pos n) = (λ e. (n, refl), λ h. ground arith)
issue_iff (negsuc n) = (λ e. cc, λ h. let e = h.1 in cc)

module _ (parse_url : Bytes → Option Url) where
  pub record IsValid (r : Registration) : Type 0 where
    pub version : r.version ≡ pos 1
    pub run_id : is_token r.run_id ≡ true
    pub engine : contains engines r.engine ≡ true
    pub endpoint : (u : Url) × (parse_url r.endpoint ≡ some u) × IsBase u
    pub model : is_token r.model ≡ true
    pub backend : is_backend r.backend ≡ true
    pub nodes : (n : ℕ) × (r.nodes ≡ pos n) × (1 ≤ n) × (n ≤ 64)
    pub issue : (n : ℕ) × (r.issue ≡ pos n)
    pub served_model : (r.served_model ≡ []) ⊎ (is_token r.served_model ≡ true)
    pub log_path : HasPath r.engine r.log_path (codes "ds4") (codes "tensorfold")
    pub trace_path : HasPath r.engine r.trace_path (codes "mtplx") []

  -- Validate finds no error exactly if the registration is valid: version 1, texts of printable bytes
  -- without spaces, an engine of the list, a base URL, a backend that can be a file name, 1 to 64
  -- nodes, no negative issue, and a path just where its engine reads one, which is absolute.
  pub validate-IsValid : (r : Registration) → (validate parse_url r ≡ []) ↔ IsValid r
  unfolding validate check_endpoint
  validate-IsValid r = (
    λ e.
        let a = (append_iff _ _).0 e in
        let b = (append_iff _ _).0 a.1 in
        let c = (append_iff _ _).0 b.1 in
        let d = (append_iff _ _).0 c.1 in
        let f = (append_iff _ _).0 d.1 in
        let g = (append_iff _ _).0 f.1 in
        let h = (append_iff _ _).0 g.1 in
        let i = (append_iff _ _).0 h.1 in
        let j = (append_iff _ _).0 i.1 in
        let k = (append_iff _ _).0 j.1 in
        record {
          version = (version_iff r.version).0 ((when_iff _ _).0 a.0);
          run_id = (unless_iff _ _).0 b.0;
          engine = (unless_iff _ _).0 c.0;
          endpoint = (parsed_iff (parse_url r.endpoint)).0 d.0;
          model = (unless_iff _ _).0 f.0;
          backend = (unless_iff _ _).0 g.0;
          nodes = (nodes_iff r.nodes).0 ((when_iff _ _).0 h.0);
          issue = (issue_iff r.issue).0 ((when_iff _ _).0 i.0);
          served_model = (served_iff r.served_model _).0 j.0;
          log_path = (check_path_iff r _ r.log_path (codes "ds4") (codes "tensorfold")).0 k.0;
          trace_path = (check_path_iff r _ r.trace_path (codes "mtplx") []).0 k.1;
        },
    λ v. (append_iff _ _).1 (
      (when_iff _ _).1 ((version_iff r.version).1 v.version),
      (append_iff _ _).1 (
        (unless_iff _ _).1 v.run_id,
        (append_iff _ _).1 (
          (unless_iff _ _).1 v.engine,
          (append_iff _ _).1 (
            (parsed_iff (parse_url r.endpoint)).1 v.endpoint,
            (append_iff _ _).1 (
              (unless_iff _ _).1 v.model,
              (append_iff _ _).1 (
                (unless_iff _ _).1 v.backend,
                (append_iff _ _).1 (
                  (when_iff _ _).1 ((nodes_iff r.nodes).1 v.nodes),
                  (append_iff _ _).1 (
                    (when_iff _ _).1 ((issue_iff r.issue).1 v.issue),
                    (append_iff _ _).1 (
                      (served_iff r.served_model _).1 v.served_model,
                      (append_iff _ _).1 (
                        (check_path_iff r _ r.log_path (codes "ds4") (codes "tensorfold")).1
                            v.log_path,
                        (check_path_iff r _ r.trace_path (codes "mtplx") []).1 v.trace_path,
                      ),
                    ),
                  ),
                ),
              ),
            ),
          ),
        ),
      ),
    ),
  )
