-- ===== src/Registration.antt =====
-- internal/registration/registration.go: a registration and its validation. Texts are byte strings;
-- url.Parse is the parameter `parse_url`.
pub mod Load
pub mod Write
pub mod Remove
pub mod Valid
mod Examples
use llm_metrics_exporter.Base.{String}
use llm_metrics_exporter.Base.{
  ℕ, Bool, true, false, not, ◌&&◌, ◌||◌, Option, none, some, List, [], ◌∷◌, ◌++◌, map, Bytes, codes,
  same_bytes, has_prefix, leb, ◌==◌, if◌then◌else◌,
}
use llm_metrics_exporter.Base.Integers.{ℤ, at_least, at_most, is_nat}

pub record Registration : Type 0 where
  pub version : ℤ
  pub run_id : Bytes
  pub engine : Bytes
  pub endpoint : Bytes
  pub model : Bytes
  pub backend : Bytes
  pub nodes : ℤ
  pub issue : ℤ
  pub served_model : Bytes
  pub log_path : Bytes
  pub trace_path : Bytes

unfoldable pub engines : List Bytes
engines =
    codes "vllm"
    ∷ codes "llamacpp"
    ∷ codes "sglang"
    ∷ codes "mlx-serve"
    ∷ codes "ollama"
    ∷ codes "ds4"
    ∷ codes "mtplx"
    ∷ codes "tensorfold"
    ∷ []

unfoldable pub contains : List Bytes → Bytes → Bool
contains [] s = false
contains (v ∷ vs) s = same_bytes v s || contains vs s

within : ℕ → ℕ → ℕ → Bool
within low high c = leb low c && leb c high

all_bytes : (ℕ → Bool) → Bytes → Bool
all_bytes p [] = true
all_bytes p (c ∷ cs) = p c && all_bytes p cs

-- [[:graph:]], a printable byte other than the space
is_graph : ℕ → Bool
unfolding within
is_graph = within 33 126

-- tokenRE, ^[[:graph:]]+$
unfoldable pub is_token : Bytes → Bool
unfolding is_graph all_bytes
is_token [] = false
is_token (c ∷ cs) = is_graph c && all_bytes is_graph cs

-- [A-Za-z0-9]
is_alphanumeric : ℕ → Bool
unfolding within
is_alphanumeric c = within 65 90 c || within 97 122 c || within 48 57 c

-- [A-Za-z0-9._-]
is_backend_byte : ℕ → Bool
unfolding is_alphanumeric
is_backend_byte c = is_alphanumeric c || c == 46 || c == 95 || c == 45

-- backendRE
unfoldable pub is_backend : Bytes → Bool
unfolding is_backend_byte all_bytes
is_backend [] = false
is_backend (c ∷ cs) = is_alphanumeric c && all_bytes is_backend_byte cs

-- What the code reads of a *url.URL.
pub record Url : Type 0 where
  pub scheme : Bytes
  pub host : Bytes
  pub path : Bytes
  pub raw_query : Bytes

pub data EndpointFault : Type 0 where
  not_a_url bad_scheme no_host not_base : EndpointFault

pub data Fault : Type 0 where
  bad_version bad_run_id bad_engine bad_model bad_backend bad_nodes bad_issue bad_served_model :
      Fault
  bad_endpoint : EndpointFault → Fault
  -- the field of a path
  required of_others not_absolute : String → Fault

-- s == ""
abbrev pub is_empty : Bytes → Bool
is_empty [] = true
is_empty (c ∷ cs) = false

-- filepath.IsAbs
abbrev pub is_absolute : Bytes → Bool
is_absolute path = has_prefix path (codes "/")

check_url : Url → Option EndpointFault
check_url u =
    if not (same_bytes u.scheme (codes "http")) && not (same_bytes u.scheme (codes "https"))
    then some bad_scheme
    else if is_empty u.host
    then some no_host
    else if (not (is_empty u.path) && not (same_bytes u.path (codes "/")))
        || not (is_empty u.raw_query)
    then some not_base
    else none

check_parsed : Option Url → Option EndpointFault
unfolding check_url
check_parsed none = some not_a_url
check_parsed (some u) = check_url u

-- bad, under a condition
when : Bool → Fault → List Fault
when true e = e ∷ []
when false e = []

-- checkPath
check_path : Registration → String → Bytes → Bytes → Bytes → List Fault
unfolding when
check_path r field path engine optional =
    if same_bytes r.engine engine && is_empty path
    then required field ∷ []
    else if not (same_bytes r.engine engine)
        && not (same_bytes r.engine optional)
        && not (is_empty path)
    then of_others field ∷ []
    else when (not (is_empty path) && not (is_absolute path)) (not_absolute field)

endpoint_faults : Option EndpointFault → List Fault
endpoint_faults none = []
endpoint_faults (some e) = bad_endpoint e ∷ []

module _ (parse_url : Bytes → Option Url) where
  unfoldable pub check_endpoint : Bytes → Option EndpointFault
  unfolding check_parsed
  check_endpoint s = check_parsed (parse_url s)

  -- Validate, with the errors that it joins.
  unfoldable pub validate : Registration → List Fault
  unfolding when endpoint_faults check_endpoint check_path engines contains is_token is_backend
  validate r =
      when (not (is_nat 1 r.version)) bad_version
      ++ (when (not (is_token r.run_id)) bad_run_id
          ++ (when (not (contains engines r.engine)) bad_engine
              ++ (endpoint_faults (check_endpoint r.endpoint)
                  ++ (when (not (is_token r.model)) bad_model
                      ++ (when (not (is_backend r.backend)) bad_backend
                          ++ (when (not (at_least 1 r.nodes) || not (at_most 64 r.nodes)) bad_nodes
                              ++ (when (not (at_least 0 r.issue)) bad_issue
                                  ++ (when
                                        (not (is_empty r.served_model)
                                          && not (is_token r.served_model))
                                        bad_served_model
                                      ++ (check_path r "log_path" r.log_path (codes "ds4")
                                            (codes "tensorfold")
                                          ++ check_path r "trace_path" r.trace_path (codes "mtplx")
                                              [])))))))))
