-- ===== src/Registration/Load.antt =====
-- internal/registration/registration.go: Parse and LoadDir. The YAML library is the parameter `Codec`,
-- a directory's entries are what os.ReadDir and os.ReadFile answer.
pub mod Lookup
use mathlib.Core.List.{foldl}
use llm_metrics_exporter.Base.{
  ℕ, Bool, true, false, not, ◌||◌, Option, none, some, List, [], ◌∷◌, ◌++◌, Bytes, codes,
  same_bytes, has_prefix, has_suffix, if◌then◌else◌,
}
use llm_metrics_exporter.Base.Order.{sort_by}
use llm_metrics_exporter.Registration.{Registration, Fault, Url, validate, is_token, is_empty}

-- What the first Decode returns: io.EOF, another error, or a registration.
pub data Decoded : Type 0 where
  at_end not_decoded : Decoded
  document : Registration → Decoded

pub record Codec : Type 0 where
  -- Decode with KnownFields(true)
  pub strict : Bytes → Decoded
  -- the second Decode returns io.EOF
  pub is_single : Bytes → Bool
  -- Unmarshal of engine and model, and of run_id
  pub peek : Bytes → Option (Bytes × Bytes)
  pub head : Bytes → Option Bytes
  pub marshal : Registration → Option Bytes

pub data ParseError : Type 0 where
  empty_file undecodable several_documents wrong_file : ParseError
  faulty : List Fault → ParseError

pub data Parsed : Type 0 where
  parsed : Registration → Parsed
  refused : ParseError → Parsed

pub data LoadError : Type 0 where
  dir_error file_error : LoadError
  parse_error : ParseError → LoadError

pub record Invalid : Type 0 where
  pub file : Bytes
  pub engine : Bytes
  pub model : Bytes
  pub error : LoadError

pub record Entry : Type 0 where
  pub name : Bytes
  pub is_dir : Bool
  -- what ReadFile returns, and whether it fails
  pub body : Bytes
  pub read_fails : Bool

pub data Listing : Type 0 where
  listed : List Entry → Listing
  missing unlisted : Listing

pub record Loaded : Type 0 where
  pub valid : List Registration
  pub invalid : List Invalid

abbrev pub suffix : Bytes
suffix = codes ".yaml"

unfoldable pub with_run_id : Registration → Registration
with_run_id r = if is_empty r.run_id then record r { run_id = codes "static" } else r

token_or_unknown : Bytes → Bytes
token_or_unknown t = if is_token t then t else codes "unknown"

unfoldable pub check_file : Registration → Bytes → Parsed
check_file r file = if same_bytes file (r.backend ++ suffix) then parsed r else refused wrong_file

unfoldable pub by_faults : List Fault → Registration → Bytes → Parsed
unfolding check_file
by_faults [] r file = check_file r file
by_faults (e ∷ es) r file = refused (faulty (e ∷ es))

unfoldable pub is_skipped : Entry → Bool
is_skipped e = e.is_dir || has_prefix e.name (codes ".") || not (has_suffix e.name suffix)

module _ (parse_url : Bytes → Option Url) (codec : Codec) where
  unfoldable pub by_document : Decoded → Bool → Bytes → Parsed
  unfolding with_run_id by_faults
  by_document at_end single file = refused empty_file
  by_document not_decoded single file = refused undecodable
  by_document (document r) single file =
      if single
      then by_faults (validate parse_url (with_run_id r)) (with_run_id r) file
      else refused several_documents

  -- Parse
  unfoldable pub parse : Bytes → Bytes → Parsed
  unfolding by_document
  parse body file = by_document (codec.strict body) (codec.is_single body) file

  invalid_by : Option (Bytes × Bytes) → Bytes → LoadError → Invalid
  unfolding token_or_unknown
  invalid_by none file e = record {
    file = file;
    engine = codes "unknown";
    model = codes "unknown";
    error = e;
  }
  invalid_by (some (engine, model)) file e = record {
    file = file;
    engine = token_or_unknown engine;
    model = token_or_unknown model;
    error = e;
  }

  -- newInvalid
  new_invalid : Bytes → Bytes → LoadError → Invalid
  unfolding invalid_by
  new_invalid file body e = invalid_by (codec.peek body) file e

  rejected : Loaded → Entry → LoadError → Loaded
  unfolding new_invalid
  rejected acc e err = record acc { invalid = acc.invalid ++ (new_invalid e.name e.body err ∷ []) }

  parsed_entry : Loaded → Entry → Parsed → Loaded
  unfolding rejected
  parsed_entry acc e (parsed r) = record acc { valid = acc.valid ++ (r ∷ []) }
  parsed_entry acc e (refused err) = rejected acc e (parse_error err)

  -- The loop's body.
  load_entry : Loaded → Entry → Loaded
  unfolding parsed_entry
  load_entry acc e =
      if is_skipped e
      then acc
      else if e.read_fails
      then rejected acc e file_error
      else parsed_entry acc e (parse e.body e.name)

  no_entries : Loaded
  no_entries = record { valid = []; invalid = [] }

  load_listed : List Entry → Loaded
  unfolding load_entry no_entries
  load_listed es =
      let l = foldl load_entry no_entries es in
      record l { valid = sort_by (λ r. r.backend) l.valid }

  -- LoadDir
  pub load_dir : Bytes → Listing → Loaded
  unfolding load_listed new_invalid
  load_dir dir (listed es) = load_listed es
  load_dir dir missing = no_entries
  load_dir dir unlisted = record { valid = []; invalid = new_invalid dir [] dir_error ∷ [] }
