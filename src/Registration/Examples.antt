-- ===== src/Registration/Examples.antt =====
-- The theorems on registrations at two arms and a small directory.
use llm_metrics_exporter.Base.{
  ◌≡◌, ◌≢◌, ◌↔◌, refl, true, false, Option, none, some, [], ◌∷◌, ◌++◌, Bytes, codes,
}
use llm_metrics_exporter.Base.Assoc.{get}
use llm_metrics_exporter.Base.Order.{Ordered}
use llm_metrics_exporter.Base.Integers.{pos}
use llm_metrics_exporter.Registration.{Registration, Url, validate, is_backend}
use llm_metrics_exporter.Registration.Valid.{IsValid, validate-IsValid}
use llm_metrics_exporter.Registration.Load.{Codec, document, suffix, load_dir, listed}
use llm_metrics_exporter.Registration.Load.Lookup.{
  lookup, entries, registered, backend_of, load_dir-lookup,
}
use llm_metrics_exporter.Registration.Write.{Dir, System, nothing, write}
use llm_metrics_exporter.Registration.Write.Atomic.{Atomic, write-Atomic}
use llm_metrics_exporter.Registration.Remove.{
  Owned, remove, remove-Owned, remove_lem, none_fails, run_of, other_run,
}

abbrev arm : Registration
arm = record {
  version = pos 1;
  run_id = codes "r1";
  engine = codes "vllm";
  endpoint = codes "http://127.0.0.1:8000";
  model = codes "m";
  backend = codes "spark";
  nodes = pos 1;
  issue = pos 0;
  served_model = [];
  log_path = [];
  trace_path = [];
}

abbrev parse_url : Bytes → Option Url
parse_url s =
    some
      (record { scheme = codes "http"; host = codes "127.0.0.1:8000"; path = []; raw_query = [] })

-- A codec for one registration, whose text is its run_id.
abbrev codec : Codec
codec = record {
  strict = λ body. document arm;
  is_single = λ body. true;
  peek = λ body. none;
  head = λ body. some body;
  marshal = λ r. some (codes "r1");
}

abbrev dir : Dir
dir = (codes "spark.yaml", codes "r1") ∷ ((codes ".lock", []) ∷ [])

validate-IsValid_example : (validate parse_url arm ≡ []) ↔ IsValid parse_url arm
validate-IsValid_example = validate-IsValid parse_url arm

load_dir-lookup_example :
    ((b : Bytes)
      → lookup b (load_dir parse_url codec (codes "/run") (listed (entries dir))).valid
        ≡ registered parse_url codec dir b)
    × Ordered backend_of (load_dir parse_url codec (codes "/run") (listed (entries dir))).valid
unfolding get
load_dir-lookup_example = load_dir-lookup parse_url codec (codes "/run") dir (refl, (refl, tt))

abbrev os : System
os = record { failing = nothing; random = codes "17"; keeps_tmp = false }

write-Atomic_example :
    Atomic parse_url codec (codes "/run") arm dir (write parse_url codec os arm dir)
unfolding get
write-Atomic_example =
    write-Atomic parse_url codec (codes "/run") os arm dir (λ body e. (refl, refl))
      (refl, (refl, tt))

remove-Owned_example :
    Owned codec
      (codes "spark")
      (codes "r1")
      dir
      (remove codec none_fails (codes "spark") (codes "r1") dir dir)
remove-Owned_example = remove-Owned codec none_fails (codes "spark") (codes "r1") dir dir

remove_lem_example :
    (((remove codec none_fails (codes "spark") (codes "r0") dir dir).error ≡ none)
      ↔ (run_of codec dir (codes "spark" ++ suffix) ≡ some (codes "r0")))
    × ((newer : Bytes)
        → run_of codec dir (codes "spark" ++ suffix) ≡ some newer
        → newer ≢ codes "r0"
        → remove codec none_fails (codes "spark") (codes "r0") dir dir
          ≡ record { error = some (other_run newer); dir = dir })
unfolding get is_backend
remove_lem_example = remove_lem codec (codes "spark") (codes "r0") dir dir (codes "r1") refl refl
