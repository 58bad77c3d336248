-- ===== src/Registration/Write.antt =====
-- internal/registration/registration.go: Write, on a directory as a map from names to
-- bytes. Where a system call fails is an argument; the states that the directory goes through are
-- the result, the last of them first. The file of the lock, which is hidden, is left out.
pub mod Atomic
use llm_metrics_exporter.Base.{
  ℕ, Bool, true, false, not, Option, none, some, List, [], ◌∷◌, ◌++◌, Bytes, codes, same_bytes,
  take, if◌then◌else◌,
}
use llm_metrics_exporter.Base.Assoc.{Assoc, get, put, delete}
use llm_metrics_exporter.Registration.{Registration, Fault, Url, validate, is_backend, is_empty}
use llm_metrics_exporter.Registration.Load.{Codec, suffix}

abbrev pub Dir : Type 0
Dir = Assoc Bytes

-- The system call of Write that fails, and what a failed write of the file leaves.
pub data Failing : Type 0 where
  nothing at_mkdir at_lock at_create at_chmod at_sync at_close at_rename : Failing
  at_write : ℕ → Failing

-- What the operating system decides in one call of Write.
pub record System : Type 0 where
  pub failing : Failing
  -- the end of the name that CreateTemp makes
  pub random : Bytes
  -- the deferred os.Remove fails
  pub keeps_tmp : Bool

pub data WriteError : Type 0 where
  invalid : List Fault → WriteError
  not_marshalled system_error : WriteError

pub record Written : Type 0 where
  pub error : Option WriteError
  pub states : List Dir

-- A file name of CreateTemp.
unfoldable pub tmp_name : Bytes → Bytes → Bytes
tmp_name backend random = codes "." ++ (backend ++ (suffix ++ (codes ".tmp-" ++ random)))

-- An error before the temporary file is there.
unchanged : WriteError → Dir → Written
unchanged e dir = record { error = some e; states = dir ∷ [] }

-- An error after the temporary file holds these bytes: the deferred Remove.
discarded : System → Bytes → Bytes → Dir → List Dir → Written
discarded os tmp body dir before =
    let there = put tmp body dir in
    record {
      error = some system_error;
      states = (if os.keeps_tmp then there else delete tmp there) ∷ there ∷ before;
    }

-- The rename; the deferred Remove finds no file then.
renamed : Bytes → Bytes → Bytes → Dir → List Dir → Written
renamed tmp name body dir before =
    let there = put tmp body dir in
    record { error = none; states = put name body (delete tmp there) ∷ there ∷ before }

store_by : Failing → System → Bytes → Bytes → Bytes → Dir → Written
unfolding unchanged discarded renamed
store_by at_mkdir os tmp name body dir = unchanged system_error dir
store_by at_lock os tmp name body dir = unchanged system_error dir
store_by at_create os tmp name body dir = unchanged system_error dir
store_by (at_write n) os tmp name body dir =
    discarded os tmp (take n body) dir (put tmp [] dir ∷ dir ∷ [])
store_by at_chmod os tmp name body dir = discarded os tmp body dir (put tmp [] dir ∷ dir ∷ [])
store_by at_sync os tmp name body dir = discarded os tmp body dir (put tmp [] dir ∷ dir ∷ [])
store_by at_close os tmp name body dir = discarded os tmp body dir (put tmp [] dir ∷ dir ∷ [])
store_by at_rename os tmp name body dir = discarded os tmp body dir (put tmp [] dir ∷ dir ∷ [])
store_by nothing os tmp name body dir = renamed tmp name body dir (put tmp [] dir ∷ dir ∷ [])

marshalled : Option Bytes → System → Bytes → Dir → Written
unfolding store_by tmp_name unchanged
marshalled none os backend dir = unchanged not_marshalled dir
marshalled (some body) os backend dir =
    store_by os.failing os (tmp_name backend os.random) (backend ++ suffix) body dir

by_faults : List Fault → Option Bytes → System → Bytes → Dir → Written
unfolding marshalled unchanged
by_faults [] body os backend dir = marshalled body os backend dir
by_faults (e ∷ es) body os backend dir = unchanged (invalid (e ∷ es)) dir

module _ (parse_url : Bytes → Option Url) (codec : Codec) where
  -- Write
  pub write : System → Registration → Dir → Written
  unfolding by_faults
  write os r dir = by_faults (validate parse_url r) (codec.marshal r) os r.backend dir
