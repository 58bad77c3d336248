-- ===== src/RemoteWrite/Queue.antt =====
-- internal/remotewrite/sender.go: the persistent FIFO. The directory is a map from names to bytes,
-- times are milliseconds, and what the system and the receiver do are arguments of each operation.
-- marshalling and compression are a parameter. Sizes and times stay below 2^63, as in Go's int64.
pub mod Names
pub mod Send
pub mod Order
pub mod Books
pub mod Accounting
pub mod Retry
pub mod Restore
pub mod History
mod Examples
use llm_metrics_exporter.Base.{
  ℕ, zero, suc, ◌+◌, ◌-◌, ◌^◌, ◌*◌, min, max, Bool, true, false, not, ◌&&◌, ◌||◌, Option, none,
  some, List, [], ◌∷◌, ◌++◌, Bytes, codes, length, take, drop, has_suffix, ltb, leb, ◌==◌,
  if◌then◌else◌,
}
use llm_metrics_exporter.Base.Assoc.{Assoc, get, put, delete}
use llm_metrics_exporter.Base.Decimal.{decimal, value, is_digit}
use llm_metrics_exporter.RemoteWrite.Series.{TimeSeries, with_stale}
use llm_metrics_exporter.RemoteWrite.Series.Encode.{Family, Numbers, encode_families}

abbrev pub max_batch : ℕ
max_batch = 4 * 2 ^ 20

pub data Error : Type 0 where
  marshal_failed snapshot_too_large queue_full write_failed read_failed bad_request : Error
  token_unreadable token_invalid transport remove_failed sync_failed expired : Error
  gather_failed unsupported_type : Error
  retryable rejected : ℕ → Error

pub record Options : Type 0 where
  pub host : Bytes
  pub max_age : ℕ
  pub max_bytes : ℕ

pub record Status : Type 0 where
  pub queued_bytes : ℕ
  pub queued_batches : ℕ
  pub dropped_batches : ℕ
  pub last_success : ℕ
  pub last_error : Option Error

-- The queue directory's files, which live outside the process, are part of the state.
pub record Sender : Type 0 where
  pub opts : Options
  pub disk : Assoc Bytes
  pub files : List Bytes
  pub status : Status
  pub previous : List TimeSeries
  pub timestamp : ℕ
  pub wake : Bool

-- prompb's Marshal, which may fail, and snappy.Encode.
pub record Codec : Type 0 where
  pub marshal : List TimeSeries → Option Bytes
  pub compress : Bytes → Bytes

-- Where an atomic write fails: before the rename the directory's file is as it was, after it (the
-- directory's sync) the new file stands.
pub data Write : Type 0 where
  done early late : Write

pub atomic_write : Write → Assoc Bytes → Bytes → Bytes → Bool × Assoc Bytes
atomic_write done disk name body = (true, put name body disk)
atomic_write early disk name body = (false, disk)
atomic_write late disk name body = (false, put name body disk)

abbrev zeros : ℕ → Bytes
zeros zero = []
zeros (suc n) = 48 ∷ zeros n

-- fmt.Sprintf("%020d", ts)
pub padded : ℕ → Bytes
padded ts = zeros (20 - length (decimal ts)) ++ decimal ts

-- The suffix .rw
abbrev pub suffix : Bytes
suffix = 46 ∷ 114 ∷ 119 ∷ []

pub queue_name : ℕ → Bytes
unfolding padded
queue_name ts = padded ts ++ suffix

abbrev pub state_name : Bytes
state_name = codes "state"

drop_newest : Sender → Sender
drop_newest s = record s {
  status = record s.status { dropped_batches = s.status.dropped_batches + 1 };
}

-- The second half of enqueue: the batch is on disk, then the checkpoint.
accept : Sender → List TimeSeries → ℕ → Bytes → Bytes → Assoc Bytes → Write → Option Error × Sender
accept s current ts name body disk checkpoint =
    let files = s.files ++ (name ∷ []) in
    let (written, disk') = atomic_write checkpoint disk state_name body in
    let next : Sender = record s {
      disk = disk';
      files = files;
      status = record s.status {
        queued_bytes = s.status.queued_bytes + length body;
        queued_batches = length files;
      };
      previous = current;
      timestamp = ts;
    } in
    if written then (none, record next { wake = true }) else (some write_failed, next)

store : Sender → List TimeSeries → ℕ → Bytes → Write → Write → Option Error × Sender
store s current ts body batch checkpoint =
    let name = queue_name ts in
    let (written, disk) = atomic_write batch s.disk name body in
    if written
    then accept s current ts name body disk checkpoint
    else (some write_failed, record s { disk = disk })

pack : Codec → Sender → List TimeSeries → ℕ → Option Bytes → Write → Write → Option Error × Sender
pack codec s current ts none batch checkpoint = (some marshal_failed, s)
pack codec s current ts (some raw) batch checkpoint =
    if ltb max_batch (length raw)
    then (some snapshot_too_large, drop_newest s)
    else let body = codec.compress raw in
      if ltb max_batch (length body) || ltb s.opts.max_bytes (s.status.queued_bytes + length body)
      then (some queue_full, drop_newest s)
      else store s current ts body batch checkpoint

abbrev is_empty {ℓ} : {A : Type ℓ} → List A → Bool
is_empty [] = true
is_empty (x ∷ xs) = false

-- enqueue; the last two arguments are the outcomes of the two atomic writes.
pub enqueue : Codec → Sender → List TimeSeries → ℕ → Write → Write → Option Error × Sender
enqueue codec s current ts batch checkpoint =
    let request = with_stale current s.previous ts in
    if is_empty request
    then (none, s)
    else pack codec s current ts (codec.marshal request) batch checkpoint

-- ts := max(now, s.timestamp + 1)
pub next_stamp : Sender → ℕ → ℕ
next_stamp s now = max now (s.timestamp + 1)

-- collect: what Gather returns, then the time.
pub collect :
    Codec → Numbers → Sender → Option (List Family) → ℕ → Write → Write → Option Error × Sender
collect codec numbers s none now batch checkpoint = (some gather_failed, s)
collect codec numbers s (some families) now batch checkpoint =
    let ts = next_stamp s now in
    elim (encode_families numbers families s.opts.host ts) [
      | none ↦ (some unsupported_type, s)
      | some current ↦ enqueue codec s current ts batch checkpoint
    ]

pub report : Sender → Error → Sender
report s e = record s { status = record s.status { last_error = some e } }
