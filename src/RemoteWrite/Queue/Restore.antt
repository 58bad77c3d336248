-- ===== src/RemoteWrite/Queue/Restore.antt =====
-- restore: what a restart reads back from the queue directory. SHA-256, snappy and protobuf are the
-- parameter `Decoder`; where a system call fails is an argument.
pub mod Recovered
pub mod Books
mod Examples
use llm_metrics_exporter.Base.{
  ℕ, ◌+◌, ◌-◌, ◌^◌, max, Bool, true, false, not, ◌&&◌, ◌||◌, Option, none, some, List, [], ◌∷◌,
  ◌++◌, Bytes, codes, length, take, drop, has_prefix, has_suffix, same_bytes, ltb, leb, ◌==◌,
  if◌then◌else◌,
}
use llm_metrics_exporter.Base.Assoc.{Assoc, get, delete}
use llm_metrics_exporter.Base.Decimal.{value, is_digit}
use llm_metrics_exporter.Base.Order.{sort_by}
use llm_metrics_exporter.RemoteWrite.Series.{TimeSeries, Point, active_series}
use llm_metrics_exporter.RemoteWrite.Queue.{
  Write, Options, Status, Sender, atomic_write, max_batch, suffix, state_name,
}

pub data RestoreError : Type 0 where
  foreign bad_name bad_file over_cap too_large bad_compression undecodable system_error :
      RestoreError

pub data Attempt (A : Type 0) : Type 0 where
  failed : RestoreError → Attempt A
  ok : A → Attempt A

pub record Decoder : Type 0 where
  -- the hexadecimal SHA-256 of a text
  pub digest : Bytes → Bytes
  -- snappy.DecodedLen and snappy.Decode
  pub decoded_size : Bytes → Option ℕ
  pub decompress : Bytes → Option Bytes
  -- the WriteRequest's series
  pub unmarshal : Bytes → Option (List TimeSeries)

-- Which system calls fail, by the file's name where there is one.
pub record System : Type 0 where
  pub unreadable : Bytes → Bool
  pub destination : Write
  pub unlisted : Bool
  pub unremovable : Bytes → Bool
  pub no_info : Bytes → Bool
  pub is_regular : Bytes → Bool

-- What restore collects from the directory's entries.
pub record Scan : Type 0 where
  pub disk : Assoc Bytes
  pub files : List Bytes
  pub bytes : ℕ

-- The snapshot that it takes over.
pub record Snapshot : Type 0 where
  pub previous : List TimeSeries
  pub timestamp : ℕ

abbrev pub destination_name : Bytes
destination_name = codes "destination"

unfoldable pub is_pending : Bytes → Bool
is_pending name = has_prefix name (codes ".pending-")

all_digits : Bytes → Bool
all_digits [] = true
all_digits (c ∷ cs) = is_digit c && all_digits cs

-- Digits, of a number below the limit.
is_number : ℕ → Bytes → Bool
unfolding all_digits
is_number limit [] = false
is_number limit (c ∷ cs) = all_digits (c ∷ cs) && ltb (value 0 (c ∷ cs)) limit

-- strconv.ParseInt(s, 10, 64) succeeds.
unfoldable pub is_int : Bytes → Bool
unfolding is_number
is_int [] = false
is_int (c ∷ cs) =
    if c == 43
    then is_number (2 ^ 63) cs
    else if c == 45
    then is_number (2 ^ 63 + 1) cs
    else is_number (2 ^ 63) (c ∷ cs)

unfoldable pub stem : Bytes → Bytes
stem name = take (length name - length suffix) name

-- Every sample's time.
points_stamp : ℕ → List Point → ℕ
points_stamp ts [] = ts
points_stamp ts (p ∷ ps) = points_stamp (max ts p.timestamp) ps

pub request_stamp : ℕ → List TimeSeries → ℕ
unfolding points_stamp
request_stamp ts [] = ts
request_stamp ts (s ∷ ss) = request_stamp (points_stamp ts s.samples) ss

pub last_file : List Bytes → Option Bytes
last_file [] = none
last_file (n ∷ []) = some n
last_file (n ∷ m ∷ ns) = last_file (m ∷ ns)

pub then_do : {A B : Type 0} → Attempt A → (A → Attempt B) → Attempt B
then_do (failed e) f = failed e
then_do (ok a) f = f a

module _ (decoder : Decoder) (os : System) where
  by_manifest : Bool → Option Bytes → Bytes → Assoc Bytes → Attempt (Assoc Bytes)
  by_manifest true body want disk = failed system_error
  by_manifest false (some body) want disk = if same_bytes body want then ok disk else failed foreign
  by_manifest false none want disk =
      let out = atomic_write os.destination disk destination_name want in
      if out.0 then ok out.1 else failed system_error

  -- The queue belongs to one destination and host.
  check_destination : Bytes → Bytes → Assoc Bytes → Attempt (Assoc Bytes)
  unfolding by_manifest
  check_destination url host disk =
      by_manifest (os.unreadable destination_name) (get destination_name disk)
        (decoder.digest (url ++ (0 ∷ host))) disk

  -- The loop's body, of an entry that ReadDir lists with this content.
  scan_entry : Scan → Bytes → Bytes → Attempt Scan
  scan_entry s name body =
      if is_pending name
      then (if os.unremovable name
          then failed system_error
          else ok (record s { disk = delete name s.disk }))
      else if not (has_suffix name suffix)
      then ok s
      else if not (is_int (stem name))
      then failed bad_name
      else if os.no_info name
      then failed system_error
      else if not (os.is_regular name) || ltb max_batch (length body)
      then failed bad_file
      else ok (record s { files = s.files ++ (name ∷ []); bytes = s.bytes + length body })

  scan : Scan → Assoc Bytes → Attempt Scan
  unfolding scan_entry then_do
  scan s [] = ok s
  scan s ((name, body) ∷ rest) = then_do (scan_entry s name body) (λ next. scan next rest)

  newer : Snapshot → List TimeSeries → Snapshot
  newer s request =
      let ts = request_stamp 0 request in
      if leb s.timestamp ts then record { previous = active_series request; timestamp = ts } else s

  by_request : Snapshot → Option (List TimeSeries) → Attempt Snapshot
  unfolding newer
  by_request s none = failed undecodable
  by_request s (some request) = ok (newer s request)

  by_raw : Snapshot → Option Bytes → Attempt Snapshot
  unfolding by_request
  by_raw s none = failed undecodable
  by_raw s (some raw) = by_request s (decoder.unmarshal raw)

  by_size : Snapshot → Bytes → Option ℕ → Attempt Snapshot
  unfolding by_raw
  by_size s body none = failed bad_compression
  by_size s body (some n) =
      if ltb max_batch n then failed bad_compression else by_raw s (decoder.decompress body)

  by_file : Snapshot → Bytes → Option Bytes → Attempt Snapshot
  unfolding by_size
  by_file s name none = ok s
  by_file s name (some body) =
      if ltb max_batch (length body)
      then failed too_large
      else if os.unreadable name
      then failed system_error
      else by_size s body (decoder.decoded_size body)

  -- One candidate; a file that is missing is passed over.
  read_candidate : Assoc Bytes → Snapshot → Bytes → Attempt Snapshot
  unfolding by_file
  read_candidate disk s name =
      if os.no_info name then failed system_error else by_file s name (get name disk)

  no_snapshot : Snapshot
  no_snapshot = record { previous = []; timestamp = 0 }

  read_last : Assoc Bytes → Snapshot → Option Bytes → Attempt Snapshot
  unfolding read_candidate
  read_last disk s none = ok s
  read_last disk s (some name) = read_candidate disk s name

  -- The checkpoint, then the newest queue file.
  read_candidates : Assoc Bytes → List Bytes → Attempt Snapshot
  unfolding read_candidate read_last no_snapshot then_do
  read_candidates disk files =
      then_do (read_candidate disk no_snapshot state_name) (λ s. read_last disk s (last_file files))

  opened : Options → Scan → Snapshot → Sender
  opened opts sc s = record {
    opts = opts;
    disk = sc.disk;
    files = sort_by (λ n. n) sc.files;
    status = record {
      queued_bytes = sc.bytes;
      queued_batches = length (sort_by (λ n. n) sc.files);
      dropped_batches = 0;
      last_success = 0;
      last_error = none;
    };
    previous = s.previous;
    timestamp = s.timestamp;
    wake = false;
  }

  after_scan : Options → Scan → Attempt Sender
  unfolding read_candidates opened then_do
  after_scan opts sc =
      if ltb opts.max_bytes sc.bytes
      then failed over_cap
      else then_do (read_candidates sc.disk (sort_by (λ n. n) sc.files))
          (λ s. ok (opened opts sc s))

  list_dir : Options → Assoc Bytes → Attempt Sender
  unfolding after_scan scan then_do
  list_dir opts disk =
      if os.unlisted
      then failed system_error
      else then_do (scan (record { disk = disk; files = []; bytes = 0 }) disk) (after_scan opts)

  -- restore, on the directory that the sender finds.
  pub restore : Options → Bytes → Assoc Bytes → Attempt Sender
  unfolding check_destination list_dir then_do
  restore opts url disk = then_do (check_destination url opts.host disk) (list_dir opts)
