-- ===== src/RemoteWrite/Queue/Restore/Examples.antt =====
-- A restart after a crash between the write of a batch and that of the checkpoint.
use llm_metrics_exporter.Base.{
  ℕ, ◌≤◌, ◌≡◌, refl, sym, subst, true, false, none, some, List, [], ◌∷◌, Bytes, codes, length,
  if◌then◌else◌, same_bytes, arith,
}
use llm_metrics_exporter.Base.Assoc.{Assoc, get}
use llm_metrics_exporter.Base.Decimal.{value, decimal}
use llm_metrics_exporter.Base.Order.{sort_by, insert_by}
use llm_metrics_exporter.RemoteWrite.Series.{
  TimeSeries, with_stale, active_series, is_active, stale_of, seen_in, series_key,
}
use llm_metrics_exporter.RemoteWrite.Queue.{Options, Sender, state_name, done}
use llm_metrics_exporter.RemoteWrite.Queue.Restore.{
  Decoder, System, ok, restore, check_destination, by_manifest, list_dir, scan, scan_entry,
  is_pending, is_int, stem, request_stamp, last_file,
}
use llm_metrics_exporter.RemoteWrite.Queue.Restore.Recovered.{decoded, restore-recovers}
use llm_metrics_exporter.RemoteWrite.Queue.Restore.Books.{Kept, restore-Kept}

some-injective : {A : Type 0} {a b : A} → some a ≡ some b → a ≡ b
some-injective e = cc

abbrev gauge : Bytes → ℕ → ℕ → TimeSeries
gauge name bits ts = record {
  labels = record { name = codes "__name__"; value = name } ∷ [];
  samples = record { bits = bits; timestamp = ts } ∷ [];
}

abbrev before : List TimeSeries
before = gauge (codes "a") 1 4 ∷ []

abbrev after : List TimeSeries
after = gauge (codes "b") 2 5 ∷ []

-- A decoder of two texts: the checkpoint is the older request, the batch the newer.
abbrev decoder : Decoder
decoder = record {
  digest = λ t. codes "id";
  decoded_size = λ b. some (length b);
  decompress = λ b. some b;
  unmarshal =
      λ b. if same_bytes b (codes "old") then some before else some (with_stale after before 5);
}

abbrev os : System
os = record {
  unreadable = λ n. false;
  destination = done;
  unlisted = false;
  unremovable = λ n. false;
  no_info = λ n. false;
  is_regular = λ n. true;
}

abbrev batch : Bytes
batch = codes "00000000000000000005.rw"

abbrev disk : Assoc Bytes
disk = (codes "destination", codes "id") ∷ (batch, codes "new") ∷ (codes "state", codes "old") ∷ []

abbrev opts : Options
opts = record { host = codes "h"; max_age = 1000; max_bytes = 1000 }

abbrev sender : Sender
sender = record {
  opts = opts;
  disk = disk;
  files = batch ∷ [];
  status = record {
    queued_bytes = 3;
    queued_batches = 1;
    dropped_batches = 0;
    last_success = 0;
    last_error = none;
  };
  previous = active_series (with_stale after before 5);
  timestamp = 5;
  wake = false;
}

restored : restore decoder os opts (codes "u") disk ≡ ok sender
unfolding restore check_destination by_manifest list_dir scan scan_entry get is_pending is_int stem
    value last_file sort_by insert_by request_stamp with_stale stale_of seen_in series_key decimal
restored = refl

-- What the checkpoint decodes to is older.
older :
    (checkpoint : Bytes) (old : List TimeSeries)
    → get state_name disk ≡ some checkpoint
    → decoded decoder os checkpoint ≡ some old
    → request_stamp 0 old ≤ request_stamp 0 (with_stale after before 5)
unfolding get request_stamp with_stale stale_of seen_in series_key decimal
older checkpoint old g d =
    let text : codes "old" ≡ checkpoint = some-injective g in
    let request : before ≡ old =
      some-injective (subst (λ c. decoded decoder os c ≡ some old) (sym text) d) in
    subst (λ r. request_stamp 0 r ≤ 5) request (omega arith)

restore-recovers_example :
    (sender.previous ≡ after) × (sender.timestamp ≡ request_stamp 0 (with_stale after before 5))
unfolding get last_file is_active
restore-recovers_example =
    restore-recovers decoder os opts (codes "u") disk sender batch (codes "new") after before 5
      restored refl refl refl (refl, tt) older

restore-Kept_example : Kept decoder os opts sender
unfolding get
restore-Kept_example =
    restore-Kept decoder os opts (codes "u") disk sender (refl, (refl, (refl, tt))) restored
