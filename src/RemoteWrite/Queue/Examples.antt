-- ===== src/RemoteWrite/Queue/Examples.antt =====
-- A queue with one batch, and the queue's theorems at it.
use llm_metrics_exporter.Base.{
  ◌≡◌, ◌*◌, ◌^◌, refl, sym, min, true, false, none, some, List, [], ◌∷◌, ◌++◌, codes, arith,
}
use llm_metrics_exporter.Base.Assoc.{get, put}
use llm_metrics_exporter.Base.Decimal.{decimal, value}
use llm_metrics_exporter.RemoteWrite.Series.{TimeSeries, with_stale, stale_of}
use llm_metrics_exporter.RemoteWrite.Series.Encode.{Numbers}
use llm_metrics_exporter.RemoteWrite.Queue.{
  Sender, Codec, done, early, late, enqueue, transport, pack, store, accept, atomic_write,
  queue_name, padded,
}
use llm_metrics_exporter.RemoteWrite.Queue.Books.{Sound}
use llm_metrics_exporter.RemoteWrite.Queue.Accounting.{enqueue-Sound}
use llm_metrics_exporter.RemoteWrite.Queue.Order.{batches}
use llm_metrics_exporter.RemoteWrite.Queue.Send.{
  Attempt, http, unanswered, held, send_one, send_files, send_head, post, answered, token_error,
  is_expired, stamp_of,
}
use llm_metrics_exporter.RemoteWrite.Queue.Send.Order.{Delivered, send_one-Delivered}
use llm_metrics_exporter.RemoteWrite.Queue.Send.Success.{IsGood}
use llm_metrics_exporter.RemoteWrite.Queue.History.{
  Operation, collected, shut_down, attempted, run, run-Sound, run-fifo,
}
use llm_metrics_exporter.RemoteWrite.Queue.Retry.{
  deliver, count, IsDelay, AllDelays, deliver-IsDelay, deliver-Fail,
}
use llm_metrics_exporter.RemoteWrite.Queue.Retry.Drain.{deliver-drains}

abbrev empty : Sender
empty = record {
  opts = record { host = codes "h"; max_age = 1000; max_bytes = 4194304 };
  disk = [];
  files = [];
  status = record {
    queued_bytes = 0;
    queued_batches = 0;
    dropped_batches = 0;
    last_success = 0;
    last_error = none;
  };
  previous = [];
  timestamp = 0;
  wake = false;
}

empty-Sound : Sound empty
empty-Sound = record {
  batches = refl;
  bytes = refl;
  on_disk = tt;
  rising = tt;
  past = tt;
  within_cap = omega arith;
}

abbrev plain : Codec
plain = record { marshal = λ ss. some (codes "request"); compress = λ raw. raw }

abbrev numbers : Numbers
numbers = record { of_uint = λ n. n; format = λ n. codes "1" }

abbrev up : List TimeSeries
up = record { labels = []; samples = record { bits = 1; timestamp = 5 } ∷ [] } ∷ []

-- The checkpoint's write fails after its rename.
abbrev queued : Sender
queued = (enqueue plain empty up 5 done late).1

queued-Sound : Sound queued
queued-Sound = enqueue-Sound plain empty up 5 done late empty-Sound (omega arith)

abbrev good : Attempt
good = record {
  readable = true;
  now = 6;
  request_built = true;
  token = held 20 false;
  reply = http 204;
  removable = true;
  syncs = true;
}

good-IsGood : IsGood good
unfolding token_error
good-IsGood = record {
  readable = refl;
  request_built = refl;
  token_valid = refl;
  code = 204;
  replied = refl;
  from_200 = omega arith;
  below_300 = omega arith;
  removable = refl;
  syncs = refl;
}

abbrev lost : Attempt
lost = record good { reply = unanswered }

abbrev life : List Operation
life =
    collected (some []) 7 done done ∷ attempted lost ∷ shut_down 8 early done ∷ attempted good ∷ []

run-Sound_example : Sound (run plain numbers queued life).sender
run-Sound_example = run-Sound plain numbers queued life queued-Sound

run-fifo_example :
    batches queued ++ (run plain numbers queued life).gained
    ≡ (run plain numbers queued life).lost ++ batches (run plain numbers queued life).sender
run-fifo_example = run-fifo plain numbers queued life queued-Sound

send_one-Delivered_example : Delivered queued good (send_one queued good)
send_one-Delivered_example = send_one-Delivered queued good queued-Sound

deliver-IsDelay_example :
    IsDelay (deliver queued 1000 (lost ∷ good ∷ [])).delay
    × AllDelays (deliver queued 1000 (lost ∷ good ∷ [])).waits
deliver-IsDelay_example = deliver-IsDelay queued 1000 (lost ∷ good ∷ []) (omega arith, omega arith)

queued_files : count queued.files ≡ 1
unfolding enqueue pack store accept atomic_write with_stale stale_of
queued_files = refl

lost_fails : (send_one queued lost).error ≡ some transport
unfolding enqueue pack store accept atomic_write with_stale stale_of send_one send_files send_head
    post answered token_error is_expired stamp_of queue_name padded get put decimal value
lost_fails = refl

deliver-drains_example :
    ((deliver queued 1000 (good ∷ [])).sender.files ≡ [])
    × ((deliver queued 1000 (good ∷ [])).waits ≡ [])
deliver-drains_example =
    deliver-drains queued 1000 (good ∷ []) queued-Sound (sym queued_files) (good-IsGood, tt)

deliver-Fail_example : (deliver queued 1000 (lost ∷ [])).delay ≡ min (1000 * 2 ^ 1) 60000
deliver-Fail_example =
    deliver-Fail queued 1000 (lost ∷ []) (omega arith) (transport, lost_fails, tt)
