-- ===== src/RemoteWrite/Queue/Send.antt =====
-- sendOne: one attempt to deliver the oldest batch.
pub mod Soundness
pub mod Order
pub mod Success
use llm_metrics_exporter.Base.{
  ℕ, ◌+◌, ◌-◌, ◌/◌, ◌^◌, min, Bool, true, false, not, ◌&&◌, ◌||◌, Option, none, some, List, [], ◌∷◌,
  Bytes, length, take, drop, ltb, leb, ◌==◌, if◌then◌else◌,
}
use llm_metrics_exporter.Base.Assoc.{get, delete}
use llm_metrics_exporter.Base.Decimal.{value, is_digit}
use llm_metrics_exporter.RemoteWrite.Queue.{
  Sender, Error, read_failed, bad_request, token_unreadable, token_invalid, transport,
  remove_failed, sync_failed, expired, retryable, rejected, report, suffix,
}

-- The bearer token file: not configured, not opened, or what was read of it (nothing, or a length
-- and whether it is only white space).
pub data Token : Type 0 where
  absent unopened unread : Token
  held : ℕ → Bool → Token

pub data Reply : Type 0 where
  unanswered : Reply
  http : ℕ → Reply

-- What one attempt meets: the read of the batch, the clock, the request and its reply, the removal
-- of the file and the sync of the directory.
pub record Attempt : Type 0 where
  pub readable : Bool
  pub now : ℕ
  pub request_built : Bool
  pub token : Token
  pub reply : Reply
  pub removable : Bool
  pub syncs : Bool

pub record Sent : Type 0 where
  pub sent : Bool
  pub error : Option Error
  pub sender : Sender
  -- the body handed to the HTTP client, if the attempt gets there
  pub posted : Option Bytes

-- strings.TrimSuffix(name, ".rw") and strconv.ParseInt, of a name made of digits.
unfoldable pub stamp_of : Bytes → ℕ
stamp_of name = value 0 (take (length name - length suffix) name)

-- time.Since(time.UnixMilli(ts)) > s.opts.MaxAge; a time in the future has no age.
unfoldable pub is_expired : Sender → Bytes → ℕ → Bool
unfolding stamp_of
is_expired s name now = ltb s.opts.max_age (now - stamp_of name)

unfoldable pub token_error : Token → Option Error
token_error absent = none
token_error unopened = some token_unreadable
token_error unread = some token_invalid
token_error (held n blank) = if ltb 16384 n || blank then some token_invalid else none

-- The end of sendOne: the file is removed and the queue moves on.
unfoldable pub finish :
    Sender → Attempt → Bytes → Bytes → List Bytes → Bool → Bool → Option Bytes → Sent
finish s a name body rest is_old refused posted =
    if not a.removable
    then record { sent = false; error = some remove_failed; sender = s; posted = posted }
    else let moved : Sender = record s {
      disk = delete name s.disk;
      files = rest;
      status = record s.status {
        queued_bytes = s.status.queued_bytes - length body;
        queued_batches = length rest;
        dropped_batches =
            if is_old || refused then s.status.dropped_batches + 1 else s.status.dropped_batches;
        last_success = if is_old || refused then s.status.last_success else a.now / 1000;
        last_error = if is_old then some expired else if refused then s.status.last_error else none;
      };
    } in
      record {
        sent = true;
        error = if a.syncs then none else some sync_failed;
        sender = moved;
        posted = posted;
      }

unfoldable pub answered : Sender → Attempt → Bytes → Bytes → List Bytes → Reply → Sent
unfolding finish
answered s a name body rest unanswered = record {
  sent = false;
  error = some transport;
  sender = s;
  posted = some body;
}
answered s a name body rest (http code) =
    if leb 500 code || code == 429
    then record { sent = false; error = some (retryable code); sender = s; posted = some body }
    else if ltb code 200 || leb 300 code
    then finish (report s (rejected code)) a name body rest false true (some body)
    else finish s a name body rest false false (some body)

unfoldable pub post : Sender → Attempt → Bytes → Bytes → List Bytes → Sent
unfolding answered token_error
post s a name body rest =
    if not a.request_built
    then record { sent = false; error = some bad_request; sender = s; posted = none }
    else elim (token_error a.token) [
      | some e ↦ record { sent = false; error = some e; sender = s; posted = none }
      | none ↦ answered s a name body rest a.reply
    ]

unfoldable pub send_head : Sender → Attempt → Bytes → List Bytes → Option Bytes → Sent
unfolding post
send_head s a name rest none = record {
  sent = false;
  error = some read_failed;
  sender = s;
  posted = none;
}
send_head s a name rest (some body) =
    if not a.readable
    then record { sent = false; error = some read_failed; sender = s; posted = none }
    else if is_expired s name a.now
    then finish s a name body rest true false none
    else post s a name body rest

unfoldable pub send_files : Sender → Attempt → List Bytes → Sent
unfolding send_head
send_files s a [] = record { sent = false; error = none; sender = s; posted = none }
send_files s a (name ∷ rest) = send_head s a name rest (get name s.disk)

unfoldable pub send_one : Sender → Attempt → Sent
unfolding send_files
send_one s a = send_files s a s.files
