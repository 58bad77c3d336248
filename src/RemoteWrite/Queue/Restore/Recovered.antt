-- ===== src/RemoteWrite/Queue/Restore/Recovered.antt =====
-- restore of internal/remotewrite/sender.go: which snapshot a restart takes over.
use llm_metrics_exporter.Base.{
  ℕ, ◌≤◌, ◌≡◌, refl, sym, ap, subst, ◌∙◌, Bool, true, false, Option, none, some, List, [], Bytes,
  length, leb, ltb, arith, if◌then◌else◌,
}
use llm_metrics_exporter.Base.Assoc.{Assoc, get}
use llm_metrics_exporter.Base.Order.{sort_by}
use llm_metrics_exporter.RemoteWrite.Series.{TimeSeries, with_stale, active_series, is_active}
use llm_metrics_exporter.RemoteWrite.Series.Staleness.{AllSeries, active-with_stale}
use llm_metrics_exporter.RemoteWrite.Queue.{Options, Sender, state_name, max_batch}
use llm_metrics_exporter.RemoteWrite.Queue.Restore.{
  Attempt, failed, ok, RestoreError, Decoder, System, Scan, Snapshot, then_do, request_stamp,
  last_file, newer, by_request, by_raw, by_size, by_file, read_candidate, read_last,
  read_candidates, no_snapshot, opened, after_scan, list_dir, check_destination, scan, restore,
  over_cap, system_error,
}

pub then_do-ok :
    {A B : Type 0} (m : Attempt A) (f : A → Attempt B) {b : B}
    → then_do m f ≡ ok b
    → (a : A) × (m ≡ ok a) × (f a ≡ ok b)
unfolding then_do
then_do-ok (failed e) f h = cc
then_do-ok (ok a) f h = (a, refl, h)

-- A guard that did not fail.
pub guard-ok :
    {A : Type 0} (c : Bool) (e : RestoreError) (m : Attempt A) {a : A}
    → (if c then failed e else m) ≡ ok a
    → m ≡ ok a
guard-ok true e m h = cc
guard-ok false e m h = h

pub ok-injective : {A : Type 0} {a b : A} → ok a ≡ ok b → a ≡ b
ok-injective h = cc

module _ (decoder : Decoder) (os : System) where
  -- What a file's bytes decode to.
  abbrev pub decoded : Bytes → Option (List TimeSeries)
  decoded body = elim (decoder.decompress body) [ none ↦ none | some raw ↦ decoder.unmarshal raw ]

  -- A candidate is missing, or it is read and compared.
  data Taken (disk : Assoc Bytes) (before : Snapshot) (name : Bytes) (after : Snapshot)
      : Type 0 where
    passed : get name disk ≡ none → after ≡ before → Taken disk before name after
    taken :
        (body : Bytes) (request : List TimeSeries)
        → get name disk ≡ some body
        → decoded body ≡ some request
        → after ≡ newer decoder os before request
        → Taken disk before name after

  by_request-ok :
      (s after : Snapshot) (o : Option (List TimeSeries))
      → by_request decoder os s o ≡ ok after
      → (request : List TimeSeries) × (o ≡ some request) × (after ≡ newer decoder os s request)
  unfolding by_request
  by_request-ok s after none h = cc
  by_request-ok s after (some r) h = (r, refl, sym (ok-injective h))

  by_raw-ok :
      (s after : Snapshot) (o : Option Bytes)
      → by_raw decoder os s o ≡ ok after
      → (request : List TimeSeries) × (elim o as (λ _. Option (List TimeSeries)) [
        | none ↦ none
        | some raw ↦ decoder.unmarshal raw
      ]
          ≡ some request)
        × (after ≡ newer decoder os s request)
  unfolding by_raw
  by_raw-ok s after none h = cc
  by_raw-ok s after (some raw) h = by_request-ok s after (decoder.unmarshal raw) h

  by_size-ok :
      (s after : Snapshot) (body : Bytes) (o : Option ℕ)
      → by_size decoder os s body o ≡ ok after
      → (request : List TimeSeries) × (decoded body ≡ some request)
        × (after ≡ newer decoder os s request)
  unfolding by_size
  by_size-ok s after body none h = cc
  by_size-ok s after body (some n) h =
      by_raw-ok s after (decoder.decompress body) (guard-ok (ltb max_batch n) _ _ h)

  by_file-Taken :
      (disk : Assoc Bytes) (s after : Snapshot) (name : Bytes) (o : Option Bytes)
      → get name disk ≡ o
      → by_file decoder os s name o ≡ ok after
      → Taken disk s name after
  unfolding by_file
  by_file-Taken disk s after name none e h = passed e (sym (ok-injective h))
  by_file-Taken disk s after name (some body) e h =
      let r =
        by_size-ok s after body (decoder.decoded_size body)
          (guard-ok (os.unreadable name) _ _ (guard-ok (ltb max_batch (length body)) _ _ h)) in
      taken body r.0 e r.1 r.2

  read_candidate-Taken :
      (disk : Assoc Bytes) (s after : Snapshot) (name : Bytes)
      → read_candidate decoder os disk s name ≡ ok after
      → Taken disk s name after
  unfolding read_candidate
  read_candidate-Taken disk s after name h =
      by_file-Taken disk s after name (get name disk) refl (guard-ok (os.no_info name) _ _ h)

  newer_lem :
      (s : Snapshot) (request : List TimeSeries)
      → s.timestamp ≤ request_stamp 0 request
      → newer decoder os s request
        ≡ record { previous = active_series request; timestamp = request_stamp 0 request }
  unfolding newer
  newer_lem s request h =
      let t : leb s.timestamp (request_stamp 0 request) ≡ true = ground arith in
      ap
        (λ b.
          if b
          then record { previous = active_series request; timestamp = request_stamp 0 request }
          else s)
        t

  -- After the checkpoint the time is at most that of any request that the checkpoint is no newer than.
  checkpoint_stamp :
      (disk : Assoc Bytes) (name : Bytes) (after : Snapshot) (limit : ℕ)
      → Taken disk (no_snapshot decoder os) name after
      → ((body : Bytes) (old : List TimeSeries)
          → get name disk ≡ some body
          → decoded body ≡ some old
          → request_stamp 0 old ≤ limit)
      → after.timestamp ≤ limit
  unfolding no_snapshot
  checkpoint_stamp disk name after limit (passed m e) old =
      let t = ap (λ (s : Snapshot). s.timestamp) e in omega arith
  checkpoint_stamp disk name after limit (taken body request g d e) old =
      let t =
        ap (λ (s : Snapshot). s.timestamp)
          (e ∙ newer_lem (no_snapshot decoder os) request (omega arith)) in
      omega (arith, old body request g d)

  newest-Taken :
      (disk : Assoc Bytes) (before after : Snapshot) (name body : Bytes) (request : List TimeSeries)
      → Taken disk before name after
      → get name disk ≡ some body
      → decoded body ≡ some request
      → before.timestamp ≤ request_stamp 0 request
      → after ≡ record { previous = active_series request; timestamp = request_stamp 0 request }
  newest-Taken disk before after name body request (passed m e) g d h = cc
  newest-Taken disk before after name body request (taken b r g' d' e) g d h =
      let same_body : b ≡ body = cc in
      let same_request : r ≡ request = cc in
      e ∙ ap (newer decoder os before) same_request ∙ newer_lem before request h

  -- What is claimed of the sender, as a predicate of it.
  abbrev Recovers : Sender → Type 0
  Recovers s =
      (name body : Bytes) (request : List TimeSeries)
      → last_file s.files ≡ some name
      → get name s.disk ≡ some body
      → decoded body ≡ some request
      → ((checkpoint : Bytes) (old : List TimeSeries)
          → get state_name s.disk ≡ some checkpoint
          → decoded checkpoint ≡ some old
          → request_stamp 0 old ≤ request_stamp 0 request)
      → (s.previous ≡ active_series request) × (s.timestamp ≡ request_stamp 0 request)

  read_last-newest :
      (disk : Assoc Bytes) (first snap : Snapshot) (o : Option Bytes) (name body : Bytes)
      (request : List TimeSeries)
      → read_last decoder os disk first o ≡ ok snap
      → o ≡ some name
      → get name disk ≡ some body
      → decoded body ≡ some request
      → first.timestamp ≤ request_stamp 0 request
      → snap ≡ record { previous = active_series request; timestamp = request_stamp 0 request }
  unfolding read_last
  read_last-newest disk first snap none name body request h e g d l = cc
  read_last-newest disk first snap (some n) name body request h e g d l =
      let same : n ≡ name = cc in
      newest-Taken disk first snap name body request
        (subst (λ x. Taken disk first x snap) same (read_candidate-Taken disk first snap n h)) g d l

  opened-Recovers :
      (opts : Options) (sc : Scan) (snap : Snapshot)
      → read_candidates decoder os sc.disk (sort_by (λ n. n) sc.files) ≡ ok snap
      → Recovers (opened decoder os opts sc snap)
  unfolding opened read_candidates
  opened-Recovers opts sc snap h name body request last g d old =
      let first =
        then_do-ok (read_candidate decoder os sc.disk (no_snapshot decoder os) state_name)
          (λ x. read_last decoder os sc.disk x (last_file (sort_by (λ n. n) sc.files))) h in
      let stamp =
        checkpoint_stamp sc.disk state_name first.0 (request_stamp 0 request)
          (read_candidate-Taken sc.disk _ first.0 state_name first.1) old in
      let newest =
        read_last-newest sc.disk first.0 snap (last_file (sort_by (λ n. n) sc.files)) name body
          request first.2 last g d stamp in
      (ap (λ (s : Snapshot). s.previous) newest, ap (λ (s : Snapshot). s.timestamp) newest)

  after_scan-Recovers :
      (opts : Options) (sc : Scan) (s : Sender) → after_scan decoder os opts sc ≡ ok s → Recovers s
  unfolding after_scan
  after_scan-Recovers opts sc s h =
      let read =
        then_do-ok (read_candidates decoder os sc.disk (sort_by (λ n. n) sc.files))
          (λ x. ok (opened decoder os opts sc x))
          (guard-ok (ltb opts.max_bytes sc.bytes) over_cap _ h) in
      subst Recovers (ok-injective read.2) (opened-Recovers opts sc read.0 read.1)

  list_dir-Recovers :
      (opts : Options) (disk : Assoc Bytes) (s : Sender)
      → list_dir decoder os opts disk ≡ ok s
      → Recovers s
  unfolding list_dir
  list_dir-Recovers opts disk s h =
      let scanned =
        then_do-ok (scan decoder os (record { disk = disk; files = []; bytes = 0 }) disk)
          (after_scan decoder os opts) (guard-ok os.unlisted system_error _ h) in
      after_scan-Recovers opts scanned.0 s scanned.2

  restore-Recovers :
      (opts : Options) (url : Bytes) (disk : Assoc Bytes) (s : Sender)
      → restore decoder os opts url disk ≡ ok s
      → Recovers s
  unfolding restore
  restore-Recovers opts url disk s h =
      let checked =
        then_do-ok (check_destination decoder os url opts.host disk) (list_dir decoder os opts) h in
      list_dir-Recovers opts checked.0 s checked.2

  -- A restart takes over the newest queued snapshot, also after a crash between the write of its batch
  -- and that of the checkpoint: when restore succeeds, the newest queue file decodes to the request
  -- of a snapshot whose series all have a value that is no marker, and the checkpoint decodes to no
  -- newer request, then the sender goes on from that snapshot, at the request's time.
  pub restore-recovers :
      (opts : Options) (url : Bytes) (disk : Assoc Bytes) (s : Sender) (name body : Bytes)
      (current previous : List TimeSeries) (ts : ℕ)
      → restore decoder os opts url disk ≡ ok s
      → last_file s.files ≡ some name
      → get name s.disk ≡ some body
      → decoded body ≡ some (with_stale current previous ts)
      → AllSeries (λ x. is_active x ≡ true) current
      → ((checkpoint : Bytes) (old : List TimeSeries)
          → get state_name s.disk ≡ some checkpoint
          → decoded checkpoint ≡ some old
          → request_stamp 0 old ≤ request_stamp 0 (with_stale current previous ts))
      → (s.previous ≡ current) × (s.timestamp ≡ request_stamp 0 (with_stale current previous ts))
  restore-recovers opts url disk s name body current previous ts h last g d active old =
      let r =
        restore-Recovers opts url disk s h name body (with_stale current previous ts) last g d
          old in
      (r.0 ∙ active-with_stale current previous ts active, r.1)
