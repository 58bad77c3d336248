-- ===== src/RemoteWrite/Queue/History.antt =====
-- A queue over its life: snapshots are collected and queued, the oldest batch is tried, errors are
-- noted, in any order and whatever fails; and Run's last snapshot.
use llm_metrics_exporter.Base.{
  ℕ, ◌<◌, ◌≡◌, refl, sym, ap, subst, ◌∙◌, Option, none, some, List, [], ◌∷◌, ◌++◌, append_assoc,
  append-nil, arith, Option-cases, inl, inr, if◌then◌else◌,
}
use llm_metrics_exporter.RemoteWrite.Series.{TimeSeries}
use llm_metrics_exporter.RemoteWrite.Series.Encode.{Family, Numbers, encode_families}
use llm_metrics_exporter.RemoteWrite.Queue.{
  Sender, Codec, Write, Error, enqueue, next_stamp, collect, report,
}
use llm_metrics_exporter.RemoteWrite.Queue.Books.{Sound}
use llm_metrics_exporter.RemoteWrite.Queue.Accounting.{enqueue-Sound}
use llm_metrics_exporter.RemoteWrite.Queue.Order.{Entry, batches, added, enqueue-added}
use llm_metrics_exporter.RemoteWrite.Queue.Send.{Attempt, send_one}
use llm_metrics_exporter.RemoteWrite.Queue.Send.Soundness.{
  send_one-Sound, report-Sound, report_files, report_disk,
}
use llm_metrics_exporter.RemoteWrite.Queue.Send.Order.{send_one-Delivered}

pub data Operation : Type 0 where
  -- a collection: what Gather returns, the time, and the outcomes of the two atomic writes
  collected : Option (List Family) → ℕ → Write → Write → Operation
  -- Run's empty snapshot at shutdown
  shut_down : ℕ → Write → Write → Operation
  attempted : Attempt → Operation
  reported : Error → Operation

-- The sender, the batches that were added to the queue and those that left it, in order.
pub record Log : Type 0 where
  pub sender : Sender
  pub gained : List Entry
  pub lost : List Entry

first : List Entry → List Entry
first [] = []
first (e ∷ es) = e ∷ []

-- Run's last step: ts := max(now, s.timestamp+1), enqueue(nil, ts).
pub shutdown : Codec → Sender → ℕ → Write → Write → Option Error × Sender
shutdown codec s now batch checkpoint = enqueue codec s [] (next_stamp s now) batch checkpoint

module _ (codec : Codec) (numbers : Numbers) where
  gained_by : Sender → Option (List Family) → ℕ → Sender → List Entry
  gained_by s none now t = []
  gained_by s (some families) now t =
      elim (encode_families numbers families s.opts.host (next_stamp s now)) [
        | none ↦ []
        | some current ↦ added codec s current (next_stamp s now) t
      ]

  pub step : Sender → Operation → Log
  unfolding gained_by first
  step s (collected gathered now batch checkpoint) =
      let t = (collect codec numbers s gathered now batch checkpoint).1 in
      record { sender = t; gained = gained_by s gathered now t; lost = [] }
  step s (shut_down now batch checkpoint) =
      let t = (shutdown codec s now batch checkpoint).1 in
      record { sender = t; gained = added codec s [] (next_stamp s now) t; lost = [] }
  step s (attempted a) =
      let o = send_one s a in
      record { sender = o.sender; gained = []; lost = if o.sent then first (batches s) else [] }
  step s (reported e) = record { sender = report s e; gained = []; lost = [] }

  pub run : Sender → List Operation → Log
  run s [] = record { sender = s; gained = []; lost = [] }
  run s (op ∷ ops) =
      let l = step s op in
      let rest = run l.sender ops in
      record { sender = rest.sender; gained = l.gained ++ rest.gained; lost = l.lost ++ rest.lost }

  next_stamp-lt : (s : Sender) (now : ℕ) → s.timestamp < next_stamp s now
  unfolding next_stamp
  next_stamp-lt s now = omega arith

  pub collect-Sound :
      (s : Sender) (gathered : Option (List Family)) (now : ℕ) (batch checkpoint : Write)
      → Sound s
      → Sound (collect codec numbers s gathered now batch checkpoint).1
  unfolding collect
  collect-Sound s none now batch checkpoint h = h
  collect-Sound s (some families) now batch checkpoint h =
      elim (Option-cases (encode_families numbers families s.opts.host (next_stamp s now))) [
        | inl n ↦ rw (n, collect) h
        | inr (current, e) ↦
            rw (e, collect)
              (enqueue-Sound codec s current _ batch checkpoint h (next_stamp-lt s now))
      ]

  step-Sound : (s : Sender) (op : Operation) → Sound s → Sound (step s op).sender
  unfolding step shutdown
  step-Sound s (collected gathered now batch checkpoint) h =
      collect-Sound s gathered now batch checkpoint h
  step-Sound s (shut_down now batch checkpoint) h =
      enqueue-Sound codec s [] _ batch checkpoint h (next_stamp-lt s now)
  step-Sound s (attempted a) h = send_one-Sound s a h
  step-Sound s (reported e) h = report-Sound s e h

  collect_encoded :
      (s : Sender) (families : List Family) (current : List TimeSeries) (now : ℕ)
      (batch checkpoint : Write)
      → encode_families numbers families s.opts.host (next_stamp s now) ≡ some current
      → collect codec numbers s (some families) now batch checkpoint
        ≡ enqueue codec s current (next_stamp s now) batch checkpoint
  unfolding collect
  collect_encoded s families current now batch checkpoint e = rw (e, collect) refl

  gained_encoded :
      (s : Sender) (families : List Family) (current : List TimeSeries) (now : ℕ) (t : Sender)
      → encode_families numbers families s.opts.host (next_stamp s now) ≡ some current
      → gained_by s (some families) now t ≡ added codec s current (next_stamp s now) t
  unfolding gained_by
  gained_encoded s families current now t e = rw (e, gained_by) refl

  collect-gained :
      (s : Sender) (gathered : Option (List Family)) (now : ℕ) (batch checkpoint : Write)
      → Sound s
      → batches (collect codec numbers s gathered now batch checkpoint).1
        ≡ batches s
          ++ gained_by s gathered now (collect codec numbers s gathered now batch checkpoint).1
  unfolding collect gained_by
  collect-gained s none now batch checkpoint h = sym (append-nil (batches s))
  collect-gained s (some families) now batch checkpoint h =
      elim (Option-cases (encode_families numbers families s.opts.host (next_stamp s now))) [
        | inl n ↦ rw (n, collect, gained_by) (sym (append-nil (batches s)))
        | inr (current, e) ↦
            let ts = next_stamp s now in
            let t = (enqueue codec s current ts batch checkpoint).1 in
            subst (λ u. batches u ≡ batches s ++ gained_by s (some families) now u)
              (ap (λ p. p.1) (sym (collect_encoded s families current now batch checkpoint e)))
              (enqueue-added codec s current ts batch checkpoint h (next_stamp-lt s now)
                ∙ ap (λ es. batches s ++ es) (sym (gained_encoded s families current now t e)))
      ]

  step-fifo :
      (s : Sender) (op : Operation)
      → Sound s
      → batches s ++ (step s op).gained ≡ (step s op).lost ++ batches (step s op).sender
  unfolding step shutdown first
  step-fifo s (collected gathered now batch checkpoint) h =
      sym (collect-gained s gathered now batch checkpoint h)
  step-fifo s (shut_down now batch checkpoint) h =
      sym (enqueue-added codec s [] _ batch checkpoint h (next_stamp-lt s now))
  step-fifo s (attempted a) h = elim ((send_one-Delivered s a h).1) [
    | inl (t, same) ↦ rw (t, same) (append-nil (batches s))
    | inr (t, (name, body, head, due)) ↦ rw (t, head) (append-nil _)
  ]
  step-fifo s (reported e) h = rw (report_files s e, report_disk s e) (append-nil (batches s))

  -- The queue's books are kept over every sequence of operations, whatever write, read, post or
  -- removal fails: the listed files are on disk under rising times up to the checkpoint's, the
  -- status counts them and their bytes, and the bytes stay within the cap.
  pub run-Sound : (s : Sender) (ops : List Operation) → Sound s → Sound (run s ops).sender
  unfolding run
  run-Sound s [] h = h
  run-Sound s (op ∷ ops) h = run-Sound (step s op).sender ops (step-Sound s op h)

  -- First in, first out: over every sequence of operations on a queue with sound books, the batches that were queued before and
  -- those that were added are, in this order, those that left and those that are queued after.
  pub run-fifo :
      (s : Sender) (ops : List Operation)
      → Sound s
      → batches s ++ (run s ops).gained ≡ (run s ops).lost ++ batches (run s ops).sender
  unfolding run
  run-fifo s [] h = append-nil (batches s)
  run-fifo s (op ∷ ops) h =
      let l = step s op in
      let rest = run l.sender ops in
      sym (append_assoc (batches s) l.gained rest.gained)
      ∙ ap (λ es. es ++ rest.gained) (step-fifo s op h)
      ∙ append_assoc l.lost (batches l.sender) rest.gained
      ∙ ap (λ es. l.lost ++ es) (run-fifo l.sender ops (step-Sound s op h))
      ∙ sym (append_assoc l.lost rest.lost (batches rest.sender))
