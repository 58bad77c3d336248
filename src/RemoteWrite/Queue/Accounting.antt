-- ===== src/RemoteWrite/Queue/Accounting.antt =====
-- Every operation of the queue keeps its books, whatever fails.
use llm_metrics_exporter.Base.{
  ℕ, ◌+◌, ◌≤◌, ◌<◌, ◌≡◌, refl, sym, ◌∙◌, true, false, ◌||◌, Option, none, some, List, [], ◌∷◌, ◌++◌,
  Bytes, arith, length, ltb, Bool-cases, inl, inr,
}
use llm_metrics_exporter.Base.Assoc.{Assoc, get, get-put_self}
use llm_metrics_exporter.RemoteWrite.Series.{TimeSeries, with_stale}
use llm_metrics_exporter.RemoteWrite.Queue.{
  Sender, Codec, Write, done, early, late, atomic_write, queue_name, state_name, accept, store,
  pack, enqueue, drop_newest, is_empty, max_batch,
}
use llm_metrics_exporter.RemoteWrite.Queue.Names.{state_name-ne-queue_name}
use llm_metrics_exporter.RemoteWrite.Queue.Books.{
  All, UpTo, Absent, IsOn, SameOn, put-SameOn, SameOn-trans, total-SameOn, IsOn-SameOn,
  total-append, All-append, UpTo-mono, UpTo-Absent, UpTo-Absent_state, Rising-append, Sound,
}

SameOn-refl : (d : Assoc Bytes) (ns : List Bytes) → SameOn d d ns
SameOn-refl d [] = tt
SameOn-refl d (n ∷ ns) = (refl, SameOn-refl d ns)

-- An atomic write touches no other name, whether it succeeds or not.
pub atomic_write-SameOn :
    (w : Write) (d : Assoc Bytes) (k body : Bytes) (ns : List Bytes)
    → Absent k ns
    → SameOn d (atomic_write w d k body).1 ns
unfolding atomic_write
atomic_write-SameOn done d k body ns h = put-SameOn k body d ns h
atomic_write-SameOn early d k body ns h = SameOn-refl d ns
atomic_write-SameOn late d k body ns h = put-SameOn k body d ns h

pub atomic_write_done :
    (w : Write) (d : Assoc Bytes) (k body : Bytes)
    → (atomic_write w d k body).0 ≡ true
    → get k (atomic_write w d k body).1 ≡ some body
unfolding atomic_write
atomic_write_done done d k body h = get-put_self k body d
atomic_write_done early d k body h = cc
atomic_write_done late d k body h = cc

-- A change of the directory that leaves the listed files alone keeps the books.
disk-Sound :
    (s : Sender) (d : Assoc Bytes)
    → Sound s
    → SameOn s.disk d s.files
    → Sound (record s { disk = d })
disk-Sound s d h same = record {
  batches = h.batches;
  bytes = h.bytes ∙ sym (total-SameOn s.disk d s.files same);
  on_disk = IsOn-SameOn s.disk d s.files same h.on_disk;
  rising = h.rising;
  past = h.past;
  within_cap = h.within_cap;
}

module _ (s : Sender) (h : Sound s) (ts : ℕ) (late_enough : s.timestamp < ts) where
  pub new_name-Absent : Absent (queue_name ts) s.files
  new_name-Absent = UpTo-Absent s.timestamp ts s.files late_enough h.past

  new_files-UpTo : All (UpTo ts) (s.files ++ (queue_name ts ∷ []))
  new_files-UpTo =
      All-append (UpTo ts) s.files _ (UpTo-mono s.timestamp ts s.files (omega arith) h.past)
        ((ts, refl, omega arith), tt)

  -- The books after a batch was added: `d` holds the old files, the new one and perhaps a checkpoint.
  added-Sound :
      (d : Assoc Bytes) (body : Bytes) (current : List TimeSeries)
      → SameOn s.disk d s.files
      → get (queue_name ts) d ≡ some body
      → s.status.queued_bytes + length body ≤ s.opts.max_bytes
      → (next : Sender) → next.opts ≡ s.opts
      → next.disk ≡ d
      → next.files ≡ s.files ++ (queue_name ts ∷ [])
      → next.timestamp ≡ ts
      → next.status.queued_bytes ≡ s.status.queued_bytes + length body
      → next.status.queued_batches ≡ length next.files
      → Sound next
  added-Sound d body current same new fits next eo ed ef et eb en = record {
    batches = en;
    bytes =
        rw (ed, ef, eb, total-append d s.files (queue_name ts ∷ []), new)
          (omega (arith, h.bytes, total-SameOn s.disk d s.files same));
    on_disk =
        rw (ed, ef)
          (All-append (IsOn d) s.files _ (IsOn-SameOn s.disk d s.files same h.on_disk)
            ((body, new), tt));
    rising = rw ef (Rising-append s.timestamp ts s.files late_enough h.past h.rising);
    past = rw (ef, et) new_files-UpTo;
    within_cap = rw (eb, eo) fits;
  }

  accept-Sound :
      (d : Assoc Bytes) (body : Bytes) (current : List TimeSeries) (checkpoint : Write)
      → SameOn s.disk d s.files
      → get (queue_name ts) d ≡ some body
      → s.status.queued_bytes + length body ≤ s.opts.max_bytes
      → Sound (accept s current ts (queue_name ts) body d checkpoint).1
  unfolding accept
  accept-Sound d body current checkpoint same new fits =
      let d' = (atomic_write checkpoint d state_name body).1 in
      let kept =
        atomic_write-SameOn checkpoint d state_name body s.files
          (UpTo-Absent_state s.timestamp s.files h.past) in
      let new' =
        (atomic_write-SameOn checkpoint d state_name body (queue_name ts ∷ [])
          ((λ e. state_name-ne-queue_name ts (sym e)), tt)).0
        ∙ new in
      let books =
        added-Sound d' body current (SameOn-trans s.disk d d' s.files same kept) new' fits in
      elim (Bool-cases (atomic_write checkpoint d state_name body).0) [
        | inl t ↦ rw t (books _ refl refl refl refl refl refl)
        | inr f ↦ rw f (books _ refl refl refl refl refl refl)
      ]

  room :
      (cap : ℕ) (body : Bytes)
      → (ltb max_batch (length body) || ltb cap (s.status.queued_bytes + length body)) ≡ false
      → s.status.queued_bytes + length body ≤ cap
  room cap body g = ground arith

  store-Sound :
      (body : Bytes) (current : List TimeSeries) (batch checkpoint : Write)
      → s.status.queued_bytes + length body ≤ s.opts.max_bytes
      → Sound (store s current ts body batch checkpoint).1
  unfolding store
  store-Sound body current batch checkpoint fits =
      let same = atomic_write-SameOn batch s.disk (queue_name ts) body s.files new_name-Absent in
      elim (Bool-cases (atomic_write batch s.disk (queue_name ts) body).0) [
        | inl t ↦ rw t (
            accept-Sound _ body current checkpoint same
              (atomic_write_done batch s.disk (queue_name ts) body t) fits)
        | inr f ↦ rw f (disk-Sound s _ h same)
      ]

  drop_newest-Sound : Sound (drop_newest s)
  unfolding drop_newest
  drop_newest-Sound = record {
    batches = h.batches;
    bytes = h.bytes;
    on_disk = h.on_disk;
    rising = h.rising;
    past = h.past;
    within_cap = h.within_cap;
  }

  pack-Sound :
      (codec : Codec) (current : List TimeSeries) (marshalled : Option Bytes)
      (batch checkpoint : Write)
      → Sound (pack codec s current ts marshalled batch checkpoint).1
  unfolding pack
  pack-Sound codec current none batch checkpoint = h
  pack-Sound codec current (some raw) batch checkpoint =
      let body = codec.compress raw in
      elim (Bool-cases (ltb max_batch (length raw))) [
        | inl t ↦ rw t drop_newest-Sound
        | inr f ↦
            rw f
              (elim (Bool-cases (
                ltb max_batch (length body)
                || ltb s.opts.max_bytes (s.status.queued_bytes + length body))) [
                  | inl t ↦ rw t drop_newest-Sound
                  | inr g ↦
                      rw g
                        (store-Sound body current batch checkpoint (room s.opts.max_bytes body g))
                ])
      ]

-- A snapshot that comes later than the checkpoint keeps the queue's books, whether it is added,
-- dropped for its size or for the cap, or an atomic write fails at any point.
pub enqueue-Sound :
    (codec : Codec) (s : Sender) (current : List TimeSeries) (ts : ℕ) (batch checkpoint : Write)
    → Sound s
    → s.timestamp < ts
    → Sound (enqueue codec s current ts batch checkpoint).1
unfolding enqueue
enqueue-Sound codec s current ts batch checkpoint h late_enough =
    elim (Bool-cases (is_empty (with_stale current s.previous ts))) [
      | inl t ↦ rw t h
      | inr f ↦ rw f (pack-Sound s h ts late_enough codec current _ batch checkpoint)
    ]
