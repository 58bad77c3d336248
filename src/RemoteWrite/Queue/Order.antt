-- ===== src/RemoteWrite/Queue/Order.antt =====
-- First in, first out: the batches of the queue in order, what an enqueue adds and what an attempt to
-- deliver takes, and the history of a queue.
use llm_metrics_exporter.Base.{
  ℕ, ◌+◌, ◌<◌, ◌≡◌, refl, sym, ◌∙◌, ◌||◌, Option, none, some, List, [], ◌∷◌, ◌++◌, append-nil,
  Bytes, arith, Bool-cases, Option-cases, inl, inr, ◌⊎◌, length, ltb, ◌==◌, ==_iff, if◌then◌else◌,
}
use llm_metrics_exporter.Base.Assoc.{Assoc, get}
use llm_metrics_exporter.RemoteWrite.Series.{TimeSeries, with_stale}
use llm_metrics_exporter.RemoteWrite.Queue.{
  Sender, Codec, Write, enqueue, queue_name, state_name, atomic_write, accept, store, pack,
  drop_newest, is_empty, max_batch, marshal_failed,
}
use llm_metrics_exporter.RemoteWrite.Queue.Names.{state_name-ne-queue_name}
use llm_metrics_exporter.RemoteWrite.Queue.Books.{SameOn, SameOn-trans, UpTo-Absent_state, Sound}
use llm_metrics_exporter.RemoteWrite.Queue.Accounting.{
  atomic_write-SameOn, atomic_write_done, new_name-Absent,
}

-- The listed batches, oldest first, each with the bytes that are on disk for it.
abbrev pub batches_on : Assoc Bytes → List Bytes → List (Bytes × Option Bytes)
batches_on disk [] = []
batches_on disk (n ∷ ns) = (n, get n disk) ∷ batches_on disk ns

abbrev pub batches : Sender → List (Bytes × Option Bytes)
batches s = batches_on s.disk s.files

pub batches_on-SameOn :
    (d e : Assoc Bytes) (ns : List Bytes) → SameOn d e ns → batches_on e ns ≡ batches_on d ns
batches_on-SameOn d e [] h = refl
batches_on-SameOn d e (n ∷ ns) h = rw (h.0, batches_on-SameOn d e ns h.1)

pub batches_on-append :
    (d : Assoc Bytes) (ns : List Bytes) (n : Bytes)
    → batches_on d (ns ++ (n ∷ [])) ≡ batches_on d ns ++ ((n, get n d) ∷ [])
batches_on-append d [] n = refl
batches_on-append d (m ∷ ns) n = rw (batches_on-append d ns n)

abbrev pub Entry : Type 0
Entry = Bytes × Option Bytes

-- The queue is as it was, or the entry was put at its end.
abbrev pub Added : Sender → ℕ → Entry → Sender → Type 0
Added s ts e t =
    ((t.timestamp ≡ s.timestamp) × (batches t ≡ batches s))
    ⊎ ((t.timestamp ≡ ts) × (batches t ≡ batches s ++ (e ∷ [])))

module _ (s : Sender) (h : Sound s) (ts : ℕ) (late_enough : s.timestamp < ts) where
  appended :
      (d : Assoc Bytes) (body : Bytes)
      → SameOn s.disk d s.files
      → get (queue_name ts) d ≡ some body
      → batches_on d (s.files ++ (queue_name ts ∷ []))
        ≡ batches s ++ ((queue_name ts, some body) ∷ [])
  appended d body same new =
      batches_on-append d s.files (queue_name ts)
      ∙ rw (batches_on-SameOn s.disk d s.files same, new) refl

  accept-Added :
      (d : Assoc Bytes) (body : Bytes) (current : List TimeSeries) (checkpoint : Write)
      → SameOn s.disk d s.files
      → get (queue_name ts) d ≡ some body
      → Added s ts
          (queue_name ts, some body)
          (accept s current ts (queue_name ts) body d checkpoint).1
  unfolding accept
  accept-Added d body current checkpoint same new =
      let d' = (atomic_write checkpoint d state_name body).1 in
      let kept =
        atomic_write-SameOn checkpoint d state_name body s.files
          (UpTo-Absent_state s.timestamp s.files h.past) in
      let new' =
        (atomic_write-SameOn checkpoint d state_name body (queue_name ts ∷ [])
          ((λ e. state_name-ne-queue_name ts (sym e)), tt)).0
        ∙ new in
      let added = appended d' body (SameOn-trans s.disk d d' s.files same kept) new' in
      elim (Bool-cases (atomic_write checkpoint d state_name body).0) [
        | inl t ↦ rw t (inr (refl, added))
        | inr f ↦ rw f (inr (refl, added))
      ]

  store-Added :
      (body : Bytes) (current : List TimeSeries) (batch checkpoint : Write)
      → Added s ts (queue_name ts, some body) (store s current ts body batch checkpoint).1
  unfolding store
  store-Added body current batch checkpoint =
      let same =
        atomic_write-SameOn batch s.disk (queue_name ts) body s.files
          (new_name-Absent s h ts late_enough) in
      elim (Bool-cases (atomic_write batch s.disk (queue_name ts) body).0) [
        | inl t ↦ rw t (
            accept-Added _ body current checkpoint same
              (atomic_write_done batch s.disk (queue_name ts) body t))
        | inr f ↦ rw f (inl (refl, batches_on-SameOn s.disk _ s.files same))
      ]

  pack-Added :
      (codec : Codec) (current : List TimeSeries) (raw : Bytes) (batch checkpoint : Write)
      → Added s ts
          (queue_name ts, some (codec.compress raw))
          (pack codec s current ts (some raw) batch checkpoint).1
  unfolding pack drop_newest
  pack-Added codec current raw batch checkpoint =
      let body = codec.compress raw in
      elim (Bool-cases (ltb max_batch (length raw))) [
        | inl t ↦ rw t (inl (refl, refl))
        | inr f ↦
            rw f
              (elim (Bool-cases (
                ltb max_batch (length body)
                || ltb s.opts.max_bytes (s.status.queued_bytes + length body))) [
                  | inl t ↦ rw t (inl (refl, refl))
                  | inr g ↦ rw g (store-Added body current batch checkpoint)
                ])
      ]

-- The batch that a snapshot makes: none when there is nothing to say or the marshaller fails.
pub offered : Codec → Sender → List TimeSeries → ℕ → List Entry
offered codec s current ts =
    let request = with_stale current s.previous ts in
    if is_empty request then [] else elim (codec.marshal request) [
      | none ↦ []
      | some raw ↦ (queue_name ts, some (codec.compress raw)) ∷ []
    ]

-- What a snapshot added to the queue: the checkpoint's time tells whether it did.
pub added : Codec → Sender → List TimeSeries → ℕ → Sender → List Entry
unfolding offered
added codec s current ts t = if t.timestamp == s.timestamp then [] else offered codec s current ts

batches-Added :
    (s t : Sender) (ts : ℕ) (e : Entry) (rest : List Entry)
    → s.timestamp < ts
    → Added s ts e t
    → rest ≡ e ∷ []
    → batches t ≡ batches s ++ (if t.timestamp == s.timestamp then [] else rest)
batches-Added s t ts e rest h (inl (stamp, same)) r =
    rw ((==_iff t.timestamp s.timestamp).1 stamp, append-nil (batches s)) same
batches-Added s t ts e rest h (inr (stamp, more)) r =
    elim (Bool-cases (t.timestamp == s.timestamp)) [
      | inl y ↦ absurd (omega (arith, (==_iff t.timestamp s.timestamp).0 y, stamp, h))
      | inr n ↦ rw (n, r) more
    ]

pack_failed :
    (codec : Codec) (s : Sender) (current : List TimeSeries) (ts : ℕ) (batch checkpoint : Write)
    → pack codec s current ts none batch checkpoint ≡ (some marshal_failed, s)
unfolding pack
pack_failed codec s current ts batch checkpoint = refl

-- Whatever fails, the queue afterwards is the queue before and what the snapshot added at its end.
pub enqueue-added :
    (codec : Codec) (s : Sender) (current : List TimeSeries) (ts : ℕ) (batch checkpoint : Write)
    → Sound s
    → s.timestamp < ts
    → batches (enqueue codec s current ts batch checkpoint).1
      ≡ batches s ++ added codec s current ts (enqueue codec s current ts batch checkpoint).1
unfolding enqueue added offered
enqueue-added codec s current ts batch checkpoint h late_enough =
    let same = (==_iff s.timestamp s.timestamp).1 refl in
    elim (Bool-cases (is_empty (with_stale current s.previous ts))) [
      | inl t ↦ rw (t, same) (sym (append-nil (batches s)))
      | inr f ↦ rw f (elim (Option-cases (codec.marshal (with_stale current s.previous ts))) [
        | inl n ↦
            rw (n, pack_failed codec s current ts batch checkpoint, same)
              (sym (append-nil (batches s)))
        | inr (raw, m) ↦ rw m (
            batches-Added s (pack codec s current ts (some raw) batch checkpoint).1 ts _ _
              late_enough (pack-Added s h ts late_enough codec current raw batch checkpoint) refl)
      ])
    ]
