-- ===== src/RemoteWrite/Queue/Send/Soundness.antt =====
-- An attempt to deliver keeps the queue's books, however it ends.
use llm_metrics_exporter.Base.{
  ◌≡◌, refl, sym, subst, ◌∙◌, ap, Bool, true, false, ◌||◌, Option, none, some, List, [], ◌∷◌, Bytes,
  arith, ltb, leb, ◌==◌, Bool-cases, Option-cases, inl, inr,
}
use llm_metrics_exporter.Base.Assoc.{get}
use llm_metrics_exporter.RemoteWrite.Queue.{Sender, Error, report, rejected}
use llm_metrics_exporter.RemoteWrite.Queue.Books.{
  All, UpTo, Rising, Absent, total, IsOn, delete-SameOn, total-remove, IsOn-SameOn, After-Absent,
  Sound,
}
use llm_metrics_exporter.RemoteWrite.Queue.Send.{
  Attempt, Reply, unanswered, http, finish, answered, post, token_error, is_expired, send_head,
  send_files, send_one,
}

pub report-Sound : (s : Sender) (e : Error) → Sound s → Sound (report s e)
unfolding report
report-Sound s e h = record {
  batches = h.batches;
  bytes = h.bytes;
  on_disk = h.on_disk;
  rising = h.rising;
  past = h.past;
  within_cap = h.within_cap;
}

pub report_files : (s : Sender) (e : Error) → (report s e).files ≡ s.files
unfolding report
report_files s e = refl

pub report_disk : (s : Sender) (e : Error) → (report s e).disk ≡ s.disk
unfolding report
report_disk s e = refl

module _ (a : Attempt) (name : Bytes) (rest : List Bytes) (body : Bytes) where
  pub head-Absent : Rising (name ∷ rest) → Absent name rest
  head-Absent r = subst (λ k. Absent k rest) (sym r.0.1) (After-Absent r.0.0 rest r.0.2)

  finish-Sound :
      (s : Sender)
      → Sound s
      → s.files ≡ name ∷ rest
      → get name s.disk ≡ some body
      → (is_old refused : Bool) (posted : Option Bytes)
      → Sound (finish s a name body rest is_old refused posted).sender
  unfolding finish
  finish-Sound s h ef eb is_old refused posted = elim (Bool-cases a.removable) [
    | inr f ↦ rw f h
    | inl t ↦ rw t (
        let books = subst (λ fs. s.status.queued_bytes ≡ total s.disk fs) ef h.bytes in
        let rising = subst Rising ef h.rising in
        let same = delete-SameOn name s.disk rest (head-Absent rising) in
        record {
          batches = refl;
          bytes = total-remove s.disk name rest body _ eb (head-Absent rising) books;
          on_disk =
              IsOn-SameOn s.disk _ rest same (subst (λ fs. All (IsOn s.disk) fs) ef h.on_disk).1;
          rising = rising.1;
          past = (subst (λ fs. All (UpTo s.timestamp) fs) ef h.past).1;
          within_cap = omega (arith, h.within_cap);
        })
  ]

  answered-Sound :
      (s : Sender)
      → Sound s
      → s.files ≡ name ∷ rest
      → get name s.disk ≡ some body
      → (reply : Reply) → Sound (answered s a name body rest reply).sender
  unfolding answered
  answered-Sound s h ef eb unanswered = h
  answered-Sound s h ef eb (http code) = elim (Bool-cases (leb 500 code || code == 429)) [
    | inl t ↦ rw t h
    | inr f ↦ rw f (elim (Bool-cases (ltb code 200 || leb 300 code)) [
      | inl t ↦ rw t (
          finish-Sound (report s (rejected code)) (report-Sound s (rejected code) h)
            (report_files s _ ∙ ef) (ap (get name) (report_disk s _) ∙ eb) false true (some body))
      | inr g ↦ rw g (finish-Sound s h ef eb false false (some body))
    ])
  ]

  post-Sound :
      (s : Sender)
      → Sound s
      → s.files ≡ name ∷ rest
      → get name s.disk ≡ some body
      → Sound (post s a name body rest).sender
  unfolding post
  post-Sound s h ef eb = elim (Bool-cases a.request_built) [
    | inr f ↦ rw f h
    | inl t ↦ rw t (elim (Option-cases (token_error a.token)) [
      | inl n ↦ rw n (answered-Sound s h ef eb a.reply)
      | inr (e, n) ↦ rw n h
    ])
  ]

send_head-Sound :
    (s : Sender) (a : Attempt) (name : Bytes) (rest : List Bytes) (found : Option Bytes)
    → Sound s
    → s.files ≡ name ∷ rest
    → get name s.disk ≡ found
    → Sound (send_head s a name rest found).sender
unfolding send_head
send_head-Sound s a name rest none h ef eb = h
send_head-Sound s a name rest (some body) h ef eb = elim (Bool-cases a.readable) [
  | inr f ↦ rw f h
  | inl t ↦ rw t (elim (Bool-cases (is_expired s name a.now)) [
    | inl t ↦ rw t (finish-Sound a name rest body s h ef eb true false none)
    | inr f ↦ rw f (post-Sound a name rest body s h ef eb)
  ])
]

-- One attempt to deliver the oldest batch keeps the queue's books, on every one of its ways out.
pub send_one-Sound : (s : Sender) (a : Attempt) → Sound s → Sound (send_one s a).sender
unfolding send_one send_files
send_one-Sound s a h = by_files s.files refl
  where
    by_files : (fs : List Bytes) → s.files ≡ fs → Sound (send_files s a fs).sender
    by_files [] e = h
    by_files (name ∷ rest) e = send_head-Sound s a name rest (get name s.disk) h e refl
