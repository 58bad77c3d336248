-- ===== src/RemoteWrite/Queue/Send/Order.antt =====
-- What an attempt to deliver takes from the queue, and what it posts.
use llm_metrics_exporter.Base.{
  ℕ, ◌<◌, ◌≡◌, ◌≢◌, refl, sym, subst, ◌∙◌, ap, Bool, true, false, ◌||◌, Option, none, some, List,
  [], ◌∷◌, Bytes, arith, ltb, leb, ◌==◌, Bool-cases, Option-cases, inl, inr, ◌⊎◌,
}
use llm_metrics_exporter.Base.Assoc.{get}
use llm_metrics_exporter.RemoteWrite.Queue.{Sender, report, rejected}
use llm_metrics_exporter.RemoteWrite.Queue.Books.{Rising, delete-SameOn, Sound}
use llm_metrics_exporter.RemoteWrite.Queue.Order.{batches, batches_on, batches_on-SameOn, Entry}
use llm_metrics_exporter.RemoteWrite.Queue.Send.{
  Attempt, Sent, Reply, unanswered, http, finish, answered, post, token_error, is_expired,
  send_head, send_files, send_one,
}
use llm_metrics_exporter.RemoteWrite.Queue.Send.Soundness.{head-Absent, report_files, report_disk}

-- Why a batch may leave: it is too old, or it was posted and the reply was final.
abbrev pub IsDue : Sender → Attempt → Bytes → Bytes → Option Bytes → Type 0
IsDue s a name body posted =
    (is_expired s name a.now ≡ true)
    ⊎ ((posted ≡ some body) × ((code : ℕ) × (a.reply ≡ http code) × (code < 500) × (code ≢ 429)))

-- Nothing was posted, or the oldest batch was.
abbrev pub IsHead : Sender → Option Bytes → Type 0
IsHead s posted =
    (posted ≡ none)
    ⊎ ((name body : Bytes) × (rest : List Entry) × (batches s ≡ (name, some body) ∷ rest)
        × (posted ≡ some body))

-- The queue stays, or its oldest batch leaves, for a reason.
abbrev pub Stays : Sender → Sent → Type 0
Stays s o = (o.sent ≡ false) × (batches o.sender ≡ batches s)

abbrev pub Leaves : Sender → Attempt → Sent → Type 0
Leaves s a o =
    (o.sent ≡ true)
    × ((name body : Bytes) × (batches s ≡ (name, some body) ∷ batches o.sender)
        × IsDue s a name body o.posted)

abbrev pub Delivered : Sender → Attempt → Sent → Type 0
Delivered s a o = IsHead s o.posted × (Stays s o ⊎ Leaves s a o)

final : (code : ℕ) → (leb 500 code || code == 429) ≡ false → (code < 500) × (code ≢ 429)
final code f = ground arith

module _ (a : Attempt) (name : Bytes) (rest : List Bytes) (body : Bytes) where
  head_batches :
      (s : Sender)
      → s.files ≡ name ∷ rest
      → get name s.disk ≡ some body
      → batches s ≡ (name, some body) ∷ batches_on s.disk rest
  head_batches s ef eb = rw (ef, eb) refl

  posted-IsHead :
      (s : Sender) → s.files ≡ name ∷ rest → get name s.disk ≡ some body → IsHead s (some body)
  posted-IsHead s ef eb = inr (name, body, _, head_batches s ef eb, refl)

  finish-Delivered :
      (old s : Sender)
      → batches s ≡ batches old
      → Rising s.files
      → s.files ≡ name ∷ rest
      → get name s.disk ≡ some body
      → (is_old refused : Bool) (posted : Option Bytes) → IsHead old posted
      → IsDue old a name body posted
      → Delivered old a (finish s a name body rest is_old refused posted)
  unfolding finish
  finish-Delivered old s before rising ef eb is_old refused posted head due =
      elim (Bool-cases a.removable) [
        | inr f ↦ rw f (head, inl (refl, before))
        | inl t ↦ rw t (
            let same =
              delete-SameOn name s.disk rest
                (head-Absent a name rest body (subst Rising ef rising)) in
            let left =
              sym before
              ∙ head_batches s ef eb
              ∙ ap (◌∷◌ (name, some body)) (sym (batches_on-SameOn s.disk _ rest same)) in
            (head, inr (refl, (name, body, left, due))))
      ]

  answered-Delivered :
      (s : Sender)
      → Rising s.files
      → s.files ≡ name ∷ rest
      → get name s.disk ≡ some body
      → (reply : Reply) → a.reply ≡ reply
      → Delivered s a (answered s a name body rest reply)
  unfolding answered
  answered-Delivered s rising ef eb unanswered ar = (posted-IsHead s ef eb, inl (refl, refl))
  answered-Delivered s rising ef eb (http code) ar =
      elim (Bool-cases (leb 500 code || code == 429)) [
        | inl t ↦ rw t (posted-IsHead s ef eb, inl (refl, refl))
        | inr f ↦ rw f (
            let due = inr (refl, (code, ar, (final code f).0, (final code f).1)) in
            let head = posted-IsHead s ef eb in
            elim (Bool-cases (ltb code 200 || leb 300 code)) [
              | inl t ↦ rw t (
                  let s' = report s (rejected code) in
                  let files = report_files s (rejected code) in
                  let disk = report_disk s (rejected code) in
                  finish-Delivered s s' (rw (files, disk) refl) (rw files rising) (files ∙ ef)
                    (ap (get name) disk ∙ eb) false true (some body) head due)
              | inr g ↦
                  rw g (finish-Delivered s s refl rising ef eb false false (some body) head due)
            ])
      ]

  post-Delivered :
      (s : Sender)
      → Rising s.files
      → s.files ≡ name ∷ rest
      → get name s.disk ≡ some body
      → Delivered s a (post s a name body rest)
  unfolding post
  post-Delivered s rising ef eb = elim (Bool-cases a.request_built) [
    | inr f ↦ rw f (inl refl, inl (refl, refl))
    | inl t ↦ rw t (elim (Option-cases (token_error a.token)) [
      | inl n ↦ rw n (answered-Delivered s rising ef eb a.reply refl)
      | inr (e, n) ↦ rw n (inl refl, inl (refl, refl))
    ])
  ]

send_head-Delivered :
    (s : Sender) (a : Attempt) (name : Bytes) (rest : List Bytes) (found : Option Bytes)
    → Rising s.files
    → s.files ≡ name ∷ rest
    → get name s.disk ≡ found
    → Delivered s a (send_head s a name rest found)
unfolding send_head
send_head-Delivered s a name rest none r ef eb = (inl refl, inl (refl, refl))
send_head-Delivered s a name rest (some body) r ef eb = elim (Bool-cases a.readable) [
  | inr f ↦ rw f (inl refl, inl (refl, refl))
  | inl t ↦ rw t (elim (Bool-cases (is_expired s name a.now)) [
    | inl e ↦
        rw e (finish-Delivered a name rest body s s refl r ef eb true false none (inl refl) (inl e))
    | inr f ↦ rw f (post-Delivered a name rest body s r ef eb)
  ])
]

-- On a queue with sound books, an attempt posts nothing or the oldest batch, as it is on disk. Afterwards the queue is as it was,
-- or its oldest batch has left it; and that it does only when it is too old, or when it was posted
-- and answered by a code below 500 that is not 429.
pub send_one-Delivered : (s : Sender) (a : Attempt) → Sound s → Delivered s a (send_one s a)
unfolding send_one send_files
send_one-Delivered s a h = by_files s.files refl
  where
    by_files : (fs : List Bytes) → s.files ≡ fs → Delivered s a (send_files s a fs)
    by_files [] e = (inl refl, inl (refl, refl))
    by_files (name ∷ rest) e = send_head-Delivered s a name rest (get name s.disk) h.rising e refl
