-- ===== src/RemoteWrite/Queue/Send/Success.antt =====
-- An attempt that meets no failure.
use llm_metrics_exporter.Base.{
  ℕ, ◌≤◌, ◌<◌, ◌≡◌, refl, sym, subst, Bool, true, false, ◌||◌, Option, none, some, List, ◌∷◌, Bytes,
  arith, ltb, leb, ◌==◌, Bool-cases, inl, inr,
}
use llm_metrics_exporter.RemoteWrite.Queue.{Sender}
use llm_metrics_exporter.RemoteWrite.Queue.Books.{All, IsOn, Sound}
use llm_metrics_exporter.RemoteWrite.Queue.Send.{
  Attempt, Sent, http, finish, answered, post, token_error, is_expired, send_head, send_files,
  send_one,
}

-- Everything succeeds, without a token file or with a valid one, and the receiver answers 2xx.
pub record IsGood (a : Attempt) : Type 0 where
  pub readable : a.readable ≡ true
  pub request_built : a.request_built ≡ true
  pub token_valid : token_error a.token ≡ none
  pub code : ℕ
  pub replied : a.reply ≡ http code
  pub from_200 : 200 ≤ code
  pub below_300 : code < 300
  pub removable : a.removable ≡ true
  pub syncs : a.syncs ≡ true

-- The attempt ends well, with the head gone.
abbrev pub Succeeds : Sent → List Bytes → Type 0
Succeeds o rest = (o.sent ≡ true) × (o.error ≡ none) × (o.sender.files ≡ rest)

module _ (a : Attempt) (good : IsGood a) (name : Bytes) (rest : List Bytes) (body : Bytes)
    (s : Sender) where
  finish-Succeeds :
      (is_old refused : Bool) (posted : Option Bytes)
      → Succeeds (finish s a name body rest is_old refused posted) rest
  unfolding finish
  finish-Succeeds is_old refused posted = rw (good.removable, good.syncs) (refl, refl, refl)

  accepted_code :
      (code : ℕ)
      → 200 ≤ code
      → code < 300
      → ((leb 500 code || code == 429) ≡ false) × ((ltb code 200 || leb 300 code) ≡ false)
  accepted_code code lo hi = (ground arith, ground arith)

  post-Succeeds : Succeeds (post s a name body rest) rest
  unfolding post answered
  post-Succeeds =
      let ok = accepted_code good.code good.from_200 good.below_300 in
      rw (good.request_built, good.token_valid, good.replied, ok.0, ok.1)
        (finish-Succeeds false false (some body))

  send_head-Succeeds : Succeeds (send_head s a name rest (some body)) rest
  unfolding send_head
  send_head-Succeeds = rw good.readable (elim (Bool-cases (is_expired s name a.now)) [
    | inl t ↦ rw t (finish-Succeeds true false none)
    | inr f ↦ rw f post-Succeeds
  ])

-- On a queue in order, such an attempt takes the head off, or finds the queue empty.
pub send_one-Succeeds :
    (a : Attempt) (s : Sender) (name : Bytes) (rest : List Bytes)
    → IsGood a
    → Sound s
    → s.files ≡ name ∷ rest
    → Succeeds (send_one s a) rest
unfolding send_one send_files
send_one-Succeeds a s name rest good h e =
    let on = (subst (λ fs. All (IsOn s.disk) fs) e h.on_disk).0 in
    subst (λ fs. Succeeds (send_files s a fs) rest) (sym e)
      (subst (λ o. Succeeds (send_head s a name rest o) rest) (sym on.1)
        (send_head-Succeeds a good name rest on.0 s))
