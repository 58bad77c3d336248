-- ===== src/RemoteWrite/Queue/Retry/Drain.antt =====
-- The loop empties the queue when nothing fails.
use llm_metrics_exporter.Base.{ℕ, ◌≡◌, refl, true, none, List, [], ◌∷◌, Bytes, arith}
use llm_metrics_exporter.RemoteWrite.Queue.{Sender}
use llm_metrics_exporter.RemoteWrite.Queue.Books.{Sound}
use llm_metrics_exporter.RemoteWrite.Queue.Send.{Attempt, Sent, send_one}
use llm_metrics_exporter.RemoteWrite.Queue.Send.Soundness.{send_one-Sound}
use llm_metrics_exporter.RemoteWrite.Queue.Send.Success.{IsGood, send_one-Succeeds}
use llm_metrics_exporter.RemoteWrite.Queue.Retry.{second, round, round_by, deliver, count}

abbrev pub AllGood : List Attempt → Type 0
AllGood [] = Unit
AllGood (a ∷ attempts) = IsGood a × AllGood attempts

round_sent :
    (o : Sent) (delay : ℕ)
    → o.sent ≡ true
    → o.error ≡ none
    → round o delay ≡ record { sender = o.sender; delay = second; waits = [] }
unfolding round round_by
round_sent o delay t n = rw (t, n) refl

go :
    (s : Sender) (delay : ℕ) (attempts : List Attempt) (files : List Bytes)
    → Sound s
    → s.files ≡ files
    → count attempts ≡ count files
    → AllGood attempts
    → ((deliver s delay attempts).sender.files ≡ []) × ((deliver s delay attempts).waits ≡ [])
unfolding deliver
go s delay [] [] h e n good = (e, refl)
go s delay [] (f ∷ files) h e n good = absurd (omega (arith, n))
go s delay (a ∷ attempts) [] h e n good = absurd (omega (arith, n))
go s delay (a ∷ attempts) (name ∷ rest) h e n good =
    let done = send_one-Succeeds a s name rest good.0 h e in
    rw (round_sent (send_one s a) delay done.0 done.1) (
      go (send_one s a).sender second attempts rest (send_one-Sound s a h) done.2 (omega (arith, n))
        good.1)

-- On a queue with sound books, with as many attempts that meet no failure as there are batches,
-- without a token file or with a valid one, the loop empties the queue and never waits.
pub deliver-drains :
    (s : Sender) (delay : ℕ) (attempts : List Attempt)
    → Sound s
    → count attempts ≡ count s.files
    → AllGood attempts
    → ((deliver s delay attempts).sender.files ≡ []) × ((deliver s delay attempts).waits ≡ [])
deliver-drains s delay attempts h n good = go s delay attempts s.files h refl n good
