-- ===== src/RemoteWrite/Queue/Retry.antt =====
-- deliver: the loop around sendOne, with its delay in milliseconds. The attempts that it meets are
-- given; the loop ends with them, as it does when its context is cancelled.
pub mod Drain
use llm_metrics_exporter.Base.{
  ℕ, zero, suc, ◌+◌, ◌*◌, ◌^◌, ◌≤◌, ◌≡◌, ◌∙◌, refl, sym, ap, min, Bool, true, false, Option, none,
  some, List, [], ◌∷◌, ◌++◌, arith,
}
use llm_metrics_exporter.RemoteWrite.Queue.{Sender, Error, report}
use llm_metrics_exporter.RemoteWrite.Queue.Send.{Attempt, Sent, send_one}

-- How the loop waits: on the timer alone after an error, and on the timer or a new batch when the
-- queue is empty.
pub data Wait : Type 0 where
  asleep awake_for_new : ℕ → Wait

pub record Loop : Type 0 where
  pub sender : Sender
  pub delay : ℕ
  pub waits : List Wait

abbrev pub second : ℕ
second = 1000

abbrev pub minute : ℕ
minute = 60000

round_by : Sender → ℕ → Bool → Option Error → Loop
round_by s delay true none = record { sender = s; delay = second; waits = [] }
round_by s delay false none = record { sender = s; delay = delay; waits = awake_for_new delay ∷ [] }
round_by s delay sent (some e) = record {
  sender = report s e;
  delay = min (delay * 2) minute;
  waits = asleep delay ∷ [];
}

-- One round: what is waited for, and the delay and the sender of the next round.
pub round : Sent → ℕ → Loop
unfolding round_by
round o delay = round_by o.sender delay o.sent o.error

pub deliver : Sender → ℕ → List Attempt → Loop
deliver s delay [] = record { sender = s; delay = delay; waits = [] }
deliver s delay (a ∷ attempts) =
    let r = round (send_one s a) delay in
    let rest = deliver r.sender r.delay attempts in
    record { sender = rest.sender; delay = rest.delay; waits = r.waits ++ rest.waits }

abbrev length_of : Wait → ℕ
length_of (asleep d) = d
length_of (awake_for_new d) = d

-- From a second to a minute.
abbrev pub IsDelay : ℕ → Type 0
IsDelay d = (second ≤ d) × (d ≤ minute)

abbrev pub AllDelays : List Wait → Type 0
AllDelays [] = Unit
AllDelays (w ∷ ws) = IsDelay (length_of w) × AllDelays ws

AllDelays-append : (xs ys : List Wait) → AllDelays xs → AllDelays ys → AllDelays (xs ++ ys)
AllDelays-append [] ys h k = k
AllDelays-append (x ∷ xs) ys h k = (h.0, AllDelays-append xs ys h.1 k)

round_by-IsDelay :
    (s : Sender) (delay : ℕ) (sent : Bool) (error : Option Error)
    → IsDelay delay
    → IsDelay (round_by s delay sent error).delay × AllDelays (round_by s delay sent error).waits
unfolding round_by
round_by-IsDelay s delay true none h = ((omega arith, omega arith), tt)
round_by-IsDelay s delay false none h = (h, (h, tt))
round_by-IsDelay s delay true (some e) h = ((omega (arith, h.0), omega arith), (h, tt))
round_by-IsDelay s delay false (some e) h = ((omega (arith, h.0), omega arith), (h, tt))

-- Whatever the attempts meet, each delay that the loop sets its timer to is between a second and a
-- minute, when it starts with such a delay. A wake-up or the end of the context may cut a wait short.
pub deliver-IsDelay :
    (s : Sender) (delay : ℕ) (attempts : List Attempt)
    → IsDelay delay
    → IsDelay (deliver s delay attempts).delay × AllDelays (deliver s delay attempts).waits
unfolding deliver round
deliver-IsDelay s delay [] h = (h, tt)
deliver-IsDelay s delay (a ∷ attempts) h =
    let o = send_one s a in
    let now = round_by-IsDelay o.sender delay o.sent o.error h in
    let r = round o delay in
    let rest = deliver-IsDelay r.sender r.delay attempts now.0 in
    (rest.0, AllDelays-append r.waits (deliver r.sender r.delay attempts).waits now.1 rest.1)

-- The attempts of a loop that all end with an error.
abbrev pub Fail : Sender → List Attempt → Type 0
Fail s [] = Unit
Fail s (a ∷ attempts) =
    ((e : Error) × ((send_one s a).error ≡ some e) × Fail (report (send_one s a).sender e) attempts)

abbrev pub count {ℓ} : {A : Type ℓ} → List A → ℕ
count [] = 0
count (x ∷ xs) = suc (count xs)

round_failed :
    (o : Sent) (delay : ℕ) (e : Error)
    → o.error ≡ some e
    → ((round o delay).sender ≡ report o.sender e)
      × ((round o delay).delay ≡ min (delay * 2) minute)
unfolding round round_by
round_failed o delay e h = by_sent o.sent
  where
    by_sent :
        (b : Bool)
        → ((round_by o.sender delay b o.error).sender ≡ report o.sender e)
          × ((round_by o.sender delay b o.error).delay ≡ min (delay * 2) minute)
    by_sent true = rw h (refl, refl)
    by_sent false = rw h (refl, refl)

le-times : (x q : ℕ) → x ≤ x * suc q
le-times x q = omega arith

capped : (x p cap : ℕ) → 1 ≤ p → min (min x cap * p) cap ≡ min (x * p) cap
capped x zero cap h = absurd (omega arith)
capped x (suc q) cap h = ground (arith, le-times x q, le-times cap q)

two_pos : (n : ℕ) → 1 ≤ 2 ^ n
two_pos zero = omega arith
two_pos (suc n) = omega (arith, two_pos n)

assoc : (d p : ℕ) → d * 2 * p ≡ d * (2 * p)
assoc d p = omega arith

pow_suc : (n : ℕ) → 2 ^ suc n ≡ 2 * 2 ^ n
pow_suc n = omega arith

doubled : (d n : ℕ) → min (min (d * 2) minute * 2 ^ n) minute ≡ min (d * 2 ^ suc n) minute
doubled d n =
    capped (d * 2) (2 ^ n) minute (two_pos n)
    ∙ ap (λ x. min x minute) (assoc d (2 ^ n) ∙ ap (λ p. d * p) (sym (pow_suc n)))

-- While the attempts fail, the delay doubles up to a minute, from any delay of at most a minute.
pub deliver-Fail :
    (s : Sender) (delay : ℕ) (attempts : List Attempt)
    → delay ≤ minute
    → Fail s attempts
    → (deliver s delay attempts).delay ≡ min (delay * 2 ^ count attempts) minute
unfolding deliver
deliver-Fail s delay [] le h = omega (arith, le)
deliver-Fail s delay (a ∷ attempts) le (e, failed, later) =
    let o = send_one s a in
    let r = round_failed o delay e failed in
    rw (r.0, r.1)
      (deliver-Fail (report o.sender e) (min (delay * 2) minute) attempts (omega arith) later
        ∙ doubled delay (count attempts))
