-- ===== src/Collector/Lifecycle.antt =====
-- internal/collector/collector.go: one arm's adapter between scrapes, a slow collection that goes on
-- in its goroutine after the scrape gave up, and closeArm. `collecting` and `closes` count what
-- happens to the adapter: calls of Collect in flight, and calls of Close.
pub mod Closing
use mathlib.Core.Bool.{true≢false}
use llm_metrics_exporter.Base.{
  ◌≢◌, sym, ap, subst, ℕ, ◌+◌, ◌-◌, ◌<◌, ◌≡◌, refl, Bool, true, false, not, ◌&&◌, ◌||◌, arith,
  if◌then◌else◌,
}

pub record Life : Type 0 where
  pub busy : Bool
  pub closed : Bool
  -- a.ad != nil
  pub has_adapter : Bool
  pub collecting : ℕ
  pub closes : ℕ

-- A new arm, with an adapter that started or with none.
unfoldable pub fresh : Bool → Life
fresh has = record { busy = false; closed = false; has_adapter = has; collecting = 0; closes = 0 }

-- closeArm; the second part is whether the arm is retired.
unfoldable pub close_arm : Life → Life × Bool
close_arm a =
    if a.closed
    then (a, false)
    else if a.busy
    then (record a { closed = true }, true)
    else if a.has_adapter
    then (record a { closed = true; closes = a.closes + 1 }, false)
    else (record a { closed = true }, false)

pub data Refusal : Type 0 where
  still_running no_adapter : Refusal

pub data Started : Type 0 where
  refused : Refusal → Started
  started : Life → Started

-- collectArm up to the start of its goroutine.
unfoldable pub begin : Life → Started
begin a =
    if a.busy || a.closed
    then refused still_running
    else if not a.has_adapter
    then refused no_adapter
    else started (record a { busy = true; collecting = a.collecting + 1 })

-- The goroutine, when Collect has returned.
unfoldable pub finish : Life → Life
finish a = record a {
  busy = false;
  collecting = a.collecting - 1;
  closes = if a.closed then a.closes + 1 else a.closes;
}

-- What may happen to an arm, in any order: a goroutine ends only if there is one.
pub data Reached (has : Bool) : Life → Type 0 where
  born : Reached has (fresh has)
  shut : {a : Life} → Reached has a → Reached has (close_arm a).0
  begun : {a b : Life} → begin a ≡ started b → Reached has a → Reached has b
  ended : {a : Life} → 0 < a.collecting → Reached has a → Reached has (finish a)

-- At most one collection is in flight, and busy tells; the adapter is closed at most once, never
-- during a collection, and it is closed when the arm is closed and idle.
pub record IsSafe (a : Life) : Type 0 where
  pub one_collection : a.collecting ≡ (if a.busy then 1 else 0)
  pub closed_once : a.closes ≡ (if a.closed && a.has_adapter && not a.busy then 1 else 0)
  pub busy_adapter : a.busy ≡ true → a.has_adapter ≡ true

-- The parts of IsSafe on the fields of an arm.
abbrev Flags : Bool → Bool → Bool → ℕ → ℕ → Type 0
Flags busy closed has collecting closes =
    (collecting ≡ (if busy then 1 else 0))
    × (closes ≡ (if closed && has && not busy then 1 else 0))
    × (busy ≡ true → has ≡ true)

flags : (a : Life) → IsSafe a → Flags a.busy a.closed a.has_adapter a.collecting a.closes
flags a h = (h.one_collection, h.closed_once, h.busy_adapter)

pub safe : (a : Life) → Flags a.busy a.closed a.has_adapter a.collecting a.closes → IsSafe a
safe a h = record { one_collection = h.0; closed_once = h.1; busy_adapter = h.2 }

close_arm-Flags :
    (busy closed has : Bool) (n m : ℕ)
    → Flags busy closed has n m
    → IsSafe
        (close_arm
          record { busy = busy; closed = closed; has_adapter = has; collecting = n; closes = m }).0
unfolding close_arm
close_arm-Flags busy true has n m h = safe _ h
close_arm-Flags true false has n m h = safe _ (h.0, ground (arith, h.1), h.2)
close_arm-Flags false false true n m h = safe _ (h.0, omega (arith, h.1), h.2)
close_arm-Flags false false false n m h = safe _ (h.0, h.1, h.2)

pub close_arm-IsSafe : (a : Life) → IsSafe a → IsSafe (close_arm a).0
close_arm-IsSafe a h =
    close_arm-Flags a.busy a.closed a.has_adapter a.collecting a.closes (flags a h)

started_life : Started → Life → Life
started_life (refused e) a = a
started_life (started b) a = b

refused≢started : {e : Refusal} {b : Life} → refused e ≢ started b
refused≢started q = cc

begin-Flags :
    (busy closed has : Bool) (n m : ℕ) (b : Life)
    → Flags busy closed has n m
    → begin record { busy = busy; closed = closed; has_adapter = has; collecting = n; closes = m }
      ≡ started b
    → IsSafe b
unfolding begin started_life
begin-Flags true closed has n m b h e = absurd (refused≢started e)
begin-Flags false true has n m b h e = absurd (refused≢started e)
begin-Flags false false false n m b h e = absurd (refused≢started e)
begin-Flags false false true n m b h e =
    subst IsSafe (ap (λ s. started_life s b) e) (safe _ (omega (arith, h.0), h.1, λ t. refl))

pub begin-IsSafe : (a b : Life) → IsSafe a → begin a ≡ started b → IsSafe b
begin-IsSafe a b h e =
    begin-Flags a.busy a.closed a.has_adapter a.collecting a.closes b (flags a h) e

finish-Flags :
    (busy closed has : Bool) (n m : ℕ)
    → Flags busy closed has n m
    → 0 < n
    → IsSafe (
        finish
          record { busy = busy; closed = closed; has_adapter = has; collecting = n; closes = m })
unfolding finish
finish-Flags false closed has n m h pos = absurd (omega (arith, h.0))
finish-Flags true closed false n m h pos = absurd (true≢false (sym (h.2 refl)))
finish-Flags true true true n m h pos = safe _ (omega (arith, h.0), omega (arith, h.1), λ t. refl)
finish-Flags true false true n m h pos = safe _ (omega (arith, h.0), h.1, λ t. refl)

pub finish-IsSafe : (a : Life) → IsSafe a → 0 < a.collecting → IsSafe (finish a)
finish-IsSafe a h pos =
    finish-Flags a.busy a.closed a.has_adapter a.collecting a.closes (flags a h) pos

-- However collections, closings and late goroutines interleave, an arm's adapter runs at most one
-- collection at a time, is closed at most once and not while it collects, and is closed when the arm
-- is closed and no collection is in flight.
pub Reached-IsSafe : {has : Bool} {a : Life} → Reached has a → IsSafe a
unfolding fresh
Reached-IsSafe {has} born = safe _ (refl, refl, λ t. absurd (true≢false (sym t)))
Reached-IsSafe (shut r) = close_arm-IsSafe _ (Reached-IsSafe r)
Reached-IsSafe (begun e r) = begin-IsSafe _ _ (Reached-IsSafe r) e
Reached-IsSafe (ended pos r) = finish-IsSafe _ (Reached-IsSafe r) pos

pub fresh-IsSafe : (has : Bool) → IsSafe (fresh has)
unfolding fresh
fresh-IsSafe has = safe _ (refl, refl, λ t. absurd (true≢false (sym t)))

begin-Running_by :
    (busy closed has : Bool) (n m : ℕ) (b : Life)
    → begin record { busy = busy; closed = closed; has_adapter = has; collecting = n; closes = m }
      ≡ started b
    → (b.closed ≡ false) × (has ≡ true)
unfolding begin started_life
begin-Running_by true closed has n m b e = absurd (refused≢started e)
begin-Running_by false true has n m b e = absurd (refused≢started e)
begin-Running_by false false false n m b e = absurd (refused≢started e)
begin-Running_by false false true n m b e = (ap (λ s. (started_life s b).closed) (sym e), refl)

-- A collection starts only on an open arm with an adapter.
pub begin-Running : (a b : Life) → begin a ≡ started b → (b.closed ≡ false) × (a.has_adapter ≡ true)
begin-Running a b e = begin-Running_by a.busy a.closed a.has_adapter a.collecting a.closes b e

begin-collecting_by :
    (busy closed has : Bool) (n m : ℕ) (b : Life)
    → begin record { busy = busy; closed = closed; has_adapter = has; collecting = n; closes = m }
      ≡ started b
    → b.collecting ≡ n + 1
unfolding begin started_life
begin-collecting_by true closed has n m b e = absurd (refused≢started e)
begin-collecting_by false true has n m b e = absurd (refused≢started e)
begin-collecting_by false false false n m b e = absurd (refused≢started e)
begin-collecting_by false false true n m b e = ap (λ s. (started_life s b).collecting) (sym e)

-- It is one more call of Collect.
pub begin-collecting : (a b : Life) → begin a ≡ started b → b.collecting ≡ a.collecting + 1
begin-collecting a b e = begin-collecting_by a.busy a.closed a.has_adapter a.collecting a.closes b e
