-- ===== src/Collector/Lifecycle/Closing.antt =====
-- What closeArm and the end of a collection leave of an arm.
use mathlib.Core.Bool.{true≢false}
use llm_metrics_exporter.Base.{
  ℕ, ◌<◌, ◌≡◌, refl, sym, ap, ◌∙◌, Bool, true, false, arith, if◌then◌else◌,
}
use llm_metrics_exporter.Collector.Lifecycle.{Life, IsSafe, close_arm, finish}

-- A closed arm that is still listed is a placeholder.
abbrev pub IsOpen : Life → Type 0
IsOpen a = a.closed ≡ true → a.has_adapter ≡ false

pub record Closing (a : Life) : Type 0 where
  pub closed : (close_arm a).0.closed ≡ true
  pub retires : (close_arm a).1 ≡ (close_arm a).0.busy
  pub collecting : (close_arm a).0.collecting ≡ a.collecting

close_arm-by :
    (busy shut has : Bool) (n m : ℕ)
    → (shut ≡ true → has ≡ false)
    → (busy ≡ true → has ≡ true)
    → Closing record { busy = busy; closed = shut; has_adapter = has; collecting = n; closes = m }
unfolding close_arm
close_arm-by false true has n m o b = record { closed = refl; retires = refl; collecting = refl }
close_arm-by true true has n m o b = absurd (true≢false (sym (b refl) ∙ o refl))
close_arm-by true false has n m o b = record { closed = refl; retires = refl; collecting = refl }
close_arm-by false false true n m o b = record { closed = refl; retires = refl; collecting = refl }
close_arm-by false false false n m o b = record { closed = refl; retires = refl; collecting = refl }

pub close_arm-Closing : (a : Life) → IsSafe a → IsOpen a → Closing a
close_arm-Closing a h o =
    close_arm-by a.busy a.closed a.has_adapter a.collecting a.closes o h.busy_adapter

pub in_flight : (a : Life) → IsSafe a → a.busy ≡ true → 0 < a.collecting
in_flight a h e = omega (arith, h.one_collection, ap {B = ℕ} (λ b. if b then 1 else 0) e)

pub finish_closed : (a : Life) → (finish a).closed ≡ a.closed
unfolding finish
finish_closed a = refl

pub finish-IsOpen : (a : Life) → IsOpen a → IsOpen (finish a)
unfolding finish
finish-IsOpen a h = h

pub finish-Bare : (a : Life) → a.has_adapter ≡ false → (finish a).has_adapter ≡ false
unfolding finish
finish-Bare a h = h

pub finish_idle : (a : Life) → (finish a).busy ≡ false
unfolding finish
finish_idle a = refl
