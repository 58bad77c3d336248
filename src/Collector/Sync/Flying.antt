-- ===== src/Collector/Sync/Flying.antt =====
-- One backend's calls of Collect, over all the adapters that it has ever had.
use mathlib.Core.Path.{ap₂}
use mathlib.Core.Bool.{true≢false}
use llm_metrics_exporter.Base.{
  ℕ, ◌+◌, ◌-◌, ◌≤◌, ◌≡◌, refl, sym, ap, subst, ◌∙◌, Bool, true, false, not, ◌&&◌, Option, none,
  some, Bool-cases, Option-cases, inl, inr, arith, if◌then◌else◌,
}
use llm_metrics_exporter.Collector.Lifecycle.{
  Life, IsSafe, fresh, close_arm, finish, begin-collecting, close_arm-IsSafe,
}
use llm_metrics_exporter.Collector.Lifecycle.Closing.{close_arm-Closing}
use llm_metrics_exporter.Collector.Sync.{
  Entry, Slot, is_busy, placeholder, new_arm, late_end, retire, restart, replace, purge, register,
  deregister, closing, ended_between, Reached, nothing, purged, registered, deregistered, collected,
  current_ended, retired_ended,
}
use llm_metrics_exporter.Collector.Sync.Exclusive.{
  IsExclusive, CurrentSafe, RetiredSafe, Bare, slot-IsExclusive,
}

module _ (R : Type 0) (same_reg : R → R → Bool) where
  -- The calls of Collect in flight on an adapter that the slot knows.
  abbrev pub flying : Option (Entry R same_reg) → ℕ
  flying none = 0
  flying (some e) = e.life.collecting

  idle_life : (a : Life) → IsSafe a → a.busy ≡ false → a.collecting ≡ 0
  idle_life a h e = h.one_collection ∙ ap {B = ℕ} (λ b. if b then 1 else 0) e

  bare_life : (a : Life) → IsSafe a → a.has_adapter ≡ false → a.collecting ≡ 0
  bare_life a h e = elim (Bool-cases a.busy) [
    | inl t ↦ absurd (true≢false (sym (h.busy_adapter t) ∙ e))
    | inr f ↦ idle_life a h f
  ]

  at_most_one : (a : Life) → IsSafe a → a.collecting ≤ 1
  at_most_one a h = ground (arith, h.one_collection)

  retired_idle :
      (o : Option (Entry R same_reg))
      → RetiredSafe R same_reg o
      → is_busy R same_reg o ≡ false
      → flying o ≡ 0
  unfolding is_busy
  retired_idle none h e = refl
  retired_idle (some x) h e = idle_life x.life h.0 e

  current-Bare :
      (o : Option (Entry R same_reg)) → CurrentSafe R same_reg o → Bare R same_reg o → flying o ≡ 0
  current-Bare none h b = refl
  current-Bare (some x) h b = bare_life x.life h.0 b

  new_flying :
      (b : Bool) (r : R) (has : Bool)
      → flying (some (if b then placeholder R same_reg r else new_arm R same_reg r has)) ≡ 0
  unfolding placeholder new_arm fresh
  new_flying true r has = refl
  new_flying false r has = refl

  -- Closing the current arm loses no collection: the retired arms have what is in flight.
  flying-retire :
      (s : Slot R same_reg) (old : Entry R same_reg) (ends : Bool)
      → flying s.retired ≡ 0
      → CurrentSafe R same_reg (some old)
      → flying (retire R same_reg s old ends).1 ≡ (if ends then 0 else old.life.collecting)
  unfolding retire late_end finish
  flying-retire s old ends z h =
      let c = close_arm-Closing old.life h.0 h.1 in
      let b = (close_arm old.life).0 in
      let b_safe = close_arm-IsSafe old.life h.0 in
      elim (Bool-cases b.busy) [
        | inr idle ↦
            let none_left = sym c.collecting ∙ idle_life b b_safe idle in
            rw (c.retires, idle) (ground (arith, z, none_left))
        | inl busy ↦
            let one = at_most_one b b_safe in
            rw (c.retires, busy)
              (elim (Bool-cases ends) [
                | inl e ↦ rw e (omega (arith, one))
                | inr n ↦ rw n c.collecting
              ])
      ]

  total-restart :
      (s : Slot R same_reg) (old : Entry R same_reg) (r : R) (has ends : Bool)
      → flying s.retired ≡ 0
      → CurrentSafe R same_reg (some old)
      → flying (restart R same_reg s old r has ends).current
          + flying (restart R same_reg s old r has ends).retired
        ≡ (if ends then 0 else old.life.collecting)
  unfolding restart
  total-restart s old r has ends z h =
      ap₂ (◌+◌) (new_flying (retire R same_reg s old ends).0.busy r has)
        (flying-retire s old ends z h)
      ∙ omega arith

  abbrev pub total : Slot R same_reg → ℕ
  total s = flying s.current + flying s.retired

  total-replace :
      (s : Slot R same_reg) (o : Option (Entry R same_reg)) (r : R) (has ends : Bool)
      → s.retired ≡ none
      → s.current ≡ o
      → CurrentSafe R same_reg o
      → total (replace R same_reg s o r has ends) + (if not ends then 0 else closing R same_reg o r)
        ≡ flying o
  unfolding replace new_arm fresh
  total-replace s none r has ends e c h = let z = ap flying e in ground (arith, z)
  total-replace s (some old) r has ends e c h =
      let z = ap flying e in
      let y = ap flying c in
      elim (Bool-cases (same_reg old.reg r && not old.life.closed)) [
        | inl same ↦ rw same (ground (arith, z, y))
        | inr other ↦
            let w = total-restart s old r has ends z h in
            rw other (elim (Bool-cases ends) [
              | inl t ↦ omega (
                arith,
                w ∙ ap {B = ℕ} (λ b. if b then 0 else old.life.collecting) t,
                ap {B = ℕ} (λ b. if not b then 0 else old.life.collecting) t,
              )
              | inr f ↦ omega (
                arith,
                w ∙ ap {B = ℕ} (λ b. if b then 0 else old.life.collecting) f,
                ap {B = ℕ} (λ b. if not b then 0 else old.life.collecting) f,
              )
            ])
      ]

  total-register :
      (s : Slot R same_reg) (r : R) (has ends : Bool)
      → IsExclusive R same_reg s
      → total (register R same_reg s r has ends) + ended_between R same_reg s r ends ≡ total s
  unfolding register placeholder fresh
  total-register s r has ends h = elim (Bool-cases (is_busy R same_reg s.retired)) [
    | inl busy ↦
        let bare = current-Bare s.current h.current_safe (h.alone busy) in
        rw busy (omega (arith, bare))
    | inr idle ↦
        let z = retired_idle s.retired h.retired_safe idle in
        rw idle (
          total-replace (record s { retired = none }) s.current r has ends refl refl h.current_safe
          ∙ omega (arith, z))
  ]

  total-purge :
      (s : Slot R same_reg) → IsExclusive R same_reg s → total (purge R same_reg s) ≡ total s
  unfolding purge
  total-purge s h = elim (Bool-cases (is_busy R same_reg s.retired)) [
    | inl busy ↦ rw (busy, purge) refl
    | inr idle ↦
        let z = retired_idle s.retired h.retired_safe idle in rw (idle, purge) (omega (arith, z))
  ]

  -- A bare arm is not retired.
  retire-Bare :
      (s : Slot R same_reg) (old : Entry R same_reg)
      → CurrentSafe R same_reg (some old)
      → Bare R same_reg (some old)
      → (retire R same_reg s old false).1 ≡ s.retired
  unfolding retire
  retire-Bare s old h b =
      let c = close_arm-Closing old.life h.0 h.1 in
      let z = c.collecting ∙ bare_life old.life h.0 b in
      let x = close_arm-IsSafe old.life h.0 in
      elim (Bool-cases (close_arm old.life).0.busy) [
        | inl busy ↦
            absurd (omega (arith, z, x.one_collection ∙ ap {B = ℕ} (λ b. if b then 1 else 0) busy))
        | inr idle ↦ rw (c.retires, idle) refl
      ]

  total-deregister :
      (s : Slot R same_reg) → IsExclusive R same_reg s → total (deregister R same_reg s) ≡ total s
  unfolding deregister
  total-deregister s h = elim (Option-cases s.current) [
    | inl n ↦ rw (n, deregister) (ap (λ o. flying o + flying s.retired) n)
    | inr (old, e) ↦
        let cur = subst (CurrentSafe R same_reg) e h.current_safe in
        elim (Bool-cases (is_busy R same_reg s.retired)) [
          | inl busy ↦
              let bare = subst (Bare R same_reg) e (h.alone busy) in
              let kept = ap flying (retire-Bare s old cur bare) in
              let z = bare_life old.life cur.0 bare in rw (e, deregister) (omega (arith, kept, z))
          | inr idle ↦
              let z = retired_idle s.retired h.retired_safe idle in
              let w = flying-retire s old false z cur in rw (e, deregister) (omega (arith, w, z))
        ]
  ]

  collecting-finish : (a : Life) → (finish a).collecting ≡ a.collecting - 1
  unfolding finish
  collecting-finish a = refl

  -- The slot knows of every call of Collect in flight.
  slot-total : {s : Slot R same_reg} {n : ℕ} → Reached R same_reg s n → n ≡ total s
  slot-total nothing = omega arith
  slot-total (purged {s} r) = slot-total r ∙ sym (total-purge s (slot-IsExclusive R same_reg r))
  slot-total (registered {s} q has ends r) =
      omega (arith, slot-total r, total-register s q has ends (slot-IsExclusive R same_reg r))
  slot-total (deregistered {s} r) =
      slot-total r ∙ sym (total-deregister s (slot-IsExclusive R same_reg r))
  slot-total (collected e b c g r) =
      omega (arith, slot-total r, ap flying c, begin-collecting e.life b g)
  slot-total (current_ended e c pos r) =
      omega (arith, slot-total r, ap flying c, collecting-finish e.life, pos)
  slot-total (retired_ended e c pos r) =
      omega (arith, slot-total r, ap flying c, collecting-finish e.life, pos)

  current_at_most_one : (o : Option (Entry R same_reg)) → CurrentSafe R same_reg o → flying o ≤ 1
  current_at_most_one none h = omega arith
  current_at_most_one (some e) h = at_most_one e.life h.0

  retired_one : (o : Option (Entry R same_reg)) → RetiredSafe R same_reg o → flying o ≤ 1
  retired_one none h = omega arith
  retired_one (some e) h = at_most_one e.life h.0

  total_one : (s : Slot R same_reg) → IsExclusive R same_reg s → total s ≤ 1
  total_one s h = elim (Bool-cases (is_busy R same_reg s.retired)) [
    | inl busy ↦ omega (
      arith,
      current-Bare s.current h.current_safe (h.alone busy),
      retired_one s.retired h.retired_safe,
    )
    | inr idle ↦ omega (
      arith,
      retired_idle s.retired h.retired_safe idle,
      current_at_most_one s.current h.current_safe,
    )
  ]

  -- Over every interleaving of scrapes, collections and late goroutines, at most one call of Collect
  -- is in flight over all the adapters that a backend has ever had, and it is on an adapter that the
  -- collector's maps still hold. Each adapter that they hold is safe (at most one collection at a
  -- time, closed at most once and not while it collects), and as long as a retired adapter still
  -- collects, the backend has no other adapter.
  pub Reached-IsExclusive :
      {s : Slot R same_reg} {n : ℕ}
      → Reached R same_reg s n
      → (n ≤ 1) × (n ≡ flying s.current + flying s.retired) × IsExclusive R same_reg s
  Reached-IsExclusive {s} r =
      let h = slot-IsExclusive R same_reg r in
      let e = slot-total r in (omega (arith, e, total_one s h), e, h)
