-- ===== src/Collector/Sync.antt =====
-- internal/collector/collector.go: sync, for one backend. Every access that sync makes to its maps of
-- arms and of retired arms is under the backend of a registration or of an arm, so a slot holds what
-- the two maps have for that backend. The registration is a type with an equality test.
pub mod Exclusive
pub mod Flying
use llm_metrics_exporter.Base.{
  ℕ, ◌+◌, ◌-◌, ◌||◌, ◌≤◌, ◌<◌, ◌≡◌, refl, Bool, true, false, not, ◌&&◌, Option, none, some, arith,
  if◌then◌else◌, Bool-cases, inl, inr,
}
use llm_metrics_exporter.Collector.Lifecycle.{
  Life, IsSafe, fresh, close_arm, begin, finish, started, close_arm-IsSafe, begin-IsSafe,
  finish-IsSafe,
}

module _ (R : Type 0) (same_reg : R → R → Bool) where
  pub record Entry : Type 0 where
    pub reg : R
    pub life : Life

  pub record Slot : Type 0 where
    pub current : Option Entry
    pub retired : Option Entry

  unfoldable pub is_busy : Option Entry → Bool
  is_busy none = false
  is_busy (some e) = e.life.busy

  -- &arm{reg: r, closed: true}
  placeholder : R → Entry
  placeholder r = record { reg = r; life = record (fresh false) { closed = true } }

  unfoldable pub new_arm : R → Bool → Entry
  new_arm r has = record { reg = r; life = fresh has }

  -- The goroutine of a closed arm may end before sync looks at busy again.
  late_end : Bool → Life → Life
  late_end ends a = if a.busy && ends then finish a else a

  -- closeArm of the current arm and the second look at it: the arm, and the retired arms' entry.
  retire : Slot → Entry → Bool → Life × Option Entry
  unfolding late_end
  retire s old ends =
      let (life, retires) = close_arm old.life in
      let after = late_end ends life in
      (after, if retires then some (record { reg = old.reg; life = after }) else s.retired)

  restart : Slot → Entry → R → Bool → Bool → Slot
  unfolding placeholder new_arm retire
  restart s old r has ends =
      let (after, retired) = retire s old ends in
      record {
        current = some (if after.busy then placeholder r else new_arm r has);
        retired = retired;
      }

  unfoldable pub replace : Slot → Option Entry → R → Bool → Bool → Slot
  unfolding restart
  replace s none r has ends = record s { current = some (new_arm r has) }
  replace s (some old) r has ends =
      if same_reg old.reg r && not old.life.closed then s else restart s old r has ends

  -- The first loop: a retired arm that is idle is forgotten.
  pub purge : Slot → Slot
  unfolding is_busy
  purge s = if is_busy s.retired then s else record s { retired = none }

  -- The second loop's body, for a registration of this backend. `has` is whether the engine has an
  -- adapter and it starts.
  unfoldable pub register : Slot → R → Bool → Bool → Slot
  unfolding replace is_busy
  register s r has ends =
      if is_busy s.retired
      then record s { current = some (placeholder r) }
      else replace (record s { retired = none }) s.current r has ends

  -- The third loop, and Close: the backend is not registered any more.
  pub deregister : Slot → Slot
  unfolding retire
  deregister s = elim s.current [
    | none ↦ s
    | some old ↦ record { current = none; retired = (retire s old false).1 }
  ]

  -- The collections in flight of an arm that is closed, but for the case that it stays.
  abbrev closing : Option Entry → R → ℕ
  closing none r = 0
  closing (some old) r =
      if same_reg old.reg r && not old.life.closed then 0 else old.life.collecting

  -- The goroutines that end while register closes the current arm.
  abbrev pub ended_between : Slot → R → Bool → ℕ
  ended_between s r ends = if is_busy s.retired || not ends then 0 else closing s.current r

  -- What may happen to a backend's slot, in any order: the loops of sync, a collection of the current
  -- arm, and the end of a goroutine. The number counts the calls of Collect in flight on any adapter
  -- that the backend has ever had: one more with each start, one less with each end.
  pub data Reached : Slot → ℕ → Type 0 where
    nothing : Reached (record { current = none; retired = none }) 0
    purged : {s : Slot} {n : ℕ} → Reached s n → Reached (purge s) n
    registered :
        {s : Slot} {n : ℕ} (r : R) (has ends : Bool)
        → Reached s n
        → Reached (register s r has ends) (n - ended_between s r ends)
    deregistered : {s : Slot} {n : ℕ} → Reached s n → Reached (deregister s) n
    collected :
        {s : Slot} {n : ℕ} (e : Entry) (b : Life)
        → s.current ≡ some e
        → begin e.life ≡ started b
        → Reached s n
        → Reached (record s { current = some (record e { life = b }) }) (n + 1)
    current_ended :
        {s : Slot} {n : ℕ} (e : Entry)
        → s.current ≡ some e
        → 0 < e.life.collecting
        → Reached s n
        → Reached (record s { current = some (record e { life = finish e.life }) }) (n - 1)
    retired_ended :
        {s : Slot} {n : ℕ} (e : Entry)
        → s.retired ≡ some e
        → 0 < e.life.collecting
        → Reached s n
        → Reached (record s { retired = some (record e { life = finish e.life }) }) (n - 1)
