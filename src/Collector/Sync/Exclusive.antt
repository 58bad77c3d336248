-- ===== src/Collector/Sync/Exclusive.antt =====
-- One backend's adapters over every interleaving of scrapes, collections and late goroutines.
use mathlib.Core.Bool.{true≢false}
use llm_metrics_exporter.Base.{
  ℕ, ◌<◌, ◌≡◌, refl, sym, ap, subst, ◌∙◌, Bool, true, false, not, ◌&&◌, Option, none, some,
  Bool-cases, Option-cases, inl, inr,
}
use llm_metrics_exporter.Collector.Lifecycle.{
  Life, IsSafe, fresh, close_arm, begin, finish, started, close_arm-IsSafe, begin-IsSafe,
  finish-IsSafe, safe, fresh-IsSafe, begin-Running,
}
use llm_metrics_exporter.Collector.Lifecycle.Closing.{
  IsOpen, close_arm-Closing, in_flight, finish_closed, finish-IsOpen, finish-Bare, finish_idle,
}
use llm_metrics_exporter.Collector.Sync.{
  Entry, Slot, is_busy, placeholder, new_arm, late_end, retire, restart, replace, purge, register,
  deregister, Reached, nothing, purged, registered, deregistered, collected, current_ended,
  retired_ended,
}

module _ (R : Type 0) (same_reg : R → R → Bool) where
  abbrev pub CurrentSafe : Option (Entry R same_reg) → Type 0
  CurrentSafe none = Unit
  CurrentSafe (some e) = IsSafe e.life × IsOpen e.life

  abbrev pub RetiredSafe : Option (Entry R same_reg) → Type 0
  RetiredSafe none = Unit
  RetiredSafe (some e) = IsSafe e.life × (e.life.closed ≡ true)

  abbrev pub Bare : Option (Entry R same_reg) → Type 0
  Bare none = Unit
  Bare (some e) = e.life.has_adapter ≡ false

  -- Each adapter is safe on its own, and while a retired one collects the backend has no other.
  pub record IsExclusive (s : Slot R same_reg) : Type 0 where
    pub current_safe : CurrentSafe s.current
    pub retired_safe : RetiredSafe s.retired
    pub alone : is_busy R same_reg s.retired ≡ true → Bare s.current

  placeholder-Safe : (r : R) → CurrentSafe (some (placeholder R same_reg r))
  unfolding placeholder fresh
  placeholder-Safe r = (safe _ (refl, refl, λ t. absurd (true≢false (sym t))), λ t. refl)

  placeholder-Bare : (r : R) → Bare (some (placeholder R same_reg r))
  unfolding placeholder fresh
  placeholder-Bare r = refl

  new_arm-Safe : (r : R) (has : Bool) → CurrentSafe (some (new_arm R same_reg r has))
  unfolding new_arm fresh
  new_arm-Safe r has = (fresh-IsSafe has, λ t. absurd (true≢false (sym t)))

  -- What a retirement leaves: nothing new, or an arm that is closed.
  record Retirement (s : Slot R same_reg) (old : Entry R same_reg) (ends : Bool) : Type 0 where
    safe_retired : RetiredSafe (retire R same_reg s old ends).1
    only_busy :
        is_busy R same_reg (retire R same_reg s old ends).1 ≡ (retire R same_reg s old ends).0.busy

  retire-Retirement :
      (s : Slot R same_reg) (old : Entry R same_reg) (ends : Bool)
      → s.retired ≡ none
      → CurrentSafe (some old)
      → Retirement s old ends
  unfolding retire late_end is_busy finish
  retire-Retirement s old ends none_left h =
      let c = close_arm-Closing old.life h.0 h.1 in
      let b = (close_arm old.life).0 in
      let b_safe = close_arm-IsSafe old.life h.0 in
      elim (Bool-cases b.busy) [
        | inr idle ↦ record {
          safe_retired = rw (c.retires, idle, none_left) tt;
          only_busy = rw (c.retires, idle, none_left) (sym idle);
        }
        | inl busy ↦ elim (Bool-cases ends) [
          | inl e ↦ record {
            safe_retired =
                rw (c.retires, busy, e)
                  (finish-IsSafe b b_safe (in_flight b b_safe busy), c.closed);
            only_busy = rw (c.retires, busy, e) refl;
          }
          | inr n ↦ record {
            safe_retired = rw (c.retires, busy, n) (b_safe, c.closed);
            only_busy = rw (c.retires, busy, n) refl;
          }
        ]
      ]

  restart-IsExclusive :
      (s : Slot R same_reg) (old : Entry R same_reg) (r : R) (has ends : Bool)
      → s.retired ≡ none
      → CurrentSafe (some old)
      → IsExclusive (restart R same_reg s old r has ends)
  unfolding restart
  restart-IsExclusive s old r has ends none_left h =
      let left = retire-Retirement s old ends none_left h in
      elim (Bool-cases (retire R same_reg s old ends).0.busy) [
        | inl busy ↦ record {
          current_safe = rw busy (placeholder-Safe r);
          retired_safe = left.safe_retired;
          alone = λ t. rw busy (placeholder-Bare r);
        }
        | inr idle ↦ record {
          current_safe = rw idle (new_arm-Safe r has);
          retired_safe = left.safe_retired;
          alone = λ t. absurd (true≢false (sym t ∙ left.only_busy ∙ idle));
        }
      ]

  replace-IsExclusive :
      (s : Slot R same_reg) (o : Option (Entry R same_reg)) (r : R) (has ends : Bool)
      → s.retired ≡ none
      → s.current ≡ o
      → CurrentSafe o
      → IsExclusive (replace R same_reg s o r has ends)
  unfolding replace is_busy
  replace-IsExclusive s none r has ends none_left e h = record {
    current_safe = new_arm-Safe r has;
    retired_safe = rw none_left tt;
    alone = λ t. absurd (true≢false (sym t ∙ ap (is_busy R same_reg) none_left));
  }
  replace-IsExclusive s (some old) r has ends none_left e h =
      elim (Bool-cases (same_reg old.reg r && not old.life.closed)) [
        | inl same ↦ rw same (record {
          current_safe = rw e h;
          retired_safe = rw none_left tt;
          alone = λ t. absurd (true≢false (sym t ∙ ap (is_busy R same_reg) none_left));
        })
        | inr other ↦ rw other (restart-IsExclusive s old r has ends none_left h)
      ]

  register-IsExclusive :
      (s : Slot R same_reg) (r : R) (has ends : Bool)
      → IsExclusive s
      → IsExclusive (register R same_reg s r has ends)
  unfolding register
  register-IsExclusive s r has ends h = elim (Bool-cases (is_busy R same_reg s.retired)) [
    | inl busy ↦ rw busy (record {
      current_safe = placeholder-Safe r;
      retired_safe = h.retired_safe;
      alone = λ t. placeholder-Bare r;
    })
    | inr idle ↦ rw idle (
        replace-IsExclusive (record s { retired = none }) s.current r has ends refl refl
          h.current_safe)
  ]

  purge-IsExclusive : (s : Slot R same_reg) → IsExclusive s → IsExclusive (purge R same_reg s)
  unfolding purge is_busy
  purge-IsExclusive s h = elim (Bool-cases (is_busy R same_reg s.retired)) [
    | inl busy ↦ rw (busy, purge) h
    | inr idle ↦
        rw (idle, purge)
          (record {
            current_safe = h.current_safe;
            retired_safe = tt;
            alone = λ t. absurd (true≢false (sym t));
          })
  ]

  retire-RetiredSafe :
      (s : Slot R same_reg) (old : Entry R same_reg)
      → RetiredSafe s.retired
      → CurrentSafe (some old)
      → RetiredSafe (retire R same_reg s old false).1
  unfolding retire late_end
  retire-RetiredSafe s old k h =
      let c = close_arm-Closing old.life h.0 h.1 in
      let b_safe = close_arm-IsSafe old.life h.0 in
      elim (Bool-cases (close_arm old.life).0.busy) [
        | inl busy ↦ rw (c.retires, busy) (b_safe, c.closed)
        | inr idle ↦ rw (c.retires, idle) k
      ]

  deregister-IsExclusive :
      (s : Slot R same_reg) → IsExclusive s → IsExclusive (deregister R same_reg s)
  unfolding deregister
  deregister-IsExclusive s h = elim (Option-cases s.current) [
    | inl n ↦ rw (n, deregister) h
    | inr (old, e) ↦
        rw (e, deregister)
          (record {
            current_safe = tt;
            retired_safe =
                retire-RetiredSafe s old h.retired_safe (subst CurrentSafe e h.current_safe);
            alone = λ t. tt;
          })
  ]

  collected-IsExclusive :
      (s : Slot R same_reg) (e : Entry R same_reg) (b : Life)
      → s.current ≡ some e
      → begin e.life ≡ started b
      → IsExclusive s
      → IsExclusive (record s { current = some (record e { life = b }) })
  collected-IsExclusive s e b c g h =
      let cur = subst CurrentSafe c h.current_safe in
      let runs = begin-Running e.life b g in
      record {
        current_safe = (begin-IsSafe e.life b cur.0 g, λ t. absurd (true≢false (sym t ∙ runs.0)));
        retired_safe = h.retired_safe;
        alone = λ t. absurd (true≢false (sym runs.1 ∙ subst Bare c (h.alone t)));
      }

  current_ended-IsExclusive :
      (s : Slot R same_reg) (e : Entry R same_reg)
      → s.current ≡ some e
      → 0 < e.life.collecting
      → IsExclusive s
      → IsExclusive (record s { current = some (record e { life = finish e.life }) })
  current_ended-IsExclusive s e c pos h =
      let cur = subst CurrentSafe c h.current_safe in
      record {
        current_safe = (finish-IsSafe e.life cur.0 pos, finish-IsOpen e.life cur.1);
        retired_safe = h.retired_safe;
        alone = λ t. finish-Bare e.life (subst Bare c (h.alone t));
      }

  retired_ended-IsExclusive :
      (s : Slot R same_reg) (e : Entry R same_reg)
      → s.retired ≡ some e
      → 0 < e.life.collecting
      → IsExclusive s
      → IsExclusive (record s { retired = some (record e { life = finish e.life }) })
  unfolding is_busy
  retired_ended-IsExclusive s e c pos h =
      let ret = subst RetiredSafe c h.retired_safe in
      record {
        current_safe = h.current_safe;
        retired_safe = (finish-IsSafe e.life ret.0 pos, finish_closed e.life ∙ ret.1);
        alone = λ t. absurd (true≢false (sym t ∙ finish_idle e.life));
      }

  -- Each adapter is safe, and a retired one that collects is the only one, over every interleaving.
  pub slot-IsExclusive : {s : Slot R same_reg} {n : ℕ} → Reached R same_reg s n → IsExclusive s
  slot-IsExclusive nothing = record { current_safe = tt; retired_safe = tt; alone = λ t. tt }
  slot-IsExclusive (purged r) = purge-IsExclusive _ (slot-IsExclusive r)
  slot-IsExclusive (registered q has ends r) =
      register-IsExclusive _ q has ends (slot-IsExclusive r)
  slot-IsExclusive (deregistered r) = deregister-IsExclusive _ (slot-IsExclusive r)
  slot-IsExclusive (collected e b c g r) = collected-IsExclusive _ e b c g (slot-IsExclusive r)
  slot-IsExclusive (current_ended e c pos r) =
      current_ended-IsExclusive _ e c pos (slot-IsExclusive r)
  slot-IsExclusive (retired_ended e c pos r) =
      retired_ended-IsExclusive _ e c pos (slot-IsExclusive r)
