-- ===== src/Tail/History.antt =====
-- A reader over the life of its log: the file grows, calls of Read fail or succeed at any point,
-- and the file is replaced or cut.
use llm_metrics_exporter.Base.{
  ℕ, ◌≤◌, ◌≡◌, ◌⊎◌, refl, sym, ap, subst, ◌∙◌, Bool, true, false, none, some, List, [], ◌++◌,
  append-nil, arith, Bytes, length, take, inl, inr,
}
use llm_metrics_exporter.Tail.{Reader, buffer, Opened, opened, new, read, replaced, ready}
use llm_metrics_exporter.Tail.Lines.{complete, rest, accepted, owed}
use llm_metrics_exporter.Tail.Exact.{
  Found, kept, moved, cut, kept_lines, Holds, History, begin, grow, unopened, called, IsExact,
  IsReady, read-reset, replaced-new, replaced_known, backlog_zero, take_all, new-IsExact,
  grow-IsExact, scan-IsExact,
}

module _ (max_read max_line : ℕ) (fits : buffer max_read ≤ max_line) where
  -- A call that finds the reader's own file keeps what it has; any other starts again.
  ready_kept :
      (id : ℕ) (content : Bytes) (r : Reader) (lines : List Bytes) (f : Opened)
      → f.id ≡ id
      → replaced r f ≡ false
      → IsExact max_read max_line id content r lines
      → IsReady max_read max_line fits id content (ready r f) lines
  unfolding ready
  ready_kept id content r lines f same e h = rw e (record {
    exact = record {
      tracks = record { inside = h.tracks.inside; pending = h.tracks.pending };
      delivered = h.delivered;
      max_line_kept = h.max_line_kept;
      max_read_kept = h.max_read_kept;
      seen = inr (ap some same);
    };
    known = ap some same;
  })

  ready_other :
      (id : ℕ) (newer : Bytes) (r : Reader) (f : Opened)
      → f.id ≡ id
      → replaced r f ≡ true
      → r.max_line ≡ max_line
      → r.max_read ≡ max_read
      → IsReady max_read max_line fits id newer (ready r f) []
  unfolding ready complete rest accepted
  ready_other id newer r f same e l m = rw e (record {
    exact = record {
      tracks = record { inside = omega arith; pending = inl (refl, refl, omega arith) };
      delivered = refl;
      max_line_kept = l;
      max_read_kept = m;
      seen = inr (ap some same);
    };
    known = ap some same;
  })

  -- The reader tells the three cases apart: it says that the file is another exactly when the lines
  -- called back before are to be forgotten.
  abbrev Told : Bool → Reader → ℕ → Bytes → List Bytes → List Bytes → Type 0
  Told reset r id' content' lines before =
      ((reset ≡ false) × (before ≡ lines) × IsExact max_read max_line id' content' r before)
      ⊎ ((reset ≡ true) × (before ≡ []))

  told_new :
      (id : ℕ) (content : Bytes) (lines : List Bytes) (r : Reader)
      → IsExact max_read max_line id content r lines
      → r ≡ new max_read max_line
      → lines ≡ []
  unfolding new complete rest accepted
  told_new id content lines r h e = h.delivered ∙ ap (λ s. owed max_line (take s.offset content)) e

  told :
      {id id' : ℕ} {content content' : Bytes} {r : Reader} {lines : List Bytes} (f : Opened)
      (at : Found id content r id' content')
      → Holds id' content' f
      → IsExact max_read max_line id content r lines
      → Told (replaced r f) r id' content' lines (kept_lines at lines)
  unfolding new
  told {id} {r = r} f kept o h = elim h.seen [
    | inl e ↦ inl (subst (λ s. replaced s f ≡ false) (sym e) (replaced-new _ _ f), refl, h)
    | inr e ↦
        inl
          (replaced_known r f id e ∙ ground (arith, o.identity, o.sized, h.tracks.inside), refl, h)
  ]
  told {id} {content = content} {r = r} {lines = lines} f (moved id' newer ne) o h = elim h.seen [
    | inl e ↦ inl (
      subst (λ s. replaced s f ≡ false) (sym e) (replaced-new _ _ f),
      sym (told_new id content lines r h e),
      subst (λ s. IsExact max_read max_line id' newer s []) (sym e)
          (new-IsExact max_read max_line fits id' newer),
    )
    | inr e ↦ inr (replaced_known r f id e ∙ ground (arith, o.identity, ne), refl)
  ]
  told {id} {r = r} f (cut newer short) o h = elim h.seen [
    | inl e ↦ absurd (omega (arith, short, ap (λ s. s.offset) e))
    | inr e ↦ inr (replaced_known r f id e ∙ ground (arith, o.sized, short), refl)
  ]

  ready_found :
      {id id' : ℕ} {content content' : Bytes} {r : Reader} {lines : List Bytes} (f : Opened)
      (at : Found id content r id' content')
      → Holds id' content' f
      → IsExact max_read max_line id content r lines
      → IsReady max_read max_line fits id' content' (ready r f) (kept_lines at lines)
  ready_found {id' = id'} {content' = content'} {r = r} f at o h = elim (told f at o h) [
    | inl (e, b, x) ↦ ready_kept id' content' r _ f o.identity e x
    | inr (t, b) ↦
        subst (λ ls. IsReady max_read max_line fits id' content' (ready r f) ls) (sym b)
          (ready_other id' content' r f o.identity t h.max_line_kept h.max_read_kept)
  ]

  -- Over the whole life of a log, through growth, failed calls, short reads and replacements (by a
  -- file of another identity, or by cutting the file to less than the reader has read), the lines of
  -- the present file that were called back are exactly those that its bytes up to the reader's
  -- offset owe, the offset lies in the file, and a reader that is not new knows the file. The read
  -- buffer may not be longer than the line limit.
  pub History-IsExact :
      {id : ℕ} {content : Bytes} {r : Reader} {lines : List Bytes}
      → History max_read max_line id content r lines
      → IsExact max_read max_line id content r lines
  unfolding read
  History-IsExact (begin id content) = new-IsExact max_read max_line fits id content
  History-IsExact (grow extra h) =
      grow-IsExact max_read max_line fits _ _ extra _ _ (History-IsExact h)
  History-IsExact (unopened e h) = rw append-nil (History-IsExact h)
  History-IsExact (called f at o h) =
      scan-IsExact max_read max_line fits _ _ _ _ f _ o.serves
        (ready_found f at o (History-IsExact h))

  -- Read tells of a replacement exactly when the lines of before are of another file; a reset that
  -- it does not tell of has nothing to forget.
  pub History-reset :
      {id id' : ℕ} {content content' : Bytes} {r : Reader} {lines : List Bytes} (f : Opened)
      (at : Found id content r id' content')
      → Holds id' content' f
      → History max_read max_line id content r lines
      → (((read r (opened f)).reset ≡ false) × (kept_lines at lines ≡ lines))
        ⊎ (((read r (opened f)).reset ≡ true) × (kept_lines at lines ≡ []))
  History-reset {r = r} f at o h = elim (told f at o (History-IsExact h)) [
    | inl (e, b, x) ↦ inl (read-reset r f ∙ e, b)
    | inr (t, b) ↦ inr (read-reset r f ∙ t, b)
  ]

  -- A call that succeeds with no backlog, on whatever file it finds (that of before, one of
  -- another identity, or that of before cut to less than the reader has read), when the last size
  -- is that of the file, has delivered every complete line of the file that is within the limit,
  -- with the calls before it on that file. The read buffer may not be longer than the line limit.
  pub caught_up :
      {id id' : ℕ} {content content' : Bytes} {r : Reader} {lines : List Bytes} (f : Opened)
      (at : Found id content r id' content')
      → Holds id' content' f
      → History max_read max_line id content r lines
      → f.latest ≡ some (length content')
      → (read r (opened f)).error ≡ none
      → (read r (opened f)).reader.backlog ≡ 0
      → kept_lines at lines ++ (read r (opened f)).lines ≡ owed max_line content'
  caught_up {content' = content'} {r = r} f at o h size fine none_left =
      let exact = History-IsExact (called f at o h) in
      exact.delivered
      ∙ ap (owed max_line) (
          take_all (read r (opened f)).reader.offset content'
            (backlog_zero r f (length content') size fine none_left))
