-- ===== src/Tail/Counting.antt =====
-- A count over the lines that internal/tail/tail.go calls back, which starts again when the log is
-- replaced.
use mathlib.Core.List.{foldl, foldl-append}
use llm_metrics_exporter.Base.{
  ℕ, ◌≤◌, ◌≡◌, refl, ap, ◌∙◌, inl, inr, sym, List, [], ◌++◌, append-nil, Bytes, length, take, none,
  some, if◌then◌else◌,
}
use llm_metrics_exporter.Tail.{Reader, Output, Opened, opened, refused, new, Error, read, buffer}
use llm_metrics_exporter.Tail.Lines.{owed}
use llm_metrics_exporter.Tail.Exact.{
  Found, Holds, kept_lines, History, begin, grow, unopened, called, read-refused,
}
use llm_metrics_exporter.Tail.History.{History-IsExact, History-reset, caught_up}

module _ {S : Type 0} (zero : S) (count : S → Bytes → S) (max_read max_line : ℕ) where
  -- The count after a call of Read; the reset comes before the lines.
  abbrev pub counts : Output → S → S
  counts out s = foldl count (if out.reset then zero else s) out.lines

  -- The file's identity and bytes, its reader, and the count.
  pub data Life : ℕ → Bytes → Reader → S → Type 0 where
    born : (id : ℕ) (content : Bytes) → Life id content (new max_read max_line) zero
    grown :
        {id : ℕ} {content : Bytes} {r : Reader} {s : S} (extra : Bytes)
        → Life id content r s
        → Life id (content ++ extra) r s
    missed :
        {id : ℕ} {content : Bytes} {r : Reader} {s : S} (e : Error)
        → Life id content r s
        → Life id content (read r (refused e)).reader (counts (read r (refused e)) s)
    polled :
        {id id' : ℕ} {content content' : Bytes} {r : Reader} {s : S} (f : Opened)
        → Found id content r id' content'
        → Holds id' content' f
        → Life id content r s
        → Life id' content' (read r (opened f)).reader (counts (read r (opened f)) s)

  -- A reader's history whose lines are the ones counted.
  pub record Counted (id : ℕ) (content : Bytes) (r : Reader) (s : S) : Type 0 where
    pub lines : List Bytes
    pub history : History max_read max_line id content r lines
    pub counted : s ≡ foldl count zero lines

  -- The count after a call is one over the present file's lines: the reset drops the others.
  continued :
      {id id' : ℕ} {content content' : Bytes} {r : Reader} {s : S} (f : Opened)
      → buffer max_read ≤ max_line
      → (at : Found id content r id' content') → Holds id' content' f
      → (c : Counted id content r s)
      → counts (read r (opened f)) s
        ≡ foldl count zero (kept_lines at c.lines ++ (read r (opened f)).lines)
  continued {r = r} {s = s} f fits at o c =
      let out = read r (opened f) in
      elim (History-reset max_read max_line fits f at o c.history) [
        | inl (same, before) ↦
            ap (λ b. foldl count (if b then zero else s) out.lines) same
            ∙ ap (λ t. foldl count t out.lines) (c.counted ∙ ap (foldl count zero) (sym before))
            ∙ rw foldl-append
        | inr (fresh, before) ↦
            ap (λ b. foldl count (if b then zero else s) out.lines) fresh
            ∙ ap (λ ls. foldl count zero (ls ++ out.lines)) (sym before)
      ]

  pub Life-Counted :
      {id : ℕ} {content : Bytes} {r : Reader} {s : S}
      → buffer max_read ≤ max_line
      → Life id content r s
      → Counted id content r s
  Life-Counted fits (born id content) = record {
    lines = [];
    history = begin id content;
    counted = refl;
  }
  Life-Counted fits (grown extra h) =
      let c = Life-Counted fits h in
      record { lines = c.lines; history = grow extra c.history; counted = c.counted }
  Life-Counted fits (missed {r = r} e h) =
      let c = Life-Counted fits h in
      record {
        lines = _;
        history = unopened e c.history;
        counted = rw (read-refused r e, append-nil) c.counted;
      }
  Life-Counted fits (polled f at o h) =
      let c = Life-Counted fits h in
      record { lines = _; history = called f at o c.history; counted = continued f fits at o c }

  pub Life-count :
      {id : ℕ} {content : Bytes} {r : Reader} {s : S}
      → buffer max_read ≤ max_line
      → Life id content r s
      → s ≡ foldl count zero (owed max_line (take r.offset content))
  Life-count fits h =
      let c = Life-Counted fits h in
      c.counted ∙ ap (foldl count zero) (History-IsExact max_read max_line fits c.history).delivered

  -- A call without error that leaves no backlog has counted the whole file.
  pub Life-caught_up :
      {id id' : ℕ} {content content' : Bytes} {r : Reader} {s : S} (f : Opened)
      → buffer max_read ≤ max_line
      → Found id content r id' content'
      → Holds id' content' f
      → Life id content r s
      → f.latest ≡ some (length content')
      → (read r (opened f)).error ≡ none
      → (read r (opened f)).reader.backlog ≡ 0
      → counts (read r (opened f)) s ≡ foldl count zero (owed max_line content')
  Life-caught_up f fits at o h size fine level =
      let c = Life-Counted fits h in
      continued f fits at o c
      ∙ ap (foldl count zero) (caught_up max_read max_line fits f at o c.history size fine level)
