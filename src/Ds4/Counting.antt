-- ===== src/Ds4/Counting.antt =====
-- The totals of internal/adapter/ds4/ds4.go over the life of a log.
use mathlib.Core.List.{foldl}
use llm_metrics_exporter.Base.{ℕ, ◌≡◌, true, false, List, ◌++◌, Bytes, arith, take}
use llm_metrics_exporter.Base.Floats.{Floats}
use llm_metrics_exporter.Tail
use llm_metrics_exporter.Tail.Counting
use llm_metrics_exporter.Tail.{Error, Open, Opened, opened, refused}
use llm_metrics_exporter.Tail.Lines.{owed}
use llm_metrics_exporter.Tail.Exact.{Found, Holds}
use llm_metrics_exporter.Ds4.{Adapter, Totals, zero_totals, on_line, start, collect}

-- A count of all lines at once.
abbrev pub tally : List Bytes → Totals
tally = foldl on_line zero_totals

module _ (fl : Floats) (max_read : ℕ) where
  -- The file's identity and bytes, and the adapter, over growth, rotation, truncation, failed probes
  -- and failed reads.
  pub data Life : ℕ → Bytes → Adapter → Type 0 where
    born : (id : ℕ) (content : Bytes) → Life id content (start max_read)
    grown :
        {id : ℕ} {content : Bytes} {a : Adapter} (extra : Bytes)
        → Life id content a
        → Life id (content ++ extra) a
    down :
        {id : ℕ} {content : Bytes} {a : Adapter} (o : Open)
        → Life id content a
        → Life id content (collect fl a false o).1
    missed :
        {id : ℕ} {content : Bytes} {a : Adapter} (e : Error)
        → Life id content a
        → Life id content (collect fl a true (refused e)).1
    polled :
        {id id' : ℕ} {content content' : Bytes} {a : Adapter} (f : Opened)
        → Found id content a.tail id' content'
        → Holds id' content' f
        → Life id content a
        → Life id' content' (collect fl a true (opened f)).1

  -- The reader and the count, without the engine.
  log_life :
      {id : ℕ} {content : Bytes} {a : Adapter}
      → Life id content a
      → Counting.Life zero_totals on_line max_read 65536 id content a.tail a.totals
  unfolding start collect
  log_life (born id content) = Counting.born id content
  log_life (grown extra h) = Counting.grown extra (log_life h)
  log_life (down o h) = log_life h
  log_life (missed e h) = Counting.missed e (log_life h)
  log_life (polled f at o h) = Counting.polled f at o (log_life h)

  -- Whatever the collections met (a dead engine, a missing log, short reads, a read error, growth,
  -- rotation to a file of another identity, truncation to less than was read), the running totals are those of one count over the complete lines, of at most
  -- 65536 bytes, in the part of the present file that has been read.
  pub Life-totals :
      {id : ℕ} {content : Bytes} {a : Adapter}
      → Life id content a
      → a.totals ≡ tally (owed 65536 (take a.tail.offset content))
  Life-totals h = Counting.Life-count zero_totals on_line max_read 65536 (omega arith) (log_life h)
