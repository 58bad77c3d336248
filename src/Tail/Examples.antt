-- ===== src/Tail/Examples.antt =====
-- The reader on small logs, and the theorems of Tail at these inputs.
use llm_metrics_exporter.Base.{
  ℕ, zero, suc, ◌≡◌, refl, ap, true, some, List, [], ◌∷◌, ◌++◌, arith, Bytes, length, length-take,
  take, drop,
}
use mathlib.Core.List.{flatten}
use llm_metrics_exporter.Tail.{
  Reader, Sys, SysRead, got, eof, Opened, opened, stuck, new, feed, feed_loop, end_line, index_byte,
  keep, trim_cr, read, read_loop, ready, replaced, scan, finish,
}
use llm_metrics_exporter.Tail.Lines.{complete, accepted, owed}
use llm_metrics_exporter.Tail.Feed.{feed_all, feed_all-owed}
use llm_metrics_exporter.Tail.Progress.{Serves, IsPiece, read_loop-ne-stuck}
use llm_metrics_exporter.Tail.Exact.{Found, kept, moved, Holds, History, IsExact, begin, called}
use llm_metrics_exporter.Tail.History.{History-IsExact, caught_up}

-- "ab\r\nlonger than eight\ncd\ne", cut inside lines.
abbrev cuts : List Bytes
cuts =
    (97 ∷ 98 ∷ [])
    ∷ (13 ∷ 10 ∷ 49 ∷ 50 ∷ 51 ∷ 52 ∷ [])
    ∷ (53 ∷ 54 ∷ 55 ∷ 56 ∷ 57 ∷ [])
    ∷ (10 ∷ 99 ∷ 100 ∷ 10 ∷ 101 ∷ [])
    ∷ []

cuts_lines : (feed_all (new 64 8) cuts).1 ≡ (97 ∷ 98 ∷ []) ∷ (99 ∷ 100 ∷ []) ∷ []
unfolding feed_all feed feed_loop end_line index_byte keep trim_cr new
cuts_lines = refl

feed_all-owed_example : (feed_all (new 64 8) cuts).1 ≡ accepted 8 (complete [] (flatten cuts))
feed_all-owed_example = feed_all-owed 64 8 cuts (omega arith)

-- A read that returns what is there, up to the limit.
abbrev pub serve : ℕ → Bytes → SysRead
serve zero bs = eof
serve (suc n) [] = eof
serve (suc n) (b ∷ bs) = got (b ∷ take n bs)

abbrev pub file : Bytes → Sys
file content k off lim = serve lim (drop off content)

take-length-take : (n : ℕ) (xs : Bytes) → take n xs ≡ take (length (take n xs)) xs
take-length-take zero xs = refl
take-length-take (suc n) [] = refl
take-length-take (suc n) (x ∷ xs) = ap (◌∷◌ x) (take-length-take n xs)

serve-IsPiece :
    (content : Bytes) (off lim : ℕ) (bs : Bytes)
    → bs ≡ drop off content
    → IsPiece content off lim (serve lim bs)
serve-IsPiece content off zero bs e = tt
serve-IsPiece content off (suc n) [] e = tt
serve-IsPiece content off (suc n) (b ∷ bs) e =
    (omega arith, omega (arith, length-take n bs), rw (← e) (ap (◌∷◌ b) (take-length-take n bs)))

pub file-Serves : (content : Bytes) → Serves content (file content)
file-Serves content k off lim = serve-IsPiece content off lim (drop off content) refl

abbrev log : Bytes
log = 97 ∷ 98 ∷ 10 ∷ 99 ∷ []

abbrev log_file : Opened
log_file = record { id = 7; size = 4; seeks = true; sys = file log; latest = some 4 }

abbrev tail : Reader
tail = new 16 16

read_loop-ne-stuck_example : (read_loop (file log) 17 0 0 tail).stop ≡ stuck → ⊥
unfolding new
read_loop-ne-stuck_example =
    read_loop-ne-stuck log (file log) 17 0 0 tail (file-Serves log) (omega arith) (omega arith)

log-Holds : Holds 7 log log_file
log-Holds = record { serves = file-Serves log; identity = refl; sized = refl }

first_read :
    History 16 16 7 log
      (read tail (opened log_file)).reader
      ([] ++ (read tail (opened log_file)).lines)
first_read = called log_file kept log-Holds (begin 7 log)

-- The log is replaced by a longer file of another identity: only the identity tells.
abbrev newer : Bytes
newer = 120 ∷ 10 ∷ 121 ∷ 10 ∷ 122 ∷ 10 ∷ []

abbrev newer_file : Opened
newer_file = record { id = 8; size = 6; seeks = true; sys = file newer; latest = some 6 }

newer-Holds : Holds 8 newer newer_file
newer-Holds = record { serves = file-Serves newer; identity = refl; sized = refl }

abbrev first : Reader
first = (read tail (opened log_file)).reader

other_id : (id : ℕ) → id ≡ 8 → id ≡ 7 → ⊥
other_id id e q = absurd (omega (arith, e, q))

rotated : Found 7 log first 8 newer
rotated = moved 8 newer (other_id 8 refl)

History-IsExact_example :
    IsExact 16 16 8 newer
      (read first (opened newer_file)).reader
      ([] ++ (read first (opened newer_file)).lines)
unfolding rotated
History-IsExact_example =
    History-IsExact 16 16 (omega arith) (called newer_file rotated newer-Holds first_read)

caught_up_example : [] ++ (read first (opened newer_file)).lines ≡ owed 16 newer
unfolding read ready replaced scan finish read_loop new feed feed_loop end_line index_byte keep
    trim_cr rotated
caught_up_example =
    caught_up 16 16 (omega arith) newer_file rotated newer-Holds first_read refl refl refl
