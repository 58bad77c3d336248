-- ===== src/Tail/Exact.antt =====
-- A log whose file grows, is replaced or is cut, and what its reader has called back of it at any
-- time: the relation, its invariant, and the loop of Read on the file that it finds ready.
use llm_metrics_exporter.Base.{
  ℕ, zero, suc, ◌≤◌, ◌<◌, ◌≡◌, ◌≢◌, ◌⊎◌, refl, sym, ap, subst, ◌∙◌, Bool, false, none, some, List,
  [], ◌∷◌, ◌++◌, append-nil, arith, Bytes, length, length-append, take, Bool-cases, inl, inr, ltb,
  not, ◌||◌, ◌==◌, Option-cases,
}
use llm_metrics_exporter.Tail.{
  Reader, Sys, LoopOut, Stop, finished, broken, stuck, buffer, read_loop, Opened, opened, refused,
  new, Error, read, replaced, scan, finish,
}
use llm_metrics_exporter.Tail.Lines.{complete, rest, accepted, owed}
use llm_metrics_exporter.Tail.Progress.{Serves, Tracks, read_loop-Advanced}

take-append_inside : (n : ℕ) (xs ys : Bytes) → n ≤ length xs → take n (xs ++ ys) ≡ take n xs
take-append_inside zero xs ys h = refl
take-append_inside (suc n) [] ys h = absurd (omega arith)
take-append_inside (suc n) (x ∷ xs) ys h = ap (◌∷◌ x) (take-append_inside n xs ys (omega arith))

pub take_all : (n : ℕ) (xs : Bytes) → length xs ≤ n → take n xs ≡ xs
take_all zero [] h = refl
take_all zero (x ∷ xs) h = absurd (omega arith)
take_all (suc n) [] h = refl
take_all (suc n) (x ∷ xs) h = ap (◌∷◌ x) (take_all n xs (omega arith))

-- A file that is not opened changes nothing.
pub read-refused :
    (r : Reader) (e : Error)
    → read r (refused e) ≡ record { error = some e; reader = r; reset = false; lines = [] }
unfolding read
read-refused r e = refl

-- What stands at the path when a call opens it, beside the file of before (an identity and its
-- bytes): that file, another one, or that file cut to less than the reader has read.
pub data Found (id : ℕ) (content : Bytes) (r : Reader) : ℕ → Bytes → Type 0 where
  kept : Found id content r id content
  moved : (id' : ℕ) (newer : Bytes) → id' ≢ id → Found id content r id' newer
  cut : (newer : Bytes) → length newer < r.offset → Found id content r id newer

-- The lines of the present file that were called back before.
abbrev pub kept_lines :
    {id id' : ℕ} {content content' : Bytes} {r : Reader}
    → Found id content r id' content'
    → List Bytes
    → List Bytes
kept_lines kept lines = lines
kept_lines (moved id' newer ne) lines = []
kept_lines (cut newer short) lines = []

-- The call opens that file.
pub record Holds (id : ℕ) (content : Bytes) (f : Opened) : Type 0 where
  pub serves : Serves content f.sys
  pub identity : f.id ≡ id
  pub sized : f.size ≡ length content

-- The file's identity and bytes, the reader, and the lines of this file that were called back.
pub data History (max_read max_line : ℕ) : ℕ → Bytes → Reader → List Bytes → Type 0 where
  begin :
      (id : ℕ) (content : Bytes) → History max_read max_line id content (new max_read max_line) []
  grow :
      {id : ℕ} {content : Bytes} {r : Reader} {lines : List Bytes} (extra : Bytes)
      → History max_read max_line id content r lines
      → History max_read max_line id (content ++ extra) r lines
  unopened :
      {id : ℕ} {content : Bytes} {r : Reader} {lines : List Bytes} (e : Error)
      → History max_read max_line id content r lines
      → History max_read max_line id content
          (read r (refused e)).reader
          (lines ++ (read r (refused e)).lines)
  called :
      {id id' : ℕ} {content content' : Bytes} {r : Reader} {lines : List Bytes} (f : Opened)
      → (at : Found id content r id' content') → Holds id' content' f
      → History max_read max_line id content r lines
      → History max_read max_line id' content'
          (read r (opened f)).reader
          (kept_lines at lines ++ (read r (opened f)).lines)

-- What every history keeps: the lines called back are those that the bytes read so far owe.
pub record IsExact (max_read max_line id : ℕ) (content : Bytes) (r : Reader) (lines : List Bytes)
    : Type 0 where
  pub tracks : Tracks content r
  pub delivered : lines ≡ owed max_line (take r.offset content)
  pub max_line_kept : r.max_line ≡ max_line
  pub max_read_kept : r.max_read ≡ max_read
  -- The reader is as it was made, or it knows the file.
  pub seen : (r ≡ new max_read max_line) ⊎ (r.info ≡ some id)

scan-reset : (f : Opened) (reset : Bool) (r : Reader) → (scan f reset r).reset ≡ reset
unfolding scan finish
scan-reset f reset r = ground arith

pub read-reset : (r : Reader) (f : Opened) → (read r (opened f)).reset ≡ replaced r f
unfolding read
read-reset r f = scan-reset f _ _

pub replaced-new : (max_read max_line : ℕ) (f : Opened) → replaced (new max_read max_line) f ≡ false
unfolding replaced new
replaced-new max_read max_line f = refl

-- A reader that knows the file takes it for replaced when its identity is another, or it is shorter.
pub replaced_known :
    (r : Reader) (f : Opened) (id : ℕ)
    → r.info ≡ some id
    → replaced r f ≡ (not (id == f.id) || ltb f.size r.offset)
unfolding replaced
replaced_known r f id e = rw e refl

Stop-cases : (s : Stop) → (s ≡ finished) ⊎ ((s ≡ broken) ⊎ (s ≡ stuck))
Stop-cases finished = inl refl
Stop-cases broken = inr (inl refl)
Stop-cases stuck = inr (inr refl)

pub backlog_zero :
    (r : Reader) (f : Opened) (n : ℕ)
    → f.latest ≡ some n
    → (read r (opened f)).error ≡ none
    → (read r (opened f)).reader.backlog ≡ 0
    → n ≤ (read r (opened f)).reader.offset
unfolding read scan finish
backlog_zero r f n size fine none_left = ground arith

module _ (max_read max_line : ℕ) (fits : buffer max_read ≤ max_line) where
  pub new-IsExact :
      (id : ℕ) (content : Bytes) → IsExact max_read max_line id content (new max_read max_line) []
  unfolding new complete rest accepted
  new-IsExact id content = record {
    tracks = record { inside = omega arith; pending = inl (refl, refl, omega arith) };
    delivered = refl;
    max_line_kept = refl;
    max_read_kept = refl;
    seen = inl refl;
  }

  pub grow-IsExact :
      (id : ℕ) (content extra : Bytes) (r : Reader) (lines : List Bytes)
      → IsExact max_read max_line id content r lines
      → IsExact max_read max_line id (content ++ extra) r lines
  grow-IsExact id content extra r lines h =
      let same = take-append_inside r.offset content extra h.tracks.inside in
      record {
        tracks = record {
          inside = omega (arith, length-append content extra, h.tracks.inside);
          pending = rw same h.tracks.pending;
        };
        delivered = rw same h.delivered;
        max_line_kept = h.max_line_kept;
        max_read_kept = h.max_read_kept;
        seen = h.seen;
      }

  -- A reader that knows its file: what a call has once it has opened it.
  pub record IsReady (id : ℕ) (content : Bytes) (r : Reader) (lines : List Bytes) : Type 0 where
    pub exact : IsExact max_read max_line id content r lines
    pub known : r.info ≡ some id

  -- The loop continues an exact history.
  loop-IsReady :
      (id : ℕ) (content : Bytes) (r : Reader) (lines : List Bytes) (sys : Sys)
      → Serves content sys
      → IsReady id content r lines
      → IsReady id content
          (read_loop sys (suc r.max_read) 0 0 r).reader
          (lines ++ (read_loop sys (suc r.max_read) 0 0 r).lines)
  loop-IsReady id content r lines sys serves ok =
      let h = ok.exact in
      let a =
        read_loop-Advanced content sys (suc r.max_read) 0 0 r serves h.tracks
          (rw (h.max_read_kept, h.max_line_kept) fits) in
      record {
        known = a.info ∙ ok.known;
        exact = record {
          tracks = a.tracks;
          delivered =
              ap (λ ls. ls ++ (read_loop sys (suc r.max_read) 0 0 r).lines) h.delivered
              ∙ sym (
                  subst
                    (λ m.
                      owed m (take (read_loop sys (suc r.max_read) 0 0 r).reader.offset content)
                      ≡ owed m (take r.offset content)
                        ++ (read_loop sys (suc r.max_read) 0 0 r).lines)
                    h.max_line_kept a.delivered);
          max_line_kept = a.max_line ∙ h.max_line_kept;
          max_read_kept = a.max_read ∙ h.max_read_kept;
          seen = inr (a.info ∙ ok.known);
        };
      }

  -- The rest of Read sets only the backlog.
  finish-IsExact :
      (id : ℕ) (content : Bytes) (lines : List Bytes) (f : Opened) (reset : Bool) (out : LoopOut)
      → IsReady id content out.reader (lines ++ out.lines)
      → IsExact max_read max_line id content
          (finish f reset out).reader
          (lines ++ (finish f reset out).lines)
  unfolding finish
  finish-IsExact id content lines f reset out h =
      let e = h.exact in
      let k = h.known in
      elim (Stop-cases out.stop) [
        | inl q ↦
            rw (q, finish)
              (elim (Option-cases f.latest) [
                | inl n ↦ rw (n, finish) e
                | inr (size, y) ↦
                    rw (y, finish)
                      (record {
                        tracks = record { inside = e.tracks.inside; pending = e.tracks.pending };
                        delivered = e.delivered;
                        max_line_kept = e.max_line_kept;
                        max_read_kept = e.max_read_kept;
                        seen = inr k;
                      })
              ])
        | inr (inl q) ↦ rw (q, finish) e
        | inr (inr q) ↦ rw (q, finish) e
      ]

  -- Read continues an exact history of the file that it finds ready.
  pub scan-IsExact :
      (id : ℕ) (content : Bytes) (r : Reader) (lines : List Bytes) (f : Opened) (reset : Bool)
      → Serves content f.sys
      → IsReady id content r lines
      → IsExact max_read max_line id content
          (scan f reset r).reader
          (lines ++ (scan f reset r).lines)
  unfolding scan finish
  scan-IsExact id content r lines f reset serves h = elim (Bool-cases f.seeks) [
    | inl ok ↦
        rw (ok, scan)
          (finish-IsExact id content lines f reset _
            (loop-IsReady id content r lines f.sys serves h))
    | inr bad ↦ rw (bad, scan, append-nil) h.exact
  ]
