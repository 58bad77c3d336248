-- ===== src/Tail/Progress.antt =====
-- The loop of Read: it ends, and it delivers what the bytes between two positions owe.
use llm_metrics_exporter.Base.{
  ℕ, zero, suc, ◌+◌, ◌-◌, ◌≤◌, ◌<◌, ◌≡◌, ◌≢◌, refl, sym, ap, subst, ◌∙◌, min, List, [], ◌++◌,
  append_assoc, append-nil, arith, Bytes, length, length-take, length-drop, take, drop, take-add,
  ltb, Bool-cases, inl, inr, ◌⊎◌,
}
use llm_metrics_exporter.Tail.{
  Reader, Sys, SysRead, got, eof, failed, stuck, buffer, feed, read_loop,
}
use llm_metrics_exporter.Tail.Lines.{rest, owed, accepted-append, complete-append, rest-append}
use llm_metrics_exporter.Tail.Feed.{Pending, Fed, feed-Fed, feed-SameFile}

-- A read returns bytes of the file at the offset, at least one and no more than asked for.
abbrev pub IsPiece : Bytes → ℕ → ℕ → SysRead → Type 0
IsPiece content off lim (got c) =
    (0 < length c) × (length c ≤ lim) × (c ≡ take (length c) (drop off content))
IsPiece content off lim eof = Unit
IsPiece content off lim failed = Unit

pub SysRead-cases : (s : SysRead) → (s ≡ eof) ⊎ ((s ≡ failed) ⊎ ((c : Bytes) × (s ≡ got c)))
SysRead-cases eof = inl refl
SysRead-cases failed = inr (inl refl)
SysRead-cases (got c) = inr (inr (c, refl))

-- Every read of the call does.
abbrev pub Serves : Bytes → Sys → Type 0
Serves content sys = (k off lim : ℕ) → IsPiece content off lim (sys k off lim)

-- The reader has read the first `offset` bytes, and holds what follows their last newline.
pub record Tracks (content : Bytes) (r : Reader) : Type 0 where
  pub inside : r.offset ≤ length content
  pub pending : Pending (rest [] (take r.offset content)) r

pub record Advanced (content : Bytes) (r : Reader) (lines : List Bytes) (s : Reader) : Type 0 where
  pub tracks : Tracks content s
  pub later : r.offset ≤ s.offset
  pub delivered :
      owed r.max_line (take s.offset content) ≡ owed r.max_line (take r.offset content) ++ lines
  pub max_line : s.max_line ≡ r.max_line
  pub max_read : s.max_read ≡ r.max_read
  pub info : s.info ≡ r.info

Advanced-refl : (content : Bytes) (r : Reader) → Tracks content r → Advanced content r [] r
Advanced-refl content r t = record {
  tracks = t;
  later = omega arith;
  delivered = sym (append-nil _);
  max_line = refl;
  max_read = refl;
  info = refl;
}

Advanced-trans :
    (content : Bytes) {r s t : Reader} {xs ys : List Bytes}
    → Advanced content r xs s
    → Advanced content s ys t
    → Advanced content r (xs ++ ys) t
Advanced-trans content {r} {s} {t} {xs} {ys} a b = record {
  tracks = b.tracks;
  later = omega (arith, a.later, b.later);
  delivered =
      subst (λ m. owed m (take t.offset content) ≡ owed m (take s.offset content) ++ ys) a.max_line
        b.delivered
      ∙ ap (λ ls. ls ++ ys) a.delivered
      ∙ append_assoc _ xs ys;
  max_line = b.max_line ∙ a.max_line;
  max_read = b.max_read ∙ a.max_read;
  info = b.info ∙ a.info;
}

module _ (content : Bytes) (r : Reader) (c : Bytes) where
  abbrev moved : Reader
  moved = record r { offset = r.offset + length c }

  -- The bytes read so far grow by the chunk.
  take-moved :
      c ≡ take (length c) (drop r.offset content)
      → take (r.offset + length c) content ≡ take r.offset content ++ c
  take-moved piece =
      take-add r.offset (length c) content ∙ ap (◌++◌ (take r.offset content)) (sym piece)

  inside-moved :
      r.offset ≤ length content
      → c ≡ take (length c) (drop r.offset content)
      → r.offset + length c ≤ length content
  inside-moved h piece = omega (
    arith,
    h,
    ap length piece,
    length-take (length c) (drop r.offset content),
    length-drop r.offset content,
  )

  -- What was fed, read as progress through the file.
  Fed-Advanced :
      (out : Reader × List Bytes)
      → Fed moved (rest [] (take r.offset content)) c out
      → r.offset ≤ length content
      → c ≡ take (length c) (drop r.offset content)
      → Advanced content r out.1 out.0
  Fed-Advanced out f h piece = record {
    tracks = record {
      inside = rw f.same.offset (inside-moved h piece);
      pending =
          subst (λ n. Pending (rest [] (take n content)) out.0) (sym f.same.offset)
            (rw (take-moved piece, rest-append [] (take r.offset content) c) f.pending);
    };
    later = omega (arith, f.same.offset);
    delivered =
        subst
          (λ n. owed r.max_line (take n content) ≡ owed r.max_line (take r.offset content) ++ out.1)
          (sym f.same.offset)
          (rw (
            take-moved piece,
            complete-append [] (take r.offset content) c,
            accepted-append,
            f.lines,
          ));
    max_line = f.same.max_line;
    max_read = f.same.max_read;
    info = f.same.info;
  }

-- One chunk moves the reader on by its length.
feed-Advanced :
    (content : Bytes) (r : Reader) (c : Bytes)
    → Tracks content r
    → length c ≤ r.max_line
    → c ≡ take (length c) (drop r.offset content)
    → Advanced content r (feed (moved content r c) c).1 (feed (moved content r c) c).0
feed-Advanced content r c t short piece =
    Fed-Advanced content r c _ (feed-Fed (moved content r c) _ c t.pending short) t.inside piece

-- The loop, whatever it stops for, has delivered exactly what the bytes it passed owe.
pub read_loop-Advanced :
    (content : Bytes) (sys : Sys) (fuel k done : ℕ) (r : Reader)
    → Serves content sys
    → Tracks content r
    → buffer r.max_read ≤ r.max_line
    → Advanced content r (read_loop sys fuel k done r).lines (read_loop sys fuel k done r).reader
unfolding read_loop
read_loop-Advanced content sys zero k done r serves t fits = Advanced-refl content r t
read_loop-Advanced content sys (suc fuel) k done r serves t fits =
    elim (Bool-cases (ltb done r.max_read)) [
      | inr full ↦ rw (full, read_loop) (Advanced-refl content r t)
      | inl more ↦ elim (SysRead-cases (sys k r.offset lim)) [
        | inl e ↦ rw (more, e, read_loop) (Advanced-refl content r t)
        | inr (inl e) ↦ rw (more, e, read_loop) (Advanced-refl content r t)
        | inr (inr (c, e)) ↦
            let piece = subst (IsPiece content r.offset lim) e (serves k r.offset lim) in
            let fed = feed-Advanced content r c t (omega arith) piece.2 in
            rw (more, e, read_loop)
              (Advanced-trans content fed (
                read_loop-Advanced content sys fuel (suc k) (done + length c) _ serves fed.tracks
                  (rw (fed.max_line, fed.max_read) fits)))
      ]
    ]
  where
    lim : ℕ
    lim = min (buffer r.max_read) (r.max_read - done)

-- With one more round than the bytes that may still be read, the loop ends, on a file that serves at
-- least one byte, its end or an error to each read.
pub read_loop-ne-stuck :
    (content : Bytes) (sys : Sys) (fuel k done : ℕ) (r : Reader)
    → Serves content sys
    → done ≤ r.max_read
    → r.max_read < done + fuel
    → (read_loop sys fuel k done r).stop ≢ stuck
unfolding read_loop
read_loop-ne-stuck content sys zero k done r serves b h = absurd (omega arith)
read_loop-ne-stuck content sys (suc fuel) k done r serves b h =
    elim (Bool-cases (ltb done r.max_read)) [
      | inr full ↦ rw (full, read_loop) (λ e. cc)
      | inl more ↦ elim (SysRead-cases (sys k r.offset lim)) [
        | inl e ↦ rw (more, e, read_loop) (λ q. cc)
        | inr (inl e) ↦ rw (more, e, read_loop) (λ q. cc)
        | inr (inr (c, e)) ↦
            let piece = subst (IsPiece content r.offset lim) e (serves k r.offset lim) in
            let same = feed-SameFile (moved content r c) c in
            rw (more, e, read_loop)
              (read_loop-ne-stuck content sys fuel (suc k) (done + length c) _ serves
                (omega (arith, piece.1, same.max_read)) (omega (arith, piece.0, same.max_read)))
      ]
    ]
  where
    lim : ℕ
    lim = min (buffer r.max_read) (r.max_read - done)
