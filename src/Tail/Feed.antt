-- ===== src/Tail/Feed.antt =====
-- feed delivers what the whole bytes owe, however they are cut into chunks, as long as no chunk is
-- longer than the line limit (a line inside one chunk is not measured).
use llm_metrics_exporter.Base.{
  ℕ, zero, suc, subst, ◌≤◌, ◌<◌, ◌≡◌, refl, sym, ap, true, false, none, some, List, [], ◌∷◌, ◌++◌,
  arith, Bytes, length, length-append, length-take, length-drop, take, drop, inl, inr, ◌⊎◌,
  Option-cases,
}
use mathlib.Core.List.{flatten}
use llm_metrics_exporter.Tail.{new, Reader, newline, index_byte, keep, end_line, feed, feed_loop}
use llm_metrics_exporter.Tail.Lines.{
  complete, rest, accepted, accepted-append, complete-append, rest-append, index_byte-none,
  index_byte-some,
}

-- The reader holds the pending line `line`, or skips it because it is too long.
abbrev pub Pending : Bytes → Reader → Type 0
Pending line r =
    ((r.skipping ≡ false) × (r.partial ≡ line) × (length line ≤ r.max_line))
    ⊎ ((r.skipping ≡ true) × (r.partial ≡ []) × (r.max_line < length line))

keep-Pending : (r : Reader) (line b : Bytes) → Pending line r → Pending (line ++ b) (keep r b)
unfolding keep
keep-Pending r line b p = ground (arith, length-append line b)

-- What ends with a newline is delivered exactly if it is short enough.
end_line-accepted :
    (r : Reader) (line b : Bytes)
    → Pending line r
    → length b ≤ r.max_line
    → (end_line r b).1 ≡ accepted r.max_line ((line ++ b) ∷ [])
unfolding end_line accepted keep
end_line-accepted r line b p h = ground (arith, length-append line b)

-- The settings and the position, which feed leaves alone.
pub record SameFile (r s : Reader) : Type 0 where
  pub max_read : s.max_read ≡ r.max_read
  pub max_line : s.max_line ≡ r.max_line
  pub offset : s.offset ≡ r.offset
  pub info : s.info ≡ r.info
  pub backlog : s.backlog ≡ r.backlog

keep-SameFile : (r : Reader) (b : Bytes) → SameFile r (keep r b)
unfolding keep
keep-SameFile r b = ground arith

end_line-SameFile : (r : Reader) (b : Bytes) → SameFile r (end_line r b).0
unfolding end_line keep
end_line-SameFile r b = ground arith

SameFile-trans : {r s t : Reader} → SameFile r s → SameFile s t → SameFile r t
SameFile-trans a b = ground arith

SameFile-refl : (r : Reader) → SameFile r r
SameFile-refl r = ground arith

abbrev restart : Reader → Reader
restart r = record r { partial = []; skipping = false }

restart-SameFile : (r : Reader) → SameFile r (restart r)
restart-SameFile r = ground arith

feed_loop-SameFile : (n : ℕ) (r : Reader) (chunk : Bytes) → SameFile r (feed_loop n r chunk).0
unfolding feed_loop
feed_loop-SameFile zero r chunk = SameFile-refl r
feed_loop-SameFile (suc n) r [] = SameFile-refl r
feed_loop-SameFile (suc n) r (b ∷ bs) = elim (Option-cases (index_byte newline (b ∷ bs))) [
  | inl e ↦ rw (e, feed_loop) (keep-SameFile r (b ∷ bs))
  | inr (i, e) ↦
      rw (e, feed_loop)
        (SameFile-trans (end_line-SameFile r (take i (b ∷ bs)))
          (SameFile-trans (restart-SameFile _) (feed_loop-SameFile n _ (drop (suc i) (b ∷ bs)))))
]

-- Feeding leaves the settings and the position alone.
pub feed-SameFile : (r : Reader) (chunk : Bytes) → SameFile r (feed r chunk).0
unfolding feed
feed-SameFile r chunk = feed_loop-SameFile (length chunk) r chunk

-- What the loop owes for a chunk: the lines that it completes, and the pending rest.
pub record Fed (r : Reader) (line chunk : Bytes) (out : Reader × List Bytes) : Type 0 where
  pub lines : out.1 ≡ accepted r.max_line (complete line chunk)
  pub pending : Pending (rest line chunk) out.0
  pub same : SameFile r out.0

Fed-nil : (r : Reader) (line : Bytes) → Pending line r → Fed r line [] (r, [])
unfolding complete rest accepted
Fed-nil r line p = ground arith

Fed-keep :
    (r : Reader) (line chunk : Bytes)
    → Pending line r
    → index_byte newline chunk ≡ none
    → Fed r line chunk (keep r chunk, [])
unfolding accepted
Fed-keep r line chunk p e =
    let both = index_byte-none line chunk e in
    record {
      lines = rw both.0;
      pending = rw both.1 (keep-Pending r line chunk p);
      same = keep-SameFile r chunk;
    }

accepted_cons :
    (m : ℕ) (l : Bytes) (ls : List Bytes) {first more : List Bytes}
    → first ≡ accepted m (l ∷ [])
    → more ≡ accepted m ls
    → first ++ more ≡ accepted m (l ∷ ls)
accepted_cons m l ls p q = rw (p, q) (sym (accepted-append m (l ∷ []) ls))

Fed-line :
    (r : Reader) (line chunk : Bytes) (i : ℕ)
    → Pending line r
    → index_byte newline chunk ≡ some i
    → length chunk ≤ r.max_line
    → (out : Reader × List Bytes)
    → Fed (restart (end_line r (take i chunk)).0) [] (drop (suc i) chunk) out
    → Fed r line chunk (out.0, (end_line r (take i chunk)).1 ++ out.1)
Fed-line r line chunk i p e m out f =
    let cut = index_byte-some line chunk i e in
    let ended = end_line-SameFile r (take i chunk) in
    let short : length (take i chunk) ≤ r.max_line = omega (arith, length-take i chunk, cut.2) in
    record {
      lines = rw cut.0 (
          accepted_cons r.max_line (line ++ take i chunk) (complete [] (drop (suc i) chunk))
            (end_line-accepted r line (take i chunk) p short)
            (subst (λ m'. out.1 ≡ accepted m' (complete [] (drop (suc i) chunk))) ended.max_line
              f.lines));
      pending = rw cut.1 f.pending;
      same = SameFile-trans ended (SameFile-trans (restart-SameFile _) f.same);
    }

feed_loop-Fed :
    (n : ℕ) (r : Reader) (line chunk : Bytes)
    → Pending line r
    → length chunk ≤ n
    → length chunk ≤ r.max_line
    → Fed r line chunk (feed_loop n r chunk)
unfolding feed_loop
feed_loop-Fed zero r line [] p h m = Fed-nil r line p
feed_loop-Fed zero r line (b ∷ bs) p h m = absurd (omega arith)
feed_loop-Fed (suc n) r line [] p h m = Fed-nil r line p
feed_loop-Fed (suc n) r line (b ∷ bs) p h m = elim (Option-cases (index_byte newline (b ∷ bs))) [
  | inl e ↦ rw (e, feed_loop) (Fed-keep r line (b ∷ bs) p e)
  | inr (i, e) ↦
      let ended = end_line-SameFile r (take i (b ∷ bs)) in
      rw (e, feed_loop)
        (Fed-line r line (b ∷ bs) i p e m _ (
          feed_loop-Fed n _ [] (drop (suc i) (b ∷ bs)) (inl (refl, refl, omega arith))
            (omega (arith, length-drop i bs)) (omega (arith, length-drop i bs, ended.max_line))))
]

-- A chunk that is no longer than the line limit is fed completely: the reader delivers the owed
-- lines of the pending line and the chunk, and then holds what follows the last newline.
pub feed-Fed :
    (r : Reader) (line chunk : Bytes)
    → Pending line r
    → length chunk ≤ r.max_line
    → Fed r line chunk (feed r chunk)
unfolding feed
feed-Fed r line chunk p m = feed_loop-Fed (length chunk) r line chunk p (omega arith) m

-- The chunks of successive reads, fed one after another.
unfoldable pub feed_all : Reader → List Bytes → Reader × List Bytes
feed_all r [] = (r, [])
feed_all r (c ∷ cs) =
    let (fed, lines) = feed r c in let (last, more) = feed_all fed cs in (last, lines ++ more)

abbrev pub AllShort : ℕ → List Bytes → Type 0
AllShort m [] = Unit {0}
AllShort m (c ∷ cs) = (length c ≤ m) × AllShort m cs

feed_all-Fed :
    (r : Reader) (line : Bytes) (cs : List Bytes)
    → Pending line r
    → AllShort r.max_line cs
    → Fed r line (flatten cs) (feed_all r cs)
unfolding feed_all flatten
feed_all-Fed r line [] p h = Fed-nil r line p
feed_all-Fed r line (c ∷ cs) p h =
    let first = feed-Fed r line c p h.0 in
    let more =
      feed_all-Fed (feed r c).0 (rest line c) cs first.pending (rw first.same.max_line h.1) in
    record {
      lines =
          rw (complete-append line c (flatten cs), accepted-append, first.lines)
            (ap (◌++◌ (accepted r.max_line (complete line c))) (
              subst
                (λ m.
                  (feed_all (feed r c).0 cs).1 ≡ accepted m (complete (rest line c) (flatten cs)))
                first.same.max_line more.lines));
      pending = rw (rest-append line c (flatten cs)) more.pending;
      same = SameFile-trans first.same more.same;
    }

-- However the bytes of a file are cut into chunks that are no longer than the line limit, a new
-- reader calls back the same lines: each complete line that is within the limit, without its line
-- ending, in order, and no other.
pub feed_all-owed :
    (max_read max_line : ℕ) (cs : List Bytes)
    → AllShort max_line cs
    → (feed_all (new max_read max_line) cs).1 ≡ accepted max_line (complete [] (flatten cs))
unfolding new
feed_all-owed max_read max_line cs h =
    (feed_all-Fed (new max_read max_line) [] cs (inl (refl, refl, omega arith)) h).lines
