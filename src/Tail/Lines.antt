-- ===== src/Tail/Lines.antt =====
-- What a reader should deliver, stated over whole byte strings: the complete lines, the bytes after
-- the last newline, and the lines that are short enough.
use llm_metrics_exporter.Base.{
  ℕ, zero, suc, ◌<◌, ◌≡◌, refl, sym, none, some, List, [], ◌∷◌, ◌++◌, append_assoc, append-nil,
  arith, Bytes, length, take, drop, leb, ◌==◌, if◌then◌else◌,
}
use llm_metrics_exporter.Tail.{newline, index_byte, trim_cr}

-- The lines that end in a newline; `line` is what the first one began with.
unfoldable pub complete : Bytes → Bytes → List Bytes
complete line [] = []
complete line (b ∷ bs) =
    if b == newline then line ∷ complete [] bs else complete (line ++ b ∷ []) bs

unfoldable pub rest : Bytes → Bytes → Bytes
rest line [] = line
rest line (b ∷ bs) = rest (if b == newline then [] else line ++ b ∷ []) bs

unfoldable pub accepted : ℕ → List Bytes → List Bytes
accepted m [] = []
accepted m (l ∷ ls) = if leb (length l) m then trim_cr l ∷ accepted m ls else accepted m ls

-- The lines a reader with that line limit owes for a file's bytes.
abbrev pub owed : ℕ → Bytes → List Bytes
owed m bs = accepted m (complete [] bs)

pub accepted-append :
    (m : ℕ) (xs ys : List Bytes) → accepted m (xs ++ ys) ≡ accepted m xs ++ accepted m ys
unfolding accepted
accepted-append m [] ys = refl
accepted-append m (x ∷ xs) ys = ground (arith, accepted-append m xs ys)

pub complete-append :
    (line xs ys : Bytes) → complete line (xs ++ ys) ≡ complete line xs ++ complete (rest line xs) ys
unfolding complete rest
complete-append line [] ys = refl
complete-append line (b ∷ xs) ys =
    ground (arith, complete-append [] xs ys, complete-append (line ++ b ∷ []) xs ys)

pub rest-append : (line xs ys : Bytes) → rest line (xs ++ ys) ≡ rest (rest line xs) ys
unfolding rest
rest-append line [] ys = refl
rest-append line (b ∷ xs) ys = rest-append (if b == newline then [] else line ++ b ∷ []) xs ys

-- A string without a newline completes no line and goes on with the pending one.
pub index_byte-none :
    (line xs : Bytes)
    → index_byte newline xs ≡ none
    → (complete line xs ≡ []) × (rest line xs ≡ line ++ xs)
unfolding index_byte complete rest
index_byte-none line [] h = (refl, sym (append-nil line))
index_byte-none line (b ∷ xs) h =
    ground (arith, index_byte-none (line ++ b ∷ []) xs, append_assoc line (b ∷ []) xs)

-- The first newline ends the pending line.
pub index_byte-some :
    (line xs : Bytes) (i : ℕ)
    → index_byte newline xs ≡ some i
    → (complete line xs ≡ (line ++ take i xs) ∷ complete [] (drop (suc i) xs))
      × (rest line xs ≡ rest [] (drop (suc i) xs))
      × (i < length xs)
unfolding index_byte complete rest
index_byte-some line [] i h = cc
index_byte-some line (b ∷ xs) zero h = ground (arith, append-nil line)
index_byte-some line (b ∷ xs) (suc i) h =
    ground (arith, index_byte-some (line ++ b ∷ []) xs i, append_assoc line (b ∷ []) (take i xs))
