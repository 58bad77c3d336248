-- ===== src/Ds4/Lines.antt =====
-- parse_line reads what ds4 prints.
use llm_metrics_exporter.Base.{
  ℕ, ◌-◌, ◌<◌, ◌≡◌, refl, min, Bool, true, false, none, some, [], ◌∷◌, ◌++◌, Bytes, arith, length,
}
use llm_metrics_exporter.Base.Decimal.{
  is_digit, AllDigits, decimal, value-decimal, decimal-AllDigits, decimal_pos,
}
use llm_metrics_exporter.Ds4.{
  literal, span, digits, some_digits, match_qwen, match_cycle, num, dec, max_u64, parse_line,
  qwen_head, accepted_label, target_label, cycle_head, drafted_label, committed_label, boundary,
  some_kind, is_kind, is_word,
}

-- A literal in front is taken off.
literal-append : (p s : Bytes) → literal p (p ++ s) ≡ some s
unfolding literal
literal-append [] s = refl
literal-append (x ∷ p) s = ground (arith, literal-append p s)

abbrev All {ℓ} : (ℕ → Type ℓ) → Bytes → Type ℓ
All P [] = Unit
All P (c ∷ cs) = P c × All P cs

-- The text behind a run of the class.
abbrev Stops : (ℕ → Bool) → Bytes → Type 0
Stops p [] = Unit
Stops p (c ∷ s) = p c ≡ false

span-append :
    (p : ℕ → Bool) (run s : Bytes)
    → All (λ c. p c ≡ true) run
    → Stops p s
    → span p (run ++ s) ≡ (run, s)
unfolding span
span-append p [] [] h k = refl
span-append p [] (c ∷ s) h k = rw k
span-append p (c ∷ run) s h k = rw (h.0, span-append p run s h.1 k)

AllDigits-All : (ds : Bytes) → AllDigits ds → All (λ c. is_digit c ≡ true) ds
AllDigits-All [] h = tt
AllDigits-All (d ∷ ds) h = (ground arith, AllDigits-All ds h.2)

some_digits-pos : (ds s : Bytes) → 0 < length ds → some_digits (ds, s) ≡ some (ds, s)
unfolding some_digits
some_digits-pos [] s h = absurd (omega arith)
some_digits-pos (d ∷ ds) s h = refl

digits-append :
    (ds s : Bytes)
    → AllDigits ds
    → 0 < length ds
    → Stops is_digit s
    → digits (ds ++ s) ≡ some (ds, s)
unfolding digits
digits-append ds s h pos k =
    rw (span-append is_digit ds s (AllDigits-All ds h) k) (some_digits-pos ds s pos)

-- The digits of a number, before a text that begins with no digit.
digits-decimal :
    (n : ℕ) (s : Bytes) → Stops is_digit s → digits (decimal n ++ s) ≡ some (decimal n, s)
digits-decimal n s k = digits-append (decimal n) s (decimal-AllDigits n) (decimal_pos n) k

num-decimal : (n : ℕ) → num (decimal n) ≡ min n max_u64
unfolding num
num-decimal n = rw (value-decimal n)

abbrev pub qwen_line : ℕ → ℕ → ℕ → Bytes → Bytes
qwen_line d a t rest =
    qwen_head
    ++ (decimal d ++ (accepted_label ++ (decimal a ++ (target_label ++ (decimal t ++ rest)))))

match_qwen-line :
    (d a t : ℕ) (rest : Bytes)
    → Stops is_digit rest
    → match_qwen (qwen_line d a t rest) ≡ some (decimal d, decimal a, decimal t)
unfolding match_qwen literal
match_qwen-line d a t rest k =
    let third = decimal t ++ rest in
    let second = decimal a ++ (target_label ++ third) in
    rw (digits-decimal d (accepted_label ++ second) refl)
      (rw (digits-decimal a (target_label ++ third) refl) (rw (digits-decimal t rest k)))

-- A timing line of the Qwen path, whose last number is followed by no digit, is read as the numbers
-- that were printed, each at most 2^64 - 1; accepted is already draft-only and is taken as it is.
pub parse_line-qwen :
    (d a t : ℕ) (rest : Bytes)
    → Stops is_digit rest
    → parse_line (qwen_line d a t rest)
      ≡ some (record { proposed = min d max_u64; accepted = min a max_u64 })
unfolding parse_line
parse_line-qwen d a t rest k =
    rw (match_qwen-line d a t rest k, parse_line) (ground (arith, num-decimal d, num-decimal a))

abbrev pub cycle_line : Bytes → ℕ → ℕ → Bytes → Bytes
cycle_line kind d c rest =
    cycle_head
    ++ (kind ++ (drafted_label ++ (decimal d ++ (committed_label ++ (decimal c ++ rest)))))

-- The end of the line, or a byte that is neither a digit, a letter nor an underscore.
abbrev pub AtBoundary : Bytes → Type 0
AtBoundary rest = Stops is_word rest

some_kind-pos : (kind s : Bytes) → 0 < length kind → some_kind (kind, s) ≡ some s
unfolding some_kind
some_kind-pos [] s h = absurd (omega arith)
some_kind-pos (c ∷ cs) s h = refl

boundary-stops : (rest : Bytes) → AtBoundary rest → boundary rest ≡ some rest
unfolding boundary
boundary-stops [] h = refl
boundary-stops (c ∷ s) h = rw h

word-Stops_digit : (rest : Bytes) → AtBoundary rest → Stops is_digit rest
word-Stops_digit [] h = tt
word-Stops_digit (c ∷ s) h = ground arith

match_cycle-line :
    (kind : Bytes) (d c : ℕ) (rest : Bytes)
    → All (λ b. is_kind b ≡ true) kind
    → 0 < length kind
    → AtBoundary rest
    → match_cycle (cycle_line kind d c rest) ≡ some (decimal d, decimal c)
unfolding match_cycle literal
match_cycle-line kind d c rest k pos stops =
    let last = decimal c ++ rest in
    let first = decimal d ++ (committed_label ++ last) in
    rw (span-append is_kind kind (drafted_label ++ first) k refl) (
      rw (some_kind-pos kind (drafted_label ++ first) pos) (
        rw (digits-decimal d (committed_label ++ last) refl) (
          rw (digits-decimal c rest (word-Stops_digit rest stops))
            (rw (boundary-stops rest stops)))))

not_qwen : (kind : Bytes) (d c : ℕ) (rest : Bytes) → match_qwen (cycle_line kind d c rest) ≡ none
unfolding match_qwen literal
not_qwen kind d c rest = refl

-- A timing line of the other paths, whose kind is made of word characters and dashes and whose last
-- number ends at a word boundary, is read as one less than each printed number, the free first
-- token: 0 stays 0, and a number above 2^64 - 1 counts as that.
pub parse_line-cycle :
    (kind : Bytes) (d c : ℕ) (rest : Bytes)
    → All (λ b. is_kind b ≡ true) kind
    → 0 < length kind
    → AtBoundary rest
    → parse_line (cycle_line kind d c rest)
      ≡ some (record { proposed = min d max_u64 - 1; accepted = min c max_u64 - 1 })
unfolding parse_line dec
parse_line-cycle kind d c rest k pos stops =
    rw (not_qwen kind d c rest, parse_line)
      (rw (match_cycle-line kind d c rest k pos stops)
        (ground (arith, num-decimal d, num-decimal c)))
