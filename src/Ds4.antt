-- ===== src/Ds4.antt =====
-- internal/adapter/ds4/ds4.go: the speculative-decoding counters that the exporter keeps for ds4,
-- from the DS4_MTP_TIMING lines of its log. The probe's outcome is an argument.
pub mod Lines
pub mod Counting
pub mod Examples
use mathlib.Core.List.{foldl}
use llm_metrics_exporter.Base.{
  ℕ, zero, suc, ◌+◌, ◌-◌, ◌%◌, ◌^◌, min, Bool, true, false, not, ◌&&◌, ◌||◌, Option, none, some,
  List, [], ◌∷◌, ◌++◌, String, Bytes, codes, length, take, drop, has_prefix, ltb, leb, ◌==◌,
  if◌then◌else◌,
}
use llm_metrics_exporter.Base.Options.{◌>>=◌}
use llm_metrics_exporter.Base.Decimal.{is_digit, value}
use llm_metrics_exporter.Base.Floats.{Floats}
use llm_metrics_exporter.Metrics.{
  Sample, Def, spec_draft_tokens, spec_accepted_tokens, spec_verify_steps,
}
use llm_metrics_exporter.Adapter.{Result}
use llm_metrics_exporter.Tail
use llm_metrics_exporter.Tail.{Reader, Open, Error}

-- One speculative cycle with the free first token removed.
pub record Cycle : Type 0 where
  pub proposed : ℕ
  pub accepted : ℕ

-- A literal of a pattern: what follows it.
pub literal : Bytes → Bytes → Option Bytes
literal [] s = some s
literal (p ∷ ps) [] = none
literal (p ∷ ps) (c ∷ s) = if p == c then literal ps s else none

-- The longest run of bytes that a class takes, and what follows.
pub span : (ℕ → Bool) → Bytes → Bytes × Bytes
span p [] = ([], [])
span p (c ∷ s) = let (run, rest) = span p s in if p c then (c ∷ run, rest) else ([], c ∷ s)

-- (\d+) in front of a byte that is no digit: the longest run, which may not be empty.
some_digits : Bytes × Bytes → Option (Bytes × Bytes)
some_digits ([], rest) = none
some_digits (d ∷ ds, rest) = some (d ∷ ds, rest)

pub digits : Bytes → Option (Bytes × Bytes)
digits s = some_digits (span is_digit s)

-- \w
abbrev is_word : ℕ → Bool
is_word c = is_digit c || (leb 65 c && leb c 90) || (leb 97 c && leb c 122) || c == 95

-- [\w-]
abbrev is_kind : ℕ → Bool
is_kind c = is_word c || c == 45

some_kind : Bytes × Bytes → Option Bytes
some_kind ([], rest) = none
some_kind (c ∷ cs, rest) = some rest

-- \b behind a digit: the end, or a byte that is no word character. A shorter run of digits would
-- stand before a digit, so the longest run decides.
boundary : Bytes → Option Bytes
boundary [] = some []
boundary (c ∷ s) = if is_word c then none else some (c ∷ s)

abbrev pub qwen_head : Bytes
qwen_head = codes "ds4: Qwen MTP timing drafted="

abbrev pub accepted_label : Bytes
accepted_label = codes " accepted="

abbrev pub target_label : Bytes
target_label = codes " target_tokens="

abbrev pub cycle_head : Bytes
cycle_head = codes "ds4: mtp timing "

abbrev pub drafted_label : Bytes
drafted_label = codes " drafted="

abbrev pub committed_label : Bytes
committed_label = codes " committed="

-- qwenRE.FindSubmatch: the first two groups and the third, which only the warning reads.
pub match_qwen : Bytes → Option (Bytes × Bytes × Bytes)
match_qwen line = do
  s ← literal qwen_head line
  drafted ← digits s
  s ← literal accepted_label drafted.1
  accepted ← digits s
  s ← literal target_label accepted.1
  target ← digits s
  some (drafted.0, accepted.0, target.0)

-- cycleRE.FindSubmatch
pub match_cycle : Bytes → Option (Bytes × Bytes)
match_cycle line = do
  s ← literal cycle_head line
  s ← some_kind (span is_kind s)
  s ← literal drafted_label s
  drafted ← digits s
  s ← literal committed_label drafted.1
  committed ← digits s
  s ← boundary committed.1
  some (drafted.0, committed.0)

abbrev pub max_u64 : ℕ
max_u64 = 2 ^ 64 - 1

-- strconv.ParseUint of digits, its range error ignored: it returns the largest value then.
pub num : Bytes → ℕ
num b = min (value 0 b) max_u64

pub dec : ℕ → ℕ
dec v = if v == 0 then 0 else v - 1

-- Reads one log line; the warning about an unexpected target_tokens is a log line only.
pub parse_line : Bytes → Option Cycle
parse_line line = elim (match_qwen line) [
  | some (drafted, accepted, target) ↦
      some (record { proposed = num drafted; accepted = num accepted })
  | none ↦ elim (match_cycle line) [
    | some (drafted, committed) ↦
        some (record { proposed = dec (num drafted); accepted = dec (num committed) })
    | none ↦ none
  ]
]

pub record Totals : Type 0 where
  pub seen : Bool
  pub proposed : ℕ
  pub accepted : ℕ
  pub verifys : ℕ

abbrev pub zero_totals : Totals
zero_totals = record { seen = false; proposed = 0; accepted = 0; verifys = 0 }

-- uint64 addition
abbrev pub add_u64 : ℕ → ℕ → ℕ
add_u64 a b = (a + b) % 2 ^ 64

add_cycle : Totals → Option Cycle → Totals
add_cycle t none = t
add_cycle t (some c) = record {
  seen = true;
  proposed = add_u64 t.proposed c.proposed;
  accepted = add_u64 t.accepted c.accepted;
  verifys = if ltb 0 c.proposed then add_u64 t.verifys 1 else t.verifys;
}

-- The callback that Collect gives to the reader.
pub on_line : Totals → Bytes → Totals
unfolding add_cycle
on_line t line = if has_prefix line (codes "ds4: ") then add_cycle t (parse_line line) else t

pub record Adapter : Type 0 where
  pub tail : Reader
  pub totals : Totals

-- Start
pub start : ℕ → Adapter
start max_read = record { tail = Tail.new max_read 65536; totals = zero_totals }

pub data Failure : Type 0 where
  probe_failed : Failure
  read_failed : Error → Failure

pub data Outcome (F : Type 0) : Type 0 where
  result : Result F → Outcome F
  failure : Failure → Outcome F

module _ (fl : Floats) where
  open fl use {F, zero as zero_float, of_uint}

  sample : Def → ℕ → Sample F
  sample d n = record { worker = ""; def = some d; labels = []; value = of_uint n; hist = none }

  -- What Collect returns once the lines are read.
  pub answer : Totals → ℕ → Result F
  unfolding sample
  answer t backlog =
      if not t.seen
      then (if ltb 0 backlog
          then record { samples = []; backlog_bytes = backlog }
          else record { samples = []; backlog_bytes = 0 })
      else if ltb 0 backlog
      then record { samples = []; backlog_bytes = backlog }
      else record {
        samples =
            sample spec_draft_tokens t.proposed
            ∷ sample spec_accepted_tokens t.accepted
            ∷ sample spec_verify_steps t.verifys
            ∷ [];
        backlog_bytes = 0;
      }

  -- The error of the read, or the answer.
  pub respond : Option Error → Totals → ℕ → Outcome F
  respond (some e) t backlog = failure (read_failed e)
  respond none t backlog = result (answer t backlog)

  -- Collect; the reset callback comes before the lines.
  pub collect : Adapter → Bool → Open → Outcome F × Adapter
  unfolding respond
  collect a false o = (failure probe_failed, a)
  collect a true o =
      let out = Tail.read a.tail o in
      let before = if out.reset then zero_totals else a.totals in
      let totals = foldl on_line before out.lines in
      (respond out.error totals out.reader.backlog, record { tail = out.reader; totals = totals })
