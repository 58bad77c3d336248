-- ===== src/Ds4/Examples.antt =====
-- Two ds4 lines and a small log, and the theorems of Ds4 at these inputs.
use llm_metrics_exporter.Base.{
  ℕ, ◌≡◌, refl, some, true, [], ◌∷◌, ◌++◌, arith, min, Bytes, codes, length, take, ◌-◌,
}
use llm_metrics_exporter.Base.Decimal.{value}
use llm_metrics_exporter.Base.Floats.{whole_floats}
use llm_metrics_exporter.Adapter.{Result}
use llm_metrics_exporter.Tail
use llm_metrics_exporter.Tail.Exact.{kept, Holds}
use llm_metrics_exporter.Tail.{Sys, SysRead, eof, got, Opened, opened}
use llm_metrics_exporter.Tail.Examples.{file, file-Serves}
use llm_metrics_exporter.Tail.Lines.{owed}
use llm_metrics_exporter.Ds4.{
  Adapter, zero_totals, parse_line, match_qwen, match_cycle, literal, digits, some_digits,
  some_kind, boundary, span, num, dec, max_u64, collect, start, answer,
}
use llm_metrics_exporter.Ds4.Lines.{qwen_line, cycle_line, parse_line-qwen, parse_line-cycle}
use llm_metrics_exporter.Ds4.Counting.{Life, born, polled, tally, Life-totals}

parse_line-qwen_example :
    parse_line (qwen_line 3 2 3 (codes " ms=41"))
    ≡ some (record { proposed = min 3 max_u64; accepted = min 2 max_u64 })
parse_line-qwen_example = parse_line-qwen 3 2 3 (codes " ms=41") refl

parse_line-cycle_example :
    parse_line (cycle_line (codes "decode2") 2 1 (codes " ms=41"))
    ≡ some (record { proposed = min 2 max_u64 - 1; accepted = min 1 max_u64 - 1 })
parse_line-cycle_example =
    parse_line-cycle (codes "decode2") 2 1 (codes " ms=41")
      (refl, (refl, (refl, (refl, (refl, (refl, (refl, tt))))))) (omega arith) refl

-- A declined draft: the first token is free, and nothing was proposed beyond it.
declined :
    parse_line (codes "ds4: mtp timing margin-skip drafted=2 committed=1 ms=3")
    ≡ some (record { proposed = 1; accepted = 0 })
unfolding parse_line match_qwen match_cycle literal digits some_digits some_kind boundary span num
    dec value
declined = refl

abbrev log : Bytes
log = codes "ds4: mtp timing micro drafted=3 committed=2" ++ (10 ∷ codes "other" ++ (10 ∷ []))

abbrev log_file : Opened
log_file = record {
  id = 1;
  size = length log;
  seeks = true;
  sys = file log;
  latest = some (length log);
}

abbrev fresh : Adapter
fresh = record { tail = Tail.new 64 65536; totals = zero_totals }

log-Holds : Holds 1 log log_file
log-Holds = record { serves = file-Serves log; identity = refl; sized = refl }

alive : Life whole_floats 64 1 log fresh
unfolding start
alive = born 1 log

after_log : Life whole_floats 64 1 log (collect whole_floats fresh true (opened log_file)).1
after_log = polled log_file kept log-Holds alive

Life-totals_example :
    (collect whole_floats fresh true (opened log_file)).1.totals
    ≡ tally
        (owed 65536 (take (collect whole_floats fresh true (opened log_file)).1.tail.offset log))
Life-totals_example = Life-totals whole_floats 64 after_log

abbrev counted : Result ℕ
counted = answer whole_floats (record { seen = true; proposed = 2; accepted = 1; verifys = 1 }) 0
