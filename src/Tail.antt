-- ===== src/Tail.antt =====
-- internal/tail/tail.go: a reader that remembers how far into one file it has read.
-- The operating system enters as arguments: what os.Open and Stat answer, and a function for what
-- each f.Read returns. Callbacks are the results: `reset` for onReset, `lines` for the onLine calls.
pub mod Lines
pub mod Feed
pub mod Progress
pub mod Exact
pub mod History
pub mod Counting
pub mod Examples
use llm_metrics_exporter.Base.{
  ℕ, zero, suc, ◌+◌, ◌-◌, ◌^◌, min, Bool, true, false, not, ◌||◌, Option, none, some, List, [], ◌∷◌,
  ◌++◌, Bytes, length, take, drop, ltb, ◌==◌, if◌then◌else◌, map,
}
use mathlib.Core.Option

pub record Reader : Type 0 where
  pub max_read : ℕ
  pub max_line : ℕ
  pub offset : ℕ
  pub info : Option ℕ
  pub partial : Bytes
  pub skipping : Bool
  pub backlog : ℕ

unfoldable pub new : ℕ → ℕ → Reader
new max_read max_line = record {
  max_read = max_read;
  max_line = max_line;
  offset = 0;
  info = none;
  partial = [];
  skipping = false;
  backlog = 0;
}

abbrev pub newline : ℕ
newline = 10

-- bytes.IndexByte
unfoldable pub index_byte : ℕ → Bytes → Option ℕ
index_byte c [] = none
index_byte c (b ∷ bs) = if b == c then some 0 else Option.map suc (index_byte c bs)

-- bytes.TrimSuffix(line, "\r")
unfoldable pub trim_cr : Bytes → Bytes
trim_cr [] = []
trim_cr (b ∷ []) = if b == 13 then [] else b ∷ []
trim_cr (b ∷ c ∷ bs) = b ∷ trim_cr (c ∷ bs)

unfoldable pub keep : Reader → Bytes → Reader
keep r b =
    if r.skipping
    then r
    else if ltb r.max_line (length r.partial + length b)
    then record r { partial = []; skipping = true }
    else record r { partial = r.partial ++ b }

abbrev is_nil : Bytes → Bool
is_nil [] = true
is_nil (b ∷ bs) = false

-- The part of feed's loop body for a line that ends at `i`: the reader before the final reset of
-- partial, and the line to call back with.
unfoldable pub end_line : Reader → Bytes → Reader × List Bytes
end_line r line =
    if r.skipping
    then (r, [])
    else if is_nil r.partial
    then (r, trim_cr line ∷ [])
    else let kept = keep r line in
      if kept.skipping then (kept, []) else (kept, trim_cr kept.partial ∷ [])

-- The loop of feed, on fuel; `feed` gives the length of the chunk, which falls each round.
unfoldable pub feed_loop : ℕ → Reader → Bytes → Reader × List Bytes
feed_loop zero r chunk = (r, [])
feed_loop (suc n) r [] = (r, [])
feed_loop (suc n) r (b ∷ bs) = elim (index_byte newline (b ∷ bs)) [
  | none ↦ (keep r (b ∷ bs), [])
  | some i ↦
      let (ended, lines) = end_line r (take i (b ∷ bs)) in
      let (after, more) =
        feed_loop n (record ended { partial = []; skipping = false }) (drop (suc i) (b ∷ bs)) in
      (after, lines ++ more)
]

unfoldable pub feed : Reader → Bytes → Reader × List Bytes
feed r chunk = feed_loop (length chunk) r chunk

-- What one f.Read returns.
pub data SysRead : Type 0 where
  got : Bytes → SysRead
  eof : SysRead
  failed : SysRead

-- The k-th read of a call, at an offset, into a buffer of a length.
abbrev pub Sys : Type 0
Sys = ℕ → ℕ → ℕ → SysRead

pub data Error : Type 0 where
  not_exist io_error : Error

-- `stuck` stands for a loop that never ends: every read returns no byte and no error.
pub data Stop : Type 0 where
  finished broken stuck : Stop

pub record LoopOut : Type 0 where
  pub stop : Stop
  pub reader : Reader
  pub lines : List Bytes

abbrev pub buffer : ℕ → ℕ
buffer max_read = min max_read 65536

unfoldable pub read_loop : Sys → ℕ → ℕ → ℕ → Reader → LoopOut
read_loop sys zero k done r = record { stop = stuck; reader = r; lines = [] }
read_loop sys (suc fuel) k done r = elim (ltb done r.max_read) [
  | false ↦ record { stop = finished; reader = r; lines = [] }
  | true ↦ elim (sys k r.offset (min (buffer r.max_read) (r.max_read - done))) [
    | eof ↦ record { stop = finished; reader = r; lines = [] }
    | failed ↦ record { stop = broken; reader = r; lines = [] }
    | got chunk ↦
        let (fed, lines) = feed (record r { offset = r.offset + length chunk }) chunk in
        let rest = read_loop sys fuel (suc k) (done + length chunk) fed in
        record rest { lines = lines ++ rest.lines }
  ]
]

-- What one call of Read meets: os.Open and the first Stat (the file's identity and size), Seek, the
-- reads, and the last Stat.
pub record Opened : Type 0 where
  pub id : ℕ
  pub size : ℕ
  pub seeks : Bool
  pub sys : Sys
  pub latest : Option ℕ

pub data Open : Type 0 where
  opened : Opened → Open
  refused : Error → Open

pub record Output : Type 0 where
  pub error : Option Error
  pub reader : Reader
  pub reset : Bool
  pub lines : List Bytes

-- !os.SameFile(r.info, info) || info.Size() < r.offset, when there is an r.info.
unfoldable pub replaced : Reader → Opened → Bool
replaced r f = elim r.info [ none ↦ false | some id ↦ not (id == f.id) || ltb f.size r.offset ]

-- The reader as the loop of Read finds it.
unfoldable pub ready : Reader → Opened → Reader
ready r f =
    if replaced r f
    then record r { offset = 0; partial = []; skipping = false; info = some f.id }
    else record r { info = some f.id }

unfoldable pub finish : Opened → Bool → LoopOut → Output
finish f reset out = elim out.stop [
  | broken ↦ record { error = some io_error; reader = out.reader; reset = reset; lines = out.lines }
  | stuck ↦ record { error = some io_error; reader = out.reader; reset = reset; lines = out.lines }
  | finished ↦ elim f.latest [
    | none ↦ record { error = some io_error; reader = out.reader; reset = reset; lines = out.lines }
    | some size ↦ record {
      error = none;
      reader = record out.reader { backlog = size - out.reader.offset };
      reset = reset;
      lines = out.lines;
    }
  ]
]

-- Read from the Seek on: the fuel is one more than the bytes that it may read, and each read brings
-- a byte or ends.
unfoldable pub scan : Opened → Bool → Reader → Output
scan f reset r =
    if f.seeks
    then finish f reset (read_loop f.sys (suc r.max_read) 0 0 r)
    else record { error = some io_error; reader = r; reset = reset; lines = [] }

unfoldable pub read : Reader → Open → Output
read r (refused e) = record { error = some e; reader = r; reset = false; lines = [] }
read r (opened f) = scan f (replaced r f) (ready r f)
