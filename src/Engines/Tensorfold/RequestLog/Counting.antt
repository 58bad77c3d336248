-- ===== src/Engines/Tensorfold/RequestLog/Counting.antt =====
-- What internal/adapter/tensorfold/reqlog.go counts over the life of a log.
use mathlib.Core.List.{foldl}
use llm_metrics_exporter.Base.{
  ℕ, ◌+◌, ◌%◌, ◌^◌, ◌≡◌, refl, ◌∙◌, ap, sym, subst, Bool, ◌&&◌, Option, none, some, List, [], ◌∷◌,
  ◌++◌, String, Bytes, str_eq, eq_iff, arith, take, if◌then◌else◌, ◌==◌, Bool-cases, inl, inr,
}
use llm_metrics_exporter.Base.Floats.{Floats}
use llm_metrics_exporter.Promtext.{Families}
use llm_metrics_exporter.Tail.{Open, Opened, opened, refused, Error}
use llm_metrics_exporter.Tail.Counting as Tally
use llm_metrics_exporter.Tail.Lines.{owed}
use llm_metrics_exporter.Tail.Exact.{Found, Holds}
use llm_metrics_exporter.Adapter.{MapError}
use llm_metrics_exporter.Engines.{pull_collect}
use llm_metrics_exporter.Engines.Tensorfold.{tensorfold_map}
use llm_metrics_exporter.Engines.Tensorfold.RequestLog.{
  LogAdapter, Finished, get_finished, bump, start, parse_finish, on_line, after_map, log_collect,
  collect,
}

-- One more.
more : Option ℕ → ℕ
more none = 1
more (some n) = (n + 1) % 2 ^ 64

get_finished-bump :
    (m : Finished) (s t : String)
    → get_finished (bump m s) t
      ≡ (if str_eq s t then some (more (get_finished m t)) else get_finished m t)
unfolding get_finished bump more
get_finished-bump [] s t = ground arith
get_finished-bump ((k, n) ∷ m) s t =
    ground (arith, eq_iff k s, eq_iff k t, eq_iff s t, get_finished-bump m s t)

-- What the map holds after so many lines; no entry means none.
pub reported : ℕ → Option ℕ
reported n = if n == 0 then none else some (n % 2 ^ 64)

more-reported : (n : ℕ) → some (more (reported n)) ≡ reported (n + 1)
unfolding more reported
more-reported n = ground arith

module _ (decode : Bytes → Option (Option String)) where
  -- The lines that give this finish reason.
  abbrev gives : String → Bytes → Bool
  gives s line = (parse_finish decode line).1 && str_eq (parse_finish decode line).0 s

  abbrev pub occurrences : String → List Bytes → ℕ
  occurrences s [] = 0
  occurrences s (l ∷ ls) = (if gives s l then 1 else 0) + occurrences s ls

  get_finished-on_line :
      (m : Finished) (l : Bytes) (s : String)
      → get_finished (on_line decode m l) s
        ≡ (if gives s l then some (more (get_finished m s)) else get_finished m s)
  unfolding on_line
  get_finished-on_line m l s = ground (arith, get_finished-bump m (parse_finish decode l).0 s)

  fold-reported :
      (m : Finished) (n : ℕ) (ls : List Bytes) (s : String)
      → get_finished m s ≡ reported n
      → get_finished (foldl (on_line decode) m ls) s ≡ reported (n + occurrences s ls)
  fold-reported m n [] s h = let e : n + 0 ≡ n = omega arith in rw e h
  fold-reported m n (l ∷ ls) s h = elim (Bool-cases (gives s l)) [
    | inl t ↦
        let e : n + (1 + occurrences s ls) ≡ (n + 1) + occurrences s ls = omega arith in
        let one =
          get_finished-on_line m l s
          ∙ ap (λ b. if b then some (more (get_finished m s)) else get_finished m s) t
          ∙ ap (λ o. some (more o)) h
          ∙ more-reported n in
        rw (t, e) (fold-reported (on_line decode m l) (n + 1) ls s one)
    | inr f ↦
        let same =
          get_finished-on_line m l s
          ∙ ap (λ b. if b then some (more (get_finished m s)) else get_finished m s) f
          ∙ h in
        let e : n + (0 + occurrences s ls) ≡ n + occurrences s ls = omega arith in
        rw (f, e) (fold-reported (on_line decode m l) n ls s same)
  ]

  module _ (fl : Floats) (max_read : ℕ) where
    -- The log's identity and bytes, and the adapter, over growth, rotation, truncation, failed
    -- scrapes and failed reads.
    pub data Life : ℕ → Bytes → LogAdapter → Type 0 where
      born : (id : ℕ) (content : Bytes) → Life id content (start max_read)
      grown :
          {id : ℕ} {content : Bytes} {a : LogAdapter} (extra : Bytes)
          → Life id content a
          → Life id (content ++ extra) a
      down :
          {id : ℕ} {content : Bytes} {a : LogAdapter} (served : String)
          (fetched : Option (Families fl.F)) (o : Open) (e : MapError)
          → (pull_collect (tensorfold_map fl) served fetched).error ≡ some e
          → Life id content a
          → Life id content (collect decode fl a served fetched o).1
      missed :
          {id : ℕ} {content : Bytes} {a : LogAdapter} (served : String)
          (fetched : Option (Families fl.F)) (e : Error)
          → (pull_collect (tensorfold_map fl) served fetched).error ≡ none
          → Life id content a
          → Life id content (collect decode fl a served fetched (refused e)).1
      polled :
          {id id' : ℕ} {content content' : Bytes} {a : LogAdapter} (served : String)
          (fetched : Option (Families fl.F)) (f : Opened)
          → (pull_collect (tensorfold_map fl) served fetched).error ≡ none
          → Found id content a.tail id' content'
          → Holds id' content' f
          → Life id content a
          → Life id' content' (collect decode fl a served fetched (opened f)).1

    -- The reader and the counts, without the scrape.
    Logs : ℕ → Bytes → LogAdapter → Type 0
    Logs id content a =
        Tally.Life [] (on_line decode) max_read (2 ^ 20) id content a.tail a.finished

    collect_down :
        (a : LogAdapter) (served : String) (fetched : Option (Families fl.F)) (o : Open)
        (e : MapError)
        → (pull_collect (tensorfold_map fl) served fetched).error ≡ some e
        → (collect decode fl a served fetched o).1 ≡ a
    unfolding collect after_map
    collect_down a served fetched o e h = rw (h, after_map)

    collect_up :
        (a : LogAdapter) (served : String) (fetched : Option (Families fl.F)) (o : Open)
        → (pull_collect (tensorfold_map fl) served fetched).error ≡ none
        → (collect decode fl a served fetched o).1
          ≡ (log_collect decode fl (pull_collect (tensorfold_map fl) served fetched).result a o).1
    unfolding collect after_map
    collect_up a served fetched o h = rw (h, after_map)

    Life-Logs : {id : ℕ} {content : Bytes} {a : LogAdapter} → Life id content a → Logs id content a
    unfolding start Logs log_collect
    Life-Logs (born id content) = Tally.born id content
    Life-Logs (grown extra h) = Tally.grown extra (Life-Logs h)
    Life-Logs (down {id} {content} {a} served fetched o e m h) =
        subst (Logs id content) (sym (collect_down a served fetched o e m)) (Life-Logs h)
    Life-Logs (missed {id} {content} {a} served fetched e m h) =
        subst (Logs id content) (sym (collect_up a served fetched (refused e) m))
          (Tally.missed e (Life-Logs h))
    Life-Logs (polled {id' = id'} {content' = content'} {a = a} served fetched f m at o h) =
        subst (Logs id' content') (sym (collect_up a served fetched (opened f) m))
          (Tally.polled f at o (Life-Logs h))

    -- Whatever the collections met (a failed scrape, a body that no mapping takes, a missing log,
    -- short reads, a read error, growth, rotation to a file of another identity, truncation to less
    -- than was read), the map holds for each finish reason the number
    -- of complete lines that give it, modulo 2^64, among those of at most 2^20 bytes in the part of
    -- the present log that has been read, and no entry where there is none.
    pub Life-finished :
        {id : ℕ} {content : Bytes} {a : LogAdapter} (status : String)
        → Life id content a
        → get_finished a.finished status
          ≡ reported (occurrences status (owed (2 ^ 20) (take a.tail.offset content)))
    unfolding Logs get_finished reported
    Life-finished {id} {content} {a} status h =
        let lines = owed (2 ^ 20) (take a.tail.offset content) in
        ap (λ m. get_finished m status)
          (Tally.Life-count [] (on_line decode) max_read (2 ^ 20) (omega arith) (Life-Logs h))
        ∙ fold-reported [] 0 lines status refl
        ∙ ap reported (omega arith)
