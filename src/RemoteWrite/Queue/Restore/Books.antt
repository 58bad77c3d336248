-- ===== src/RemoteWrite/Queue/Restore/Books.antt =====
-- restore of internal/remotewrite/sender.go: the books of the sender that a restart opens.
use llm_metrics_exporter.Base.{
  ◌+◌, ◌≤◌, ◌≡◌, refl, sym, ap, subst, ◌∙◌, Bool, true, false, not, ◌||◌, Option, none, some, List,
  [], ◌∷◌, ◌++◌, Bytes, length, ltb, arith, if◌then◌else◌, if-elim, has_suffix, same_bytes,
  same_bytes_iff,
}
use llm_metrics_exporter.Base.Assoc.{Assoc, get, delete, get-delete_ne, Unique, put-Unique}
use llm_metrics_exporter.Base.Order.{sort_by, insert_by, bytes_lt, Ordered, sort_by-Ordered}
use llm_metrics_exporter.RemoteWrite.Queue.{
  Options, Sender, Write, done, early, late, atomic_write, max_batch, suffix,
}
use llm_metrics_exporter.RemoteWrite.Queue.Books.{
  All, IsOn, Absent, delete-SameOn, size, total, total-SameOn, IsOn-SameOn, total-append,
  All-append,
}
use llm_metrics_exporter.RemoteWrite.Queue.Restore.{
  Attempt, failed, ok, Decoder, System, Scan, Snapshot, is_pending, is_int, stem, scan_entry, scan,
  read_candidates, opened, after_scan, list_dir, by_manifest, check_destination, destination_name,
  restore, system_error, bad_name, bad_file,
}
use llm_metrics_exporter.RemoteWrite.Queue.Restore.Recovered.{then_do-ok, guard-ok, ok-injective}

insert_by-All :
    (P : Bytes → Type 0) (n : Bytes) (ns : List Bytes)
    → P n
    → All P ns
    → All P (insert_by (λ x. x) n ns)
unfolding insert_by
insert_by-All P n [] h k = (h, tt)
insert_by-All P n (m ∷ ns) h k =
    if-elim (All P) (bytes_lt m n) (λ t. (k.0, insert_by-All P n ns h k.1)) (λ f. (h, k))

sort_by-All : (P : Bytes → Type 0) (ns : List Bytes) → All P ns → All P (sort_by (λ x. x) ns)
unfolding sort_by
sort_by-All P [] k = tt
sort_by-All P (n ∷ ns) k = insert_by-All P n (sort_by (λ x. x) ns) k.0 (sort_by-All P ns k.1)

total-insert_by :
    (disk : Assoc Bytes) (n : Bytes) (ns : List Bytes)
    → total disk (insert_by (λ x. x) n ns) ≡ total disk (n ∷ ns)
unfolding insert_by
total-insert_by disk n [] = refl
total-insert_by disk n (m ∷ ns) =
    if-elim (λ l. total disk l ≡ total disk (n ∷ m ∷ ns)) (bytes_lt m n)
      (λ t. omega (arith, total-insert_by disk n ns)) (λ f. refl)

total-sort_by :
    (disk : Assoc Bytes) (ns : List Bytes) → total disk (sort_by (λ x. x) ns) ≡ total disk ns
unfolding sort_by
total-sort_by disk [] = refl
total-sort_by disk (n ∷ ns) =
    omega (arith, total-insert_by disk n (sort_by (λ x. x) ns), total-sort_by disk ns)

-- These entries are on the disk.
abbrev Listed : Assoc Bytes → Assoc Bytes → Type 0
Listed disk [] = Unit
Listed disk ((name, body) ∷ rest) = (get name disk ≡ some body) × Listed disk rest

-- What the scan keeps, with the entries that it has not seen.
record Scanned (s : Scan) (rest : Assoc Bytes) : Type 0 where
  on : All (IsOn s.disk) s.files
  plain : All (λ n. is_pending n ≡ false) s.files
  sum : s.bytes ≡ total s.disk s.files
  listed : Listed s.disk rest
  unique : Unique rest

Listed-delete :
    (disk rest : Assoc Bytes) (name : Bytes)
    → get name rest ≡ none
    → Listed disk rest
    → Listed (delete name disk) rest
unfolding get
Listed-delete disk [] name n l = tt
Listed-delete disk ((k, body) ∷ rest) name n l = (
  get-delete_ne name k disk (λ e. ground (arith, same_bytes_iff k name, n, e)) ∙ l.0,
  Listed-delete disk rest name (ground (arith, n)) l.1,
)

Listed-cons :
    (m rest : Assoc Bytes) (k v : Bytes)
    → get k rest ≡ none
    → Listed m rest
    → Listed ((k, v) ∷ m) rest
unfolding get
Listed-cons m [] k v n l = tt
Listed-cons m ((j, b) ∷ rest) k v n l = (
  if-elim (λ o. o ≡ some b) (same_bytes k j)
      (λ t. absurd (ground (arith, same_bytes_iff k j, same_bytes_iff j k, n, t))) (λ f. l.0),
  Listed-cons m rest k v (ground (arith, n)) l.1,
)

Listed_all : (disk : Assoc Bytes) → Unique disk → Listed disk disk
unfolding get
Listed_all [] u = tt
Listed_all ((k, v) ∷ m) u = (
  if-elim (λ o. o ≡ some v) (same_bytes k k) (λ t. refl)
      (λ f. absurd (ground (arith, same_bytes_iff k k, f))),
  Listed-cons m m k v u.0 (Listed_all m u.1),
)

Absent-pending :
    (name : Bytes) (ns : List Bytes)
    → is_pending name ≡ true
    → All (λ n. is_pending n ≡ false) ns
    → Absent name ns
Absent-pending name [] p h = tt
Absent-pending name (n ∷ ns) p h = (
  λ e. let no = h.0 in let yes = subst (λ x. is_pending x ≡ true) (sym e) p in cc,
  Absent-pending name ns p h.1,
)

module _ (decoder : Decoder) (os : System) where
  scan_entry-Scanned :
      (s next : Scan) (name body : Bytes) (rest : Assoc Bytes)
      → Scanned s ((name, body) ∷ rest)
      → scan_entry decoder os s name body ≡ ok next
      → Scanned next rest
  unfolding scan_entry
  scan_entry-Scanned s next name body rest h =
      if-elim Kept (is_pending name)
        (λ p. if-elim Kept (os.unremovable name) (λ t e. cc) (λ f. keep (removed p)))
        (λ q.
          if-elim Kept (not (has_suffix name suffix)) (λ t. keep passed)
            (λ f e. keep (queued q) (
              guard-ok (not (os.is_regular name) || ltb max_batch (length body)) bad_file _ (
                guard-ok (os.no_info name) system_error _
                  (guard-ok (not (is_int (stem name))) bad_name _ e)))))
    where
      Kept : Attempt Scan → Type 0
      Kept m = m ≡ ok next → Scanned next rest

      keep : {x : Scan} → Scanned x rest → ok x ≡ ok next → Scanned next rest
      keep k e = subst (λ x. Scanned x rest) (ok-injective e) k

      removed : is_pending name ≡ true → Scanned (record s { disk = delete name s.disk }) rest
      removed p =
          let same = delete-SameOn name s.disk s.files (Absent-pending name s.files p h.plain) in
          record {
            on = IsOn-SameOn s.disk (delete name s.disk) s.files same h.on;
            plain = h.plain;
            sum = h.sum ∙ sym (total-SameOn s.disk (delete name s.disk) s.files same);
            listed = Listed-delete s.disk rest name h.unique.0 h.listed.1;
            unique = h.unique.1;
          }

      passed : Scanned s rest
      passed = record {
        on = h.on;
        plain = h.plain;
        sum = h.sum;
        listed = h.listed.1;
        unique = h.unique.1;
      }

      queued :
          is_pending name ≡ false
          → Scanned
              (record s { files = s.files ++ (name ∷ []); bytes = s.bytes + length body })
              rest
      queued q = record {
        on = All-append (IsOn s.disk) s.files (name ∷ []) h.on ((body, h.listed.0), tt);
        plain = All-append (λ n. is_pending n ≡ false) s.files (name ∷ []) h.plain (q, tt);
        sum = omega (arith, h.sum, total-append s.disk s.files (name ∷ []), ap size h.listed.0);
        listed = h.listed.1;
        unique = h.unique.1;
      }

  scan-Scanned :
      (s next : Scan) (rest : Assoc Bytes)
      → Scanned s rest
      → scan decoder os s rest ≡ ok next
      → Scanned next []
  unfolding scan
  scan-Scanned s next [] h e = subst (λ x. Scanned x []) (ok-injective e) h
  scan-Scanned s next ((name, body) ∷ rest) h e =
      let first = then_do-ok (scan_entry decoder os s name body) (λ x. scan decoder os x rest) e in
      scan-Scanned first.0 next rest (scan_entry-Scanned s first.0 name body rest h first.1) first.2

  -- The books of the sender: its files are on the disk, in the order of their names; the status
  -- counts them and their bytes, which are within the cap.
  pub record Kept (opts : Options) (s : Sender) : Type 0 where
    pub on_disk : All (IsOn s.disk) s.files
    pub ordered : Ordered (λ x. x) s.files
    pub bytes : s.status.queued_bytes ≡ total s.disk s.files
    pub batches : s.status.queued_batches ≡ length s.files
    pub within_cap : s.status.queued_bytes ≤ opts.max_bytes
    pub no_pending : All (λ n. is_pending n ≡ false) s.files

  opened-Kept :
      (opts : Options) (sc : Scan) (snap : Snapshot)
      → Scanned sc []
      → sc.bytes ≤ opts.max_bytes
      → Kept opts (opened decoder os opts sc snap)
  unfolding opened
  opened-Kept opts sc snap h cap = record {
    on_disk = sort_by-All (IsOn sc.disk) sc.files h.on;
    ordered = sort_by-Ordered (λ x. x) sc.files;
    bytes = h.sum ∙ sym (total-sort_by sc.disk sc.files);
    batches = refl;
    within_cap = cap;
    no_pending = sort_by-All (λ n. is_pending n ≡ false) sc.files h.plain;
  }

  after_scan-Kept :
      (opts : Options) (sc : Scan) (s : Sender)
      → Scanned sc []
      → after_scan decoder os opts sc ≡ ok s
      → Kept opts s
  unfolding after_scan
  after_scan-Kept opts sc s h =
      if-elim (λ m. m ≡ ok s → Kept opts s) (ltb opts.max_bytes sc.bytes) (λ t e. cc)
        (λ f e.
          let read =
            then_do-ok (read_candidates decoder os sc.disk (sort_by (λ n. n) sc.files))
              (λ x. ok (opened decoder os opts sc x)) e in
          subst (Kept opts) (ok-injective read.2)
            (opened-Kept opts sc read.0 h (ground (arith, f))))

  list_dir-Kept :
      (opts : Options) (disk : Assoc Bytes) (s : Sender)
      → Unique disk
      → list_dir decoder os opts disk ≡ ok s
      → Kept opts s
  unfolding list_dir
  list_dir-Kept opts disk s u h =
      let begin : Scan = record { disk = disk; files = []; bytes = 0 } in
      let scanned =
        then_do-ok (scan decoder os begin disk) (after_scan decoder os opts)
          (guard-ok os.unlisted system_error _ h) in
      after_scan-Kept opts scanned.0 s
        (scan-Scanned begin scanned.0 disk
          (record { on = tt; plain = tt; sum = refl; listed = Listed_all disk u; unique = u })
          scanned.1)
        scanned.2

  by_manifest-Unique :
      (cannot : Bool) (o : Option Bytes) (want : Bytes) (disk after : Assoc Bytes)
      → Unique disk
      → by_manifest decoder os cannot o want disk ≡ ok after
      → Unique after
  unfolding by_manifest atomic_write
  by_manifest-Unique true o want disk after u = λ e. cc
  by_manifest-Unique false (some body) want disk after u =
      if-elim (λ m. m ≡ ok after → Unique after) (same_bytes body want)
        (λ t e. subst Unique (ok-injective e) u) (λ f e. cc)
  by_manifest-Unique false none want disk after u = written os.destination
    where
      written :
          (w : Write)
          → (if (atomic_write w disk destination_name want).0
              then ok (atomic_write w disk destination_name want).1
              else failed system_error)
            ≡ ok after
          → Unique after
      written done e = subst Unique (ok-injective e) (put-Unique destination_name want disk u)
      written early e = cc
      written late e = cc

  -- When a restart succeeds, on a directory in which no two files have one name, its books are kept:
  -- each file that it queues is on the disk, in the order of their names, and is none of an unfinished
  -- write; the status counts the files and their bytes, and the bytes are within the cap.
  pub restore-Kept :
      (opts : Options) (url : Bytes) (disk : Assoc Bytes) (s : Sender)
      → Unique disk
      → restore decoder os opts url disk ≡ ok s
      → Kept opts s
  unfolding restore check_destination
  restore-Kept opts url disk s u h =
      let checked =
        then_do-ok (check_destination decoder os url opts.host disk) (list_dir decoder os opts) h in
      list_dir-Kept opts checked.0 s
        (by_manifest-Unique (os.unreadable destination_name) (get destination_name disk) _ disk
          checked.0 u checked.1)
        checked.2
