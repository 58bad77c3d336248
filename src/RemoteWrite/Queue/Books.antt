-- ===== src/RemoteWrite/Queue/Books.antt =====
-- The queue's books: the files that the sender lists are on disk, under rising times, and the
-- status counts them and their bytes.
use llm_metrics_exporter.Base.{
  ℕ, ◌+◌, ◌-◌, ◌≤◌, ◌<◌, ◌≡◌, ◌≢◌, refl, sym, ap, ◌∙◌, Option, none, some, List, [], ◌∷◌, ◌++◌,
  Bytes, arith, length,
}
use llm_metrics_exporter.Base.Assoc.{Assoc, get, put, delete, get-put_ne, get-delete_ne}
use llm_metrics_exporter.RemoteWrite.Queue.{Sender, queue_name, state_name}
use llm_metrics_exporter.RemoteWrite.Queue.Names.{queue_name-injective, state_name-ne-queue_name}

abbrev pub All {ℓ} : (Bytes → Type ℓ) → List Bytes → Type ℓ
All P [] = Unit
All P (n ∷ ns) = P n × All P ns

-- The name of a time above `lo`, and of a time up to `hi`.
abbrev pub After : ℕ → Bytes → Type 0
After lo n = (ts : ℕ) × (n ≡ queue_name ts) × (lo < ts)

abbrev pub UpTo : ℕ → Bytes → Type 0
UpTo hi n = (ts : ℕ) × (n ≡ queue_name ts) × (ts ≤ hi)

-- The names of rising times.
abbrev pub Rising : List Bytes → Type 0
Rising [] = Unit
Rising (n ∷ ns) = ((ts : ℕ) × (n ≡ queue_name ts) × All (After ts) ns) × Rising ns

abbrev pub Absent : Bytes → List Bytes → Type 0
Absent k = All (λ n. n ≢ k)

abbrev pub size : Option Bytes → ℕ
size none = 0
size (some b) = length b

abbrev pub total : Assoc Bytes → List Bytes → ℕ
total disk [] = 0
total disk (n ∷ ns) = size (get n disk) + total disk ns

abbrev pub IsOn : Assoc Bytes → Bytes → Type 0
IsOn disk n = (body : Bytes) × (get n disk ≡ some body)

-- The two directories hold the same under these names.
abbrev pub SameOn : Assoc Bytes → Assoc Bytes → List Bytes → Type 0
SameOn d e = All (λ n. get n e ≡ get n d)

pub put-SameOn :
    (k : Bytes) (v : Bytes) (d : Assoc Bytes) (ns : List Bytes)
    → Absent k ns
    → SameOn d (put k v d) ns
put-SameOn k v d [] h = tt
put-SameOn k v d (n ∷ ns) h = (get-put_ne k n v d h.0, put-SameOn k v d ns h.1)

pub delete-SameOn :
    (k : Bytes) (d : Assoc Bytes) (ns : List Bytes) → Absent k ns → SameOn d (delete k d) ns
delete-SameOn k d [] h = tt
delete-SameOn k d (n ∷ ns) h = (get-delete_ne k n d h.0, delete-SameOn k d ns h.1)

pub SameOn-trans :
    (d e f : Assoc Bytes) (ns : List Bytes) → SameOn d e ns → SameOn e f ns → SameOn d f ns
SameOn-trans d e f [] h k = tt
SameOn-trans d e f (n ∷ ns) h k = (k.0 ∙ h.0, SameOn-trans d e f ns h.1 k.1)

pub total-SameOn : (d e : Assoc Bytes) (ns : List Bytes) → SameOn d e ns → total e ns ≡ total d ns
total-SameOn d e [] h = refl
total-SameOn d e (n ∷ ns) h = omega (arith, ap size h.0, total-SameOn d e ns h.1)

pub IsOn-SameOn :
    (d e : Assoc Bytes) (ns : List Bytes) → SameOn d e ns → All (IsOn d) ns → All (IsOn e) ns
IsOn-SameOn d e [] h k = tt
IsOn-SameOn d e (n ∷ ns) h k = ((k.0.0, h.0 ∙ k.0.1), IsOn-SameOn d e ns h.1 k.1)

pub total-remove :
    (disk : Assoc Bytes) (name : Bytes) (rest : List Bytes) (body : Bytes) (n : ℕ)
    → get name disk ≡ some body
    → Absent name rest
    → n ≡ total disk (name ∷ rest)
    → n - length body ≡ total (delete name disk) rest
total-remove disk name rest body n found h e =
    let same = total-SameOn disk (delete name disk) rest (delete-SameOn name disk rest h) in
    omega (arith, e, ap size found, same)

pub total-append :
    (d : Assoc Bytes) (xs ys : List Bytes) → total d (xs ++ ys) ≡ total d xs + total d ys
total-append d [] ys = omega arith
total-append d (x ∷ xs) ys = omega (arith, total-append d xs ys)

pub All-append {ℓ} :
    (P : Bytes → Type ℓ) (xs ys : List Bytes) → All P xs → All P ys → All P (xs ++ ys)
All-append P [] ys h k = k
All-append P (x ∷ xs) ys h k = (h.0, All-append P xs ys h.1 k)

pub UpTo-mono : (lo hi : ℕ) (ns : List Bytes) → lo ≤ hi → All (UpTo lo) ns → All (UpTo hi) ns
UpTo-mono lo hi [] h k = tt
UpTo-mono lo hi (n ∷ ns) h k = ((k.0.0, k.0.1, omega (arith, k.0.2)), UpTo-mono lo hi ns h k.1)

pub After-Absent : (ts : ℕ) (ns : List Bytes) → All (After ts) ns → Absent (queue_name ts) ns
After-Absent ts [] h = tt
After-Absent ts (n ∷ ns) h = (
  λ e. absurd (omega (arith, queue_name-injective h.0.0 ts (sym h.0.1 ∙ e), h.0.2)),
  After-Absent ts ns h.1,
)

-- A later time's name is not among them.
pub UpTo-Absent :
    (hi ts : ℕ) (ns : List Bytes) → hi < ts → All (UpTo hi) ns → Absent (queue_name ts) ns
UpTo-Absent hi ts [] h k = tt
UpTo-Absent hi ts (n ∷ ns) h k = (
  λ e. absurd (omega (arith, queue_name-injective k.0.0 ts (sym k.0.1 ∙ e), k.0.2)),
  UpTo-Absent hi ts ns h k.1,
)

pub UpTo-Absent_state : (hi : ℕ) (ns : List Bytes) → All (UpTo hi) ns → Absent state_name ns
UpTo-Absent_state hi [] h = tt
UpTo-Absent_state hi (n ∷ ns) h =
    (λ e. state_name-ne-queue_name h.0.0 (sym e ∙ h.0.1), UpTo-Absent_state hi ns h.1)

UpTo-After :
    (hi ts u : ℕ) (ns : List Bytes)
    → hi < ts
    → u ≤ hi
    → All (After u) ns
    → All (After u) (ns ++ (queue_name ts ∷ []))
UpTo-After hi ts u ns h le k = All-append (After u) ns _ k ((ts, refl, omega arith), tt)

-- The names stay rising when a later one goes to the end.
pub Rising-append :
    (hi ts : ℕ) (ns : List Bytes)
    → hi < ts
    → All (UpTo hi) ns
    → Rising ns
    → Rising (ns ++ (queue_name ts ∷ []))
Rising-append hi ts [] h k r = ((ts, refl, tt), tt)
Rising-append hi ts (n ∷ ns) h k r =
    let same = queue_name-injective r.0.0 k.0.0 (sym r.0.1 ∙ k.0.1) in
    (
      (r.0.0, r.0.1, UpTo-After hi ts r.0.0 ns h (omega (arith, same, k.0.2)) r.0.2),
      Rising-append hi ts ns h k.1 r.1,
    )

-- What holds of a sender between operations.
pub record Sound (s : Sender) : Type 0 where
  pub batches : s.status.queued_batches ≡ length s.files
  pub bytes : s.status.queued_bytes ≡ total s.disk s.files
  pub on_disk : All (IsOn s.disk) s.files
  pub rising : Rising s.files
  pub past : All (UpTo s.timestamp) s.files
  pub within_cap : s.status.queued_bytes ≤ s.opts.max_bytes
