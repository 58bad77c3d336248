-- ===== src/Registration/Remove.antt =====
-- internal/registration/registration.go: Remove. Where a system call fails is an argument.
use llm_metrics_exporter.Base.{
  ◌≡◌, ◌≢◌, ◌↔◌, refl, ap, ◌∙◌, Bool, true, false, not, ◌||◌, Option, none, some, ◌++◌, Bytes,
  codes, same_bytes, same_bytes_iff, if◌then◌else◌, arith, if-elim,
}
use llm_metrics_exporter.Base.Assoc.{get, delete}
use llm_metrics_exporter.Registration.{is_backend, is_empty}
use llm_metrics_exporter.Registration.Load.{Codec, suffix}
use llm_metrics_exporter.Registration.Write.{Dir}

-- The system calls that fail.
pub record RemoveSystem : Type 0 where
  pub stat_fails : Bool
  pub lock_fails : Bool
  pub read_fails : Bool
  pub remove_fails : Bool

-- No system call fails.
abbrev pub none_fails : RemoveSystem
none_fails = record {
  stat_fails = false;
  lock_fails = false;
  read_fails = false;
  remove_fails = false;
}

pub data RemoveError : Type 0 where
  bad_name not_exist io_error undecodable : RemoveError
  -- ErrRunIDMismatch, with the run_id of the file
  other_run : Bytes → RemoveError

pub record Removed : Type 0 where
  pub error : Option RemoveError
  pub dir : Dir

-- head.RunID, "static" where it is empty
unfoldable pub owner : Bytes → Bytes
owner run_id = if is_empty run_id then codes "static" else run_id

refuse : RemoveError → Dir → Removed
refuse e dir = record { error = some e; dir = dir }

remove_file : RemoveSystem → Bytes → Dir → Removed
unfolding refuse
remove_file os name dir =
    if os.remove_fails then refuse io_error dir else record { error = none; dir = delete name dir }

by_head : Option Bytes → RemoveSystem → Bytes → Bytes → Dir → Removed
unfolding refuse remove_file owner
by_head none os name run_id dir = refuse undecodable dir
by_head (some id) os name run_id dir =
    if not (same_bytes (owner id) run_id)
    then refuse (other_run (owner id)) dir
    else remove_file os name dir

owner_of : Option Bytes → Option Bytes
owner_of none = none
owner_of (some id) = some (owner id)

module _ (codec : Codec) where
  by_body : Option Bytes → RemoveSystem → Bytes → Bytes → Dir → Removed
  unfolding refuse by_head
  by_body none os name run_id dir = refuse not_exist dir
  by_body (some body) os name run_id dir =
      if os.read_fails then refuse io_error dir else by_head (codec.head body) os name run_id dir

  by_stat : Option Bytes → RemoveSystem → Bytes → Bytes → Dir → Removed
  unfolding refuse by_body
  by_stat none os name run_id dir = refuse not_exist dir
  by_stat (some seen) os name run_id dir =
      if os.stat_fails || os.lock_fails
      then refuse io_error dir
      else by_body (get name dir) os name run_id dir

  -- Remove. Stat sees one directory; under the lock, which comes later, it may be another.
  pub remove : RemoveSystem → Bytes → Bytes → Dir → Dir → Removed
  unfolding refuse by_stat
  remove os backend run_id seen dir =
      if not (is_backend backend)
      then refuse bad_name dir
      else by_stat (get (backend ++ suffix) seen) os (backend ++ suffix) run_id dir

  -- The run that a directory's file of this name belongs to.
  pub run_in : Option Bytes → Option Bytes
  unfolding owner_of
  run_in none = none
  run_in (some body) = owner_of (codec.head body)

  abbrev pub run_of : Dir → Bytes → Option Bytes
  run_of dir name = run_in (get name dir)

  -- A successful Remove takes away the backend's file alone, and only when it belongs to this run;
  -- after any error the directory is as it was.
  pub data Owned (backend run_id : Bytes) (dir : Dir) : Removed → Type 0 where
    kept : (e : RemoveError) → Owned backend run_id dir (record { error = some e; dir = dir })
    taken :
        run_of dir (backend ++ suffix) ≡ some run_id
        → Owned backend run_id dir (record { error = none; dir = delete (backend ++ suffix) dir })

  -- A successful Remove takes away the backend's file alone, and only when it belongs to this
  -- run; after any error the directory is as it was.
  pub remove-Owned :
      (os : RemoveSystem) (backend run_id : Bytes) (seen dir : Dir)
      → Owned backend run_id dir (remove os backend run_id seen dir)
  unfolding remove refuse run_in owner_of by_stat by_body by_head remove_file
  remove-Owned os backend run_id seen dir =
      if-elim (Owned backend run_id dir) (not (is_backend backend)) (λ t. kept bad_name)
        (λ f. by_stat-Owned (get (backend ++ suffix) seen))
    where
      remove_file-Owned :
          run_of dir (backend ++ suffix) ≡ some run_id
          → Owned backend run_id dir (remove_file os (backend ++ suffix) dir)
      remove_file-Owned e =
          if-elim (Owned backend run_id dir) os.remove_fails (λ t. kept io_error) (λ f. taken e)

      by_head-Owned :
          (h : Option Bytes)
          → run_of dir (backend ++ suffix) ≡ owner_of h
          → Owned backend run_id dir (by_head h os (backend ++ suffix) run_id dir)
      by_head-Owned none e = kept undecodable
      by_head-Owned (some id) e =
          if-elim (Owned backend run_id dir) (not (same_bytes (owner id) run_id))
            (λ t. kept (other_run (owner id)))
            (λ f.
              remove_file-Owned (e ∙ ap some (ground (arith, same_bytes_iff (owner id) run_id, f))))

      by_body-Owned :
          (b : Option Bytes)
          → get (backend ++ suffix) dir ≡ b
          → Owned backend run_id dir (by_body b os (backend ++ suffix) run_id dir)
      by_body-Owned none e = kept not_exist
      by_body-Owned (some body) e =
          if-elim (Owned backend run_id dir) os.read_fails (λ t. kept io_error)
            (λ f. by_head-Owned (codec.head body) (ap run_in e))

      by_stat-Owned :
          (o : Option Bytes)
          → Owned backend run_id dir (by_stat o os (backend ++ suffix) run_id dir)
      by_stat-Owned none = kept not_exist
      by_stat-Owned (some x) =
          if-elim (Owned backend run_id dir) (os.stat_fails || os.lock_fails) (λ t. kept io_error)
            (λ f. by_body-Owned (get (backend ++ suffix) dir) refl)

  -- What the head of the file decides where no system call fails.
  abbrev Decided : (backend run_id : Bytes) → Dir → Option Bytes → Removed → Type 0
  Decided backend run_id dir run out =
      ((out.error ≡ none) ↔ (run ≡ some run_id))
      × ((newer : Bytes)
          → run ≡ some newer
          → newer ≢ run_id
          → out ≡ record { error = some (other_run newer); dir = dir })

  by_head-Decided :
      (backend run_id : Bytes) (dir : Dir) (h : Option Bytes)
      → Decided backend run_id dir
          (owner_of h)
          (by_head h none_fails (backend ++ suffix) run_id dir)
  unfolding owner_of by_head refuse remove_file
  by_head-Decided backend run_id dir none = ((λ e. cc, λ e. cc), λ newer e d. cc)
  by_head-Decided backend run_id dir (some id) =
      if-elim (Decided backend run_id dir (some (owner id))) (not (same_bytes (owner id) run_id))
        (λ t. (
          (λ e. cc, λ e. absurd (ground (arith, same_bytes_iff (owner id) run_id, t, e))),
          λ newer e d.
              ap (λ o. record { error = some (other_run o); dir = dir }) (ground (arith, e)),
        ))
        (λ f. (
          (λ e. ap some (ground (arith, same_bytes_iff (owner id) run_id, f)), λ e. refl),
          λ newer e d. absurd (d (ground (arith, same_bytes_iff (owner id) run_id, f, e))),
        ))

  by_body-Decided :
      (backend run_id : Bytes) (dir : Dir) (b : Option Bytes)
      → Decided backend run_id dir (run_in b) (by_body b none_fails (backend ++ suffix) run_id dir)
  unfolding run_in by_body refuse
  by_body-Decided backend run_id dir none = ((λ e. cc, λ e. cc), λ newer e d. cc)
  by_body-Decided backend run_id dir (some body) =
      by_head-Decided backend run_id dir (codec.head body)

  -- Where the file is seen and no system call fails, Remove succeeds exactly if the file still
  -- belongs to this run when the directory is locked; a newer run's file is left, with the error
  -- that says whose it is.
  pub remove_lem :
      (backend run_id : Bytes) (seen dir : Dir) (old : Bytes)
      → is_backend backend ≡ true
      → get (backend ++ suffix) seen ≡ some old
      → (((remove none_fails backend run_id seen dir).error ≡ none)
          ↔ (run_of dir (backend ++ suffix) ≡ some run_id))
        × ((newer : Bytes)
            → run_of dir (backend ++ suffix) ≡ some newer
            → newer ≢ run_id
            → remove none_fails backend run_id seen dir
              ≡ record { error = some (other_run newer); dir = dir })
  unfolding remove by_stat
  remove_lem backend run_id seen dir old ok e =
      rw (ok, e) (by_body-Decided backend run_id dir (get (backend ++ suffix) dir))
