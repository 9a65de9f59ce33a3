-- ===== src/PatchApply/Applying.antt =====
-- The operations on a target directory (patchapply/patchapply.go: validateChangePaths, applyAll, Apply,
-- Rollback, Verify), on the disk and the options with their broker.
use modulex.Prelude.{
  ℕ, String, Bool, true, false, not, ◌&&◌, if◌then◌else◌, nat_eq, Option, none, some, List, [], ◌∷◌,
  ◌++◌, snoc,
}
use modulex.PatchApply.Paths.{
  FilePath, path_eq, Result, ok, PathError, Resolution, resolved, refused, resolved_path,
}
use modulex.PatchApply.Disk.{
  Node, Tree, Disk, stat, apply_write, read_current, EntryOutcome, apply_delete,
}
use modulex.PatchApply.Restore.{JournalEntry, RestoreError, rollback_entries}
use modulex.PatchApply.Batch.{
  FileChange, Options, Journal, ApplyError, Target, Item, Step, go_on, stop, add_target, bytes_of,
  bytes_equal, capture_current_state, write_mode, check_approval, check_rollback_approval,
}

-- What a change did: its entry, or a failure with the entry that is to be undone, if any.
pub data Changed : Type 0 where
  changed : JournalEntry → Changed
  failed_with : List JournalEntry → Changed

abbrev pub with_outcome : JournalEntry → Disk × Option EntryOutcome → Disk × Changed
with_outcome e (d, none) = (d, failed_with [])
with_outcome e (d, some outcome) = (d, changed (record e { outcome = outcome }))

abbrev pub with_created : JournalEntry → Disk × Option FilePath × Bool → Disk × Changed
with_created e (d, created, false) = (d, failed_with (record e { created_dir = created } ∷ []))
with_created e (d, created, true) =
    (d, changed (record e { outcome = EntryOutcome.written; created_dir = created }))

-- One change of applyAll.
unfoldable pub apply_change : Item → Disk → Disk × Changed
unfolding apply_delete apply_write
apply_change i d =
    if i.change.delete
    then with_outcome i.entry (apply_delete i.full i.entry.existed_before d)
    else with_created i.entry (apply_write i.full i.change.new_content (write_mode i.entry) d)

pub data VerifyError : Type 0 where
  bad_entry : PathError → VerifyError
  no_read wrong_existence wrong_content wrong_mode : VerifyError

abbrev pub existed : Option (List ℕ × ℕ) → Bool
existed none = false
existed (some c) = true

abbrev pub mode_of : Option (List ℕ × ℕ) → ℕ
mode_of none = 0
mode_of (some (bytes, mode)) = mode

abbrev pub bytes_or_nil : Option (List ℕ) → List ℕ
bytes_or_nil none = []
bytes_or_nil (some bytes) = bytes

abbrev pub add_if : Bool → VerifyError → List VerifyError → List VerifyError
add_if true err errs = err ∷ errs
add_if false err errs = errs

abbrev pub bool_eq : Bool → Bool → Bool
bool_eq true b = b
bool_eq false b = not b

-- The comparisons of Verify on what it reads.
abbrev pub compare_entry : JournalEntry → Option (List ℕ × ℕ) → List VerifyError → List VerifyError
compare_entry e c errs =
    if not (bool_eq (existed c) e.existed_before)
    then VerifyError.wrong_existence ∷ errs
    else add_if (not (bytes_equal (bytes_of c) (bytes_or_nil e.original_content)))
        VerifyError.wrong_content
        (add_if
          (existed c && not (nat_eq e.original_mode 0) && not (nat_eq (mode_of c) e.original_mode))
          VerifyError.wrong_mode errs)

abbrev pub compared :
    JournalEntry
    → Disk × Result (Option (List ℕ × ℕ))
    → (Disk → Disk × List VerifyError)
    → Disk × List VerifyError
compared e (d, ok c) rest = let (d', errs) = rest d in (d', compare_entry e c errs)
compared e (d, _) rest = let (d', errs) = rest d in (d', VerifyError.no_read ∷ errs)

abbrev pub compare_at :
    JournalEntry → Resolution → Disk → (Disk → Disk × List VerifyError) → Disk × List VerifyError
compare_at e (refused err) d rest =
    let (d', errs) = rest d in (d', VerifyError.bad_entry err ∷ errs)
compare_at e (resolved full) d rest = compared e (read_current full d) rest

abbrev pub and_next {ℓ} : {A : Type ℓ} → Step A → (A → Step A) → Step A
and_next (go_on a) f = f a
and_next (stop err) f = stop err

module _ (eval_symlinks : Tree → FilePath → Result FilePath) (digest : List String → String) where
  -- validateChangePaths
  unfoldable pub validate_change_paths :
      Tree → FilePath → List FileChange → List Target → Step (List Target)
  unfolding resolved_path
  validate_change_paths tree target [] seen = go_on seen
  validate_change_paths tree target (c ∷ cs) seen =
      and_next (add_target c (resolved_path (eval_symlinks tree) target c.path) seen)
        (validate_change_paths tree target cs)

  abbrev pub roll_back : FilePath → List JournalEntry → Disk → Disk × Step (List JournalEntry)
  roll_back target entries d =
      let (d', errs) = rollback_entries eval_symlinks target entries d in
      (d', stop (ApplyError.not_applied errs))

  abbrev pub after_change :
      FilePath
      → List JournalEntry
      → Disk × Changed
      → (List JournalEntry → Disk → Disk × Step (List JournalEntry))
      → Disk × Step (List JournalEntry)
  after_change target applied (d, changed e) rest = rest (snoc applied e) d
  after_change target applied (d, failed_with entries) rest =
      roll_back target (applied ++ entries) d

  -- applyAll, after the entries applied so far.
  unfoldable pub apply_all :
      FilePath → List Item → List JournalEntry → Disk → Disk × Step (List JournalEntry)
  unfolding apply_change rollback_entries
  apply_all target [] applied d = (d, go_on applied)
  apply_all target (i ∷ is) applied d =
      after_change target applied (apply_change i d) (apply_all target is)

  abbrev pub journal_of : FilePath → Disk × Step (List JournalEntry) → Disk × Step Journal
  journal_of target (d, stop err) = (d, stop err)
  journal_of target (d, go_on entries) =
      (d, go_on (record { target_dir = some target; entries = entries }))

  -- Apply from its step 4 on.
  abbrev pub apply_captured : FilePath → Disk × Step (List Item) → Disk × Step Journal
  apply_captured target (d, stop err) = (d, stop err)
  apply_captured target (d, go_on items) = journal_of target (apply_all target items [] d)

  -- Apply from its step 2 on.
  abbrev pub apply_targets :
      FilePath
      → List FileChange
      → Options
      → Disk
      → Step (List Target)
      → Disk × Options × Step Journal
  apply_targets target changes o d (stop err) = (d, o, stop err)
  apply_targets target changes o d (go_on ts) =
      let (o', approved) = check_approval digest changes o in
      let (d', j) = apply_captured target (capture_current_state ts d) in
      if approved then (d', o', j) else (d, o', stop ApplyError.approval_needed)

  abbrev pub apply_in :
      FilePath → List FileChange → Options → Disk × Result Node → Disk × Options × Step Journal
  apply_in target changes o (d, ok Node.dir) =
      apply_targets target changes o d (validate_change_paths d.tree target changes [])
  apply_in target changes o (d, _) = (d, o, stop ApplyError.bad_target)

  abbrev pub apply_at :
      List FileChange → Options → Disk → Result FilePath → Disk × Options × Step Journal
  apply_at changes o d (ok real) = apply_in real changes o (stat real d)
  apply_at changes o d _ = (d, o, stop ApplyError.bad_target)

  -- Apply
  unfoldable pub apply : FilePath → List FileChange → Options → Disk → Disk × Options × Step Journal
  unfolding validate_change_paths check_approval capture_current_state apply_all stat
  apply target changes o d = apply_at changes o d (eval_symlinks d.tree target)

  -- The first path of a journal that resolvedPath refuses.
  abbrev pub bad_entry_of : Tree → FilePath → List JournalEntry → Option PathError
  bad_entry_of tree target [] = none
  bad_entry_of tree target (e ∷ es) =
      let rest = bad_entry_of tree target es in
      elim (resolved_path (eval_symlinks tree) target e.path) [
        | refused err ↦ some err
        | resolved full ↦ rest
      ]

  abbrev is_same_dir : FilePath → Option FilePath → Bool
  is_same_dir target none = true
  is_same_dir target (some p) = path_eq p target

  -- The journal is of the directory, or has no `TargetDir`.
  abbrev pub is_journal_of : FilePath → Journal → Bool
  is_journal_of target j = is_same_dir target j.target_dir

  abbrev pub restored_all : Disk × List RestoreError → Disk × Option ApplyError
  restored_all (d, []) = (d, none)
  restored_all (d, err ∷ errs) = (d, some (ApplyError.not_restored (err ∷ errs)))

  -- Rollback past the paths of its journal.
  abbrev pub rollback_in :
      Option PathError → FilePath → Journal → Options → Disk → Disk × Options × Option ApplyError
  rollback_in (some e) target j o d = (d, o, some (ApplyError.bad_change e))
  rollback_in none target j o d =
      let (o', approved) = check_rollback_approval digest j.entries o in
      let (d', err) = restored_all (rollback_entries eval_symlinks target j.entries d) in
      if approved then (d', o', err) else (d, o', some ApplyError.approval_needed)

  abbrev pub rollback_at :
      Result FilePath → Journal → Options → Disk → Disk × Options × Option ApplyError
  rollback_at (ok real) j o d =
      if is_journal_of real j
      then rollback_in (bad_entry_of d.tree real j.entries) real j o d
      else (d, o, some ApplyError.wrong_journal)
  rollback_at _ j o d = (d, o, some ApplyError.bad_target)

  -- Rollback
  unfoldable pub rollback : FilePath → Journal → Options → Disk → Disk × Options × Option ApplyError
  unfolding check_rollback_approval rollback_entries resolved_path
  rollback target j o d = rollback_at (eval_symlinks d.tree target) j o d

  -- The loop of Verify.
  unfoldable pub verify_entries : FilePath → List JournalEntry → Disk → Disk × List VerifyError
  unfolding resolved_path read_current
  verify_entries target [] d = (d, [])
  verify_entries target (e ∷ es) d =
      compare_at e (resolved_path (eval_symlinks d.tree) target e.path) d (verify_entries target es)

  -- Verify: what does not match, or none if the journal is not one of the directory.
  unfoldable pub verify : FilePath → Journal → Disk → Disk × Option (List VerifyError)
  unfolding verify_entries
  verify target j d = elim (eval_symlinks d.tree target) [
    | ok real ↦
        let (d', errs) = verify_entries real j.entries d in
        if is_journal_of real j then (d', some errs) else (d, none)
    | _ ↦ (d, none)
  ]
