-- ===== src/PatchApply/Restore.antt =====
-- The undoing of a patch (patchapply/patchapply.go: JournalEntry, removeCreatedDir, restoreEntry,
-- rollbackEntries). `filepath.EvalSymlinks` is a parameter that reads the tree.
use modulex.Prelude.{
  ℕ, String, Bool, true, false, not, if◌then◌else◌, nat_eq, Option, none, some, List, [], ◌∷◌,
}
use modulex.PatchApply.Paths.{
  FilePath, path_eq, parent, is_within, Result, ok, not_exist, failed, PathError, Resolution,
  resolved, refused, resolved_path,
}
use modulex.PatchApply.Disk.{
  Node, Tree, Disk, next_fault, look, is_empty_dir, remove_path, ensure_dir, write_via_rename,
  EntryOutcome,
}

-- patchapply.JournalEntry
pub record JournalEntry : Type 0 where
  pub path : String
  pub existed_before : Bool
  pub original_content : Option (List ℕ)
  pub original_mode : ℕ
  pub outcome : EntryOutcome
  pub created_dir : Option FilePath

pub data RestoreError : Type 0 where
  bad_path : PathError → RestoreError
  not_restorable outside_target os_error : RestoreError

abbrev pub default_new_file_mode : ℕ
default_new_file_mode = 0o644

abbrev pub mode_or_default : ℕ → ℕ
mode_or_default mode = if nat_eq mode 0 then default_new_file_mode else mode

abbrev pub dir_found : FilePath → Result Node → Disk → Result Bool
dir_found p (ok Node.dir) d = ok (is_empty_dir p d)
dir_found p (ok (Node.file bytes mode)) d = failed
dir_found p failed d = failed
dir_found p not_exist d = not_exist

-- `os.ReadDir`: whether the directory is empty.
unfoldable pub read_dir : FilePath → Disk → Disk × Result Bool
unfolding next_fault
read_dir p d =
    let (d', bad) = next_fault d in
    if bad then (d', failed) else (d', dir_found p (look p d'.tree) d')

-- The end of a level of the loop of removeCreatedDir, the last one at the directory created.
abbrev pub next_level : Bool → Disk × Result (Unit {0}) → (Disk → Disk × Bool) → Disk × Bool
next_level last (d, failed) rest = (d, false)
next_level last (d, _) rest = if last then (d, true) else rest d

abbrev pub level : FilePath → Bool → Disk × Result Bool → (Disk → Disk × Bool) → Disk × Bool
level p last (d, failed) rest = (d, false)
level p last (d, not_exist) rest = next_level last (d, not_exist) rest
level p last (d, ok false) rest = (d, true)
level p last (d, ok true) rest = next_level last (remove_path p d) rest

-- The loop of removeCreatedDir, from a directory up to the one created: whether it meets no error.
unfoldable pub remove_chain : FilePath → FilePath → Disk → Disk × Bool
unfolding read_dir remove_path
remove_chain created [] d = (d, true)
remove_chain created (x ∷ p) d =
    if is_within created (x ∷ p)
    then level (x ∷ p) (path_eq (x ∷ p) created) (read_dir (x ∷ p) d) (remove_chain created p)
    else (d, true)

abbrev pub remove_resolved :
    FilePath → FilePath → Result FilePath → Disk → Disk × Option RestoreError
remove_resolved target file_dir not_exist d = (d, none)
remove_resolved target file_dir failed d = (d, some RestoreError.os_error)
remove_resolved target file_dir (ok created) d =
    if not (is_within target created)
    then (d, some RestoreError.outside_target)
    else let (d', done) = remove_chain created file_dir d in
      if done then (d', none) else (d', some RestoreError.os_error)

-- The end of writeViaRename in restoreEntry.
abbrev pub restored : Disk × Bool → Disk × Option RestoreError
restored (d, true) = (d, none)
restored (d, false) = (d, some RestoreError.os_error)

abbrev pub restore_in :
    FilePath → List ℕ → ℕ → Disk × Result (Option FilePath) → Disk × Option RestoreError
restore_in full content mode (d, ok created) =
    restored (write_via_rename (parent full) full content mode d)
restore_in full content mode (d, _) = (d, some RestoreError.os_error)

module _ (eval_symlinks : Tree → FilePath → Result FilePath) where
  -- removeCreatedDir
  unfoldable pub remove_created_dir :
      FilePath → FilePath → Option FilePath → Disk → Disk × Option RestoreError
  unfolding remove_chain
  remove_created_dir target file_dir none d = (d, none)
  remove_created_dir target file_dir (some created) d =
      remove_resolved target file_dir (eval_symlinks d.tree created) d

  abbrev pub after_removal :
      FilePath → FilePath → JournalEntry → Disk × Result (Unit {0}) → Disk × Option RestoreError
  after_removal target full e (d, failed) = (d, some RestoreError.os_error)
  after_removal target full e (d, _) = remove_created_dir target (parent full) e.created_dir d

  abbrev pub restore_content : FilePath → Option (List ℕ) → ℕ → Disk → Disk × Option RestoreError
  restore_content full none mode d = (d, some RestoreError.not_restorable)
  restore_content full (some content) mode d =
      restore_in full content (mode_or_default mode) (ensure_dir (parent full) d)

  -- restoreEntry
  unfoldable pub restore_entry :
      FilePath → FilePath → JournalEntry → Disk → Disk × Option RestoreError
  unfolding remove_created_dir ensure_dir write_via_rename remove_path
  restore_entry target full e d =
      if not e.existed_before
      then after_removal target full e (remove_path full d)
      else restore_content full e.original_content e.original_mode d

  abbrev pub restore_at : FilePath → Resolution → JournalEntry → Disk → Disk × Option RestoreError
  restore_at target (refused err) e d = (d, some (RestoreError.bad_path err))
  restore_at target (resolved full) e d = restore_entry target full e d

  abbrev pub note : Disk × Option RestoreError → List RestoreError → Disk × List RestoreError
  note (d, none) errs = (d, errs)
  note (d, some err) errs = (d, err ∷ errs)

  -- rollbackEntries: the entries from the last to the first, and the errors of all.
  unfoldable pub rollback_entries : FilePath → List JournalEntry → Disk → Disk × List RestoreError
  unfolding restore_entry resolved_path
  rollback_entries target [] d = (d, [])
  rollback_entries target (e ∷ es) d =
      let (d', errs) = rollback_entries target es d in
      note (restore_at target (resolved_path (eval_symlinks d'.tree) target e.path) e d') errs
