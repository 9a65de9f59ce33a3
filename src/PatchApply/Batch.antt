-- ===== src/PatchApply/Batch.antt =====
-- The application of a batch of changes (patchapply/patchapply.go: Apply and its steps, Rollback, Verify).
-- `filepath.EvalSymlinks` is a parameter that reads the tree, and so is the SHA-256 digest of the sorted
-- paths of a batch. Contents in messages are not modelled.
use modulex.Prelude.{
  ℕ, String, Bool, true, false, not, ◌&&◌, ◌||◌, ◌==◌, if◌then◌else◌, nat_eq, Option, none, some,
  List, [], ◌∷◌, snoc, sort_strings,
}
use modulex.Approval.{Scope, Status, pass, approval_required, Broker, check, check_token}
use modulex.PatchApply.Paths.{
  FilePath, path_eq, Result, ok, PathError, Resolution, resolved, refused,
}
use modulex.PatchApply.Disk.{Disk, read_current, EntryOutcome}
use modulex.PatchApply.Restore.{JournalEntry, RestoreError, default_new_file_mode}

-- patchapply.FileChange
pub record FileChange : Type 0 where
  pub path : String
  pub new_content : List ℕ
  pub delete : Bool
  pub expected : Option (List ℕ)

-- patchapply.ApplyOptions and RollbackOptions
pub record Options : Type 0 where
  pub broker : Option Broker
  pub action : String
  pub token : String
  pub now : ℕ

-- patchapply.Journal; the empty `TargetDir` is none.
pub record Journal : Type 0 where
  pub target_dir : Option FilePath
  pub entries : List JournalEntry

pub data ApplyError : Type 0 where
  bad_target same_target approval_needed unreadable prior_mismatch wrong_journal : ApplyError
  bad_change : PathError → ApplyError
  not_applied : List RestoreError → ApplyError
  not_restored : List RestoreError → ApplyError

-- A change with its full path, and with the entry of its current state.
pub record Target : Type 0 where
  pub change : FileChange
  pub full : FilePath

pub record Item : Type 0 where
  pub change : FileChange
  pub full : FilePath
  pub entry : JournalEntry

-- A value or the error of the batch.
pub data Step {ℓ} (A : Type ℓ) : Type ℓ where
  go_on : A → Step A
  stop : ApplyError → Step A

abbrev pub is_taken : FilePath → List Target → Bool
is_taken p [] = false
is_taken p (t ∷ ts) = path_eq t.full p || is_taken p ts

abbrev pub add_target : FileChange → Resolution → List Target → Step (List Target)
add_target c (refused err) seen = stop (ApplyError.bad_change err)
add_target c (resolved full) seen =
    if is_taken full seen
    then stop ApplyError.same_target
    else go_on (snoc seen (record { change = c; full = full }))

abbrev pub bytes_equal : List ℕ → List ℕ → Bool
bytes_equal [] [] = true
bytes_equal [] (y ∷ ys) = false
bytes_equal (x ∷ xs) [] = false
bytes_equal (x ∷ xs) (y ∷ ys) = nat_eq x y && bytes_equal xs ys

-- The bytes that were read, nil if there is no file.
abbrev pub bytes_of : Option (List ℕ × ℕ) → List ℕ
bytes_of none = []
bytes_of (some (bytes, mode)) = bytes

abbrev pub is_expected : Option (List ℕ) → List ℕ → Bool
is_expected none current = true
is_expected (some content) current = bytes_equal current content

abbrev pub entry_of : String → Option (List ℕ × ℕ) → JournalEntry
entry_of path none = record {
  path = path;
  existed_before = false;
  original_content = none;
  original_mode = 0;
  outcome = EntryOutcome.untouched;
  created_dir = none;
}
entry_of path (some (bytes, mode)) = record {
  path = path;
  existed_before = true;
  original_content = some bytes;
  original_mode = mode;
  outcome = EntryOutcome.untouched;
  created_dir = none;
}

abbrev pub item_of : Target → Option (List ℕ × ℕ) → Item
item_of t c = record { change = t.change; full = t.full; entry = entry_of t.change.path c }

abbrev pub prepend : Item → Disk × Step (List Item) → Disk × Step (List Item)
prepend i (d, go_on is) = (d, go_on (i ∷ is))
prepend i (d, stop err) = (d, stop err)

-- The entry of a change that was read, before those of the changes after it.
abbrev pub captured :
    Target
    → Disk × Result (Option (List ℕ × ℕ))
    → (Disk → Disk × Step (List Item))
    → Disk × Step (List Item)
captured t (d, ok c) rest =
    if not (is_expected t.change.expected (bytes_of c))
    then (d, stop ApplyError.prior_mismatch)
    else prepend (item_of t c) (rest d)
captured t (d, _) rest = (d, stop ApplyError.unreadable)

-- captureCurrentState
unfoldable pub capture_current_state : List Target → Disk → Disk × Step (List Item)
unfolding read_current
capture_current_state [] d = (d, go_on [])
capture_current_state (t ∷ ts) d = captured t (read_current t.full d) (capture_current_state ts)

abbrev pub write_mode : JournalEntry → ℕ
write_mode e =
    if not e.existed_before || nat_eq e.original_mode 0
    then default_new_file_mode
    else e.original_mode

abbrev pub has_delete : List FileChange → Bool
has_delete [] = false
has_delete (c ∷ cs) = c.delete || has_delete cs

-- checkBrokerScope
unfoldable pub check_broker_scope : Broker → String → Scope → ℕ → Broker × Status
unfolding check check_token
check_broker_scope broker token scope now =
    if not (token == "") then check_token token scope now broker else check scope now broker

abbrev pub passed : Options → Broker × Status → Options × Bool
passed o (b, pass) = (record o { broker = some b }, true)
passed o (b, approval_required) = (record o { broker = some b }, false)

-- The paths that a rollback deletes.
abbrev pub deleted_paths : List JournalEntry → List String
deleted_paths [] = []
deleted_paths (e ∷ es) =
    let rest = deleted_paths es in if not e.existed_before then e.path ∷ rest else rest

abbrev pub paths_of : List FileChange → List String
paths_of [] = []
paths_of (c ∷ cs) = c.path ∷ paths_of cs

module _ (digest : List String → String) where
  -- BatchScope
  abbrev pub batch_scope : String → List String → Scope
  batch_scope action paths = record { action = action; resource = digest (sort_strings paths) }

  -- The check of the broker, if there is one.
  unfoldable pub check_scope : Bool → List String → Options → Options × Bool
  unfolding check_broker_scope
  check_scope needed paths o = elim (o.broker) [
    | none ↦ (o, not needed)
    | some b ↦ passed o (check_broker_scope b o.token (batch_scope o.action paths) o.now)
  ]

  -- checkApproval
  unfoldable pub check_approval : List FileChange → Options → Options × Bool
  unfolding check_scope
  check_approval changes o = check_scope (has_delete changes) (paths_of changes) o

  -- checkRollbackApproval
  unfoldable pub check_rollback_approval : List JournalEntry → Options → Options × Bool
  unfolding check_scope
  check_rollback_approval entries o = elim (deleted_paths entries) [
    | [] ↦ (o, true)
    | p ∷ ps ↦ check_scope true (p ∷ ps) o
  ]
