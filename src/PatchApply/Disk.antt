-- ===== src/PatchApply/Disk.antt =====
-- The file system that a patch works on, with the calls of `os` that patchapply/patchapply.go makes, and
-- its own readCurrent, ensureDir, writeViaRename, applyWrite and applyDelete. Every call may fail: the
-- disk holds the answers to come, true for a failure, and none fails after the last. There is no symbolic
-- link below a path of a batch; `filepath.EvalSymlinks` is a parameter where it is called. A temporary
-- file has a name of its own, so only those that are left behind are kept, by their directory.
use modulex.Prelude.{
  ℕ, Bool, true, false, not, ◌||◌, if◌then◌else◌, Option, none, some, List, [], ◌∷◌,
}
use modulex.PatchApply.Paths.{FilePath, path_eq, parent, Result, ok, not_exist, failed}

-- A file with its bytes and permissions, or a directory.
pub data Node : Type 0 where
  file : List ℕ → ℕ → Node
  dir : Node

abbrev pub Tree : Type 0
Tree = List (FilePath × Node)

abbrev pub find : FilePath → Tree → Option Node
find p [] = none
find p ((q, n) ∷ t) = if path_eq q p then some n else find p t

abbrev pub put : FilePath → Node → Tree → Tree
put p n [] = (p, n) ∷ []
put p n ((q, m) ∷ t) = if path_eq q p then (p, n) ∷ t else (q, m) ∷ put p n t

abbrev pub drop : FilePath → Tree → Tree
drop p [] = []
drop p ((q, m) ∷ t) = if path_eq q p then drop p t else (q, m) ∷ drop p t

pub record Disk : Type 0 where
  pub tree : Tree
  pub left_behind : List FilePath
  pub faults : List Bool

-- Whether the next call fails.
unfoldable pub next_fault : Disk → Disk × Bool
next_fault d = elim (d.faults) [ [] ↦ (d, false) | b ∷ bs ↦ (record d { faults = bs }, b) ]

abbrev pub is_file : Option Node → Bool
is_file none = false
is_file (some Node.dir) = false
is_file (some (Node.file bytes mode)) = true

-- A file stands where the path needs a directory.
abbrev pub is_blocked : FilePath → Tree → Bool
is_blocked [] t = false
is_blocked (x ∷ p) t = is_file (find p t) || is_blocked p t

abbrev pub look_at : FilePath → Option Node → Tree → Result Node
look_at p (some n) t = ok n
look_at [] none t = ok Node.dir
look_at (x ∷ p) none t = if is_blocked (x ∷ p) t then failed else not_exist

abbrev pub look : FilePath → Tree → Result Node
look p t = look_at p (find p t) t

-- `os.Stat`
unfoldable pub stat : FilePath → Disk → Disk × Result Node
unfolding next_fault
stat p d = let (d', bad) = next_fault d in if bad then (d', failed) else (d', look p d'.tree)

abbrev pub has_child : FilePath → Tree → Bool
has_child p [] = false
has_child p (([], n) ∷ t) = has_child p t
has_child p ((x ∷ q, n) ∷ t) = path_eq q p || has_child p t

abbrev pub holds : FilePath → List FilePath → Bool
holds p [] = false
holds p (q ∷ qs) = path_eq q p || holds p qs

abbrev pub is_empty_dir : FilePath → Disk → Bool
is_empty_dir p d = not (has_child p d.tree || holds p d.left_behind)

abbrev pub removed : FilePath → Result Node → Disk → Disk × Result (Unit {0})
removed p not_exist d = (d, not_exist)
removed p failed d = (d, failed)
removed p (ok (Node.file bytes mode)) d = (record d { tree = drop p d.tree }, ok tt)
removed p (ok Node.dir) d =
    if is_empty_dir p d then (record d { tree = drop p d.tree }, ok tt) else (d, failed)

-- `os.Remove`
unfoldable pub remove_path : FilePath → Disk → Disk × Result (Unit {0})
unfolding next_fault
remove_path p d =
    let (d', bad) = next_fault d in if bad then (d', failed) else removed p (look p d'.tree) d'

-- `os.Mkdir` after the parents.
abbrev pub make_dir : FilePath → Disk × Bool → Disk × Bool
make_dir p (d, false) = (d, false)
make_dir p (d, true) =
    let (d', bad) = next_fault d in
    if bad then (d', false) else (record d' { tree = put p Node.dir d'.tree }, true)

abbrev pub make_missing : FilePath → Result Node → Disk → Disk × Bool → Disk × Bool
make_missing p (ok Node.dir) d parents = (d, true)
make_missing p (ok (Node.file bytes mode)) d parents = (d, false)
make_missing p failed d parents = (d, false)
make_missing p not_exist d parents = make_dir p parents

-- `os.MkdirAll`: whether all the directories stand.
unfoldable pub mkdir_all : FilePath → Disk → Disk × Bool
unfolding next_fault
mkdir_all [] d = (d, true)
mkdir_all (x ∷ p) d =
    let parents = mkdir_all p d in make_missing (x ∷ p) (look (x ∷ p) d.tree) d parents

abbrev pub climb : FilePath → Result Node → Disk → Disk × Result FilePath → Disk × Result FilePath
climb p (ok n) d next = (d, ok p)
climb p failed d next = (d, failed)
climb p not_exist d next = next

-- The loop of ensureDir that looks for the topmost missing directory, `p` being missing.
unfoldable pub topmost : FilePath → Disk → Disk × Result FilePath
unfolding stat
topmost [] d = (d, ok [])
topmost (x ∷ p) d =
    let (d', found) = stat p d in let next = topmost p d' in climb (x ∷ p) found d' next

-- The end of ensureDir.
abbrev pub create_dirs : FilePath → Disk × Result FilePath → Disk × Result (Option FilePath)
create_dirs p (d, ok top) =
    let (d', made) = mkdir_all p d in if made then (d', ok (some top)) else (d', failed)
create_dirs p (d, _) = (d, failed)

abbrev pub ensure_found : FilePath → Result Node → Disk → Disk × Result (Option FilePath)
ensure_found p (ok Node.dir) d = (d, ok none)
ensure_found p (ok (Node.file bytes mode)) d = (d, failed)
ensure_found p failed d = (d, failed)
ensure_found p not_exist d = create_dirs p (topmost p d)

-- ensureDir: the topmost directory that it created, if any.
unfoldable pub ensure_dir : FilePath → Disk → Disk × Result (Option FilePath)
unfolding stat topmost mkdir_all
ensure_dir p d = let (d', found) = stat p d in ensure_found p found d'

-- `os.Remove` of the temporary file, whose error is ignored.
abbrev pub discard_temp : FilePath → Disk → Disk
discard_temp p d =
    let (d', bad) = next_fault d in
    if bad then record d' { left_behind = p ∷ d'.left_behind } else d'

-- `os.Rename` of the temporary file onto what is found there.
abbrev pub rename_onto : Result Node → Bool → FilePath → FilePath → Node → Disk → Disk × Bool
rename_onto (ok Node.dir) bad p path n d = (discard_temp p d, false)
rename_onto failed bad p path n d = (discard_temp p d, false)
rename_onto _ bad p path n d =
    if bad then (discard_temp p d, false) else (record d { tree = put path n d.tree }, true)

abbrev pub rename_temp : FilePath → FilePath → Node → Disk → Disk × Bool
rename_temp p path n d =
    let (d', bad) = next_fault d in rename_onto (look path d'.tree) bad p path n d'

abbrev pub is_dir : Result Node → Bool
is_dir (ok Node.dir) = true
is_dir _ = false

-- writeViaRename: whether the file is written.
unfoldable pub write_via_rename : FilePath → FilePath → List ℕ → ℕ → Disk → Disk × Bool
unfolding next_fault
write_via_rename p path content mode d =
    let (d1, no_temp) = next_fault d in
    if no_temp || not (is_dir (look p d1.tree))
    then (d1, false)
    else let (d2, bad_write) = next_fault d1 in
      let (d3, bad_close) = next_fault d2 in
      if bad_write || bad_close
      then (discard_temp p d3, false)
      else let (d4, bad_mode) = next_fault d3 in
        if bad_mode
        then (discard_temp p d4, false)
        else rename_temp p path (Node.file content mode) d4

abbrev pub write_in : Option FilePath → Disk × Bool → Disk × Option FilePath × Bool
write_in created (d, done) = (d, created, done)

abbrev pub write_made :
    FilePath → List ℕ → ℕ → Disk × Result (Option FilePath) → Disk × Option FilePath × Bool
write_made path content mode (d, ok created) =
    write_in created (write_via_rename (parent path) path content mode d)
write_made path content mode (d, _) = (d, none, false)

-- applyWrite: the directory created, also where it fails, and whether the file is written.
unfoldable pub apply_write : FilePath → List ℕ → ℕ → Disk → Disk × Option FilePath × Bool
unfolding ensure_dir write_via_rename
apply_write path content mode d = write_made path content mode (ensure_dir (parent path) d)

abbrev pub read_found : Result Node → Disk → Disk × Result (Option (List ℕ × ℕ))
read_found not_exist d = (d, ok none)
read_found failed d = (d, failed)
read_found (ok Node.dir) d = ((next_fault d).0, failed)
read_found (ok (Node.file bytes mode)) d =
    let (d', bad) = next_fault d in if bad then (d', failed) else (d', ok (some (bytes, mode)))

-- readCurrent: the bytes and the permissions, or none if there is no file.
unfoldable pub read_current : FilePath → Disk → Disk × Result (Option (List ℕ × ℕ))
unfolding stat
read_current path d = let (d', found) = stat path d in read_found found d'

pub data EntryOutcome : Type 0 where
  untouched written deleted noop : EntryOutcome

abbrev pub on_removed : Disk × Result (Unit {0}) → Disk × Option EntryOutcome
on_removed (d, ok u) = (d, some EntryOutcome.deleted)
on_removed (d, _) = (d, none)

-- applyDelete
unfoldable pub apply_delete : FilePath → Bool → Disk → Disk × Option EntryOutcome
unfolding remove_path
apply_delete path existed d =
    if not existed then (d, some EntryOutcome.noop) else on_removed (remove_path path d)
