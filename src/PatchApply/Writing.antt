-- ===== src/PatchApply/Writing.antt =====
-- What the writing of a file does to the files of the disk (patchapply/patchapply.go: writeViaRename).
use modulex.Prelude.{ℕ, ◌≡◌, Bool, true, false, not, ◌&&◌, ◌||◌, if◌then◌else◌, some, List, arith}
use modulex.PatchApply.Paths.{FilePath, path_eq, Result, ok, not_exist, failed}
use modulex.PatchApply.Disk.{
  Node, put, Disk, next_fault, look, discard_temp, rename_onto, rename_temp, is_dir,
  write_via_rename,
}
use modulex.PatchApply.Files.{
  content_of, file_at, find-put, SameFiles, next_fault-SameFiles, discard_temp-SameFiles,
  then-SameFiles,
}

-- A result with the file `n` at the path if it says so, and the same files otherwise.
abbrev pub Writes : FilePath → Node → Disk → Disk × Bool → Type 0
Writes path n d o =
    (q : FilePath)
    → file_at q o.0 ≡ (if o.1 && path_eq path q then content_of (some n) else file_at q d)

if-Writes :
    (path : FilePath) (n : Node) (d : Disk) (b : Bool) (o o' : Disk × Bool)
    → Writes path n d o
    → Writes path n d o'
    → Writes path n d (if b then o else o')
if-Writes path n d true o o' h h' = h
if-Writes path n d false o o' h h' = h'

written-Writes :
    (path : FilePath) (n : Node) (d d' : Disk)
    → SameFiles d d'
    → Writes path n d (record d' { tree = put path n d'.tree }, true)
written-Writes path n d d' k q = ground (arith, find-put path q n d'.tree, k q)

rename_onto-Writes :
    (r : Result Node) (bad : Bool) (p path : FilePath) (n : Node) (d d' : Disk)
    → SameFiles d d'
    → Writes path n d (rename_onto r bad p path n d')
rename_onto-Writes (ok Node.dir) bad p path n d d' k =
    then-SameFiles d d' (discard_temp p d') k (discard_temp-SameFiles p d')
rename_onto-Writes failed bad p path n d d' k =
    then-SameFiles d d' (discard_temp p d') k (discard_temp-SameFiles p d')
rename_onto-Writes (ok (Node.file bytes mode)) bad p path n d d' k =
    if-Writes path n d bad (discard_temp p d', false)
      (record d' { tree = put path n d'.tree }, true)
      (then-SameFiles d d' (discard_temp p d') k (discard_temp-SameFiles p d'))
      (written-Writes path n d d' k)
rename_onto-Writes not_exist bad p path n d d' k =
    if-Writes path n d bad (discard_temp p d', false)
      (record d' { tree = put path n d'.tree }, true)
      (then-SameFiles d d' (discard_temp p d') k (discard_temp-SameFiles p d'))
      (written-Writes path n d d' k)

-- writeViaRename replaces the file at the path, or changes no file.
pub write_via_rename-Writes :
    (p path : FilePath) (content : List ℕ) (mode : ℕ) (d : Disk)
    → Writes path (Node.file content mode) d (write_via_rename p path content mode d)
unfolding write_via_rename
write_via_rename-Writes p path content mode d =
    let n = Node.file content mode in
    let d1 = (next_fault d).0 in
    let d2 = (next_fault d1).0 in
    let d3 = (next_fault d2).0 in
    let d4 = (next_fault d3).0 in
    let d5 = (next_fault d4).0 in
    let k1 = next_fault-SameFiles d in
    let k2 = then-SameFiles d d1 d2 k1 (next_fault-SameFiles d1) in
    let k3 = then-SameFiles d d2 d3 k2 (next_fault-SameFiles d2) in
    let k4 = then-SameFiles d d3 d4 k3 (next_fault-SameFiles d3) in
    let k5 = then-SameFiles d d4 d5 k4 (next_fault-SameFiles d4) in
    let moved = rename_temp p path n d4 in
    let kept : Disk × Bool = if (next_fault d3).1 then (discard_temp p d4, false) else moved in
    let closed : Disk × Bool =
      if (next_fault d1).1 || (next_fault d2).1 then (discard_temp p d3, false) else kept in
    if-Writes path n d ((next_fault d).1 || not (is_dir (look p d1.tree))) (d1, false) closed k1
      (if-Writes path n d ((next_fault d1).1 || (next_fault d2).1) (discard_temp p d3, false) kept
        (then-SameFiles d d3 (discard_temp p d3) k3 (discard_temp-SameFiles p d3))
        (if-Writes path n d (next_fault d3).1 (discard_temp p d4, false) moved
          (then-SameFiles d d4 (discard_temp p d4) k4 (discard_temp-SameFiles p d4))
          (rename_onto-Writes (look path d5.tree) (next_fault d4).1 p path n d d5 k5)))
