-- ===== src/PatchApply/Reading.antt =====
-- What the removal, the writing in a new directory and the reading of a file do (patchapply/patchapply.go:
-- applyDelete, applyWrite, readCurrent).
use modulex.Prelude.{
  ℕ, ◌≡◌, refl, sym, ◌∙◌, ap, subst, Bool, true, false, ◌&&◌, if◌then◌else◌, Option, none, some,
  List, [], ◌∷◌, arith, Bool-cases, inl, inr, ◌⊎◌,
}
use modulex.PatchApply.Paths.{FilePath, path_eq, parent, Result, ok, not_exist, failed}
use modulex.PatchApply.Disk.{
  Node, drop, Disk, next_fault, look, stat, removed, remove_path, write_made, read_found,
  on_removed, ensure_dir, is_empty_dir, write_via_rename, apply_write, read_current, EntryOutcome,
  apply_delete,
}
use modulex.PatchApply.Files.{
  file_at, path_eq_iff, find-drop, SameFiles, next_fault-SameFiles, if-SameFiles, then-SameFiles,
  stat-SameFiles,
}
use modulex.PatchApply.Writing.{Writes, write_via_rename-Writes}
use modulex.PatchApply.Making.{not_exist-no_file, ensure_dir-SameFiles}

-- A result with no file at the path if it says so, and the same files otherwise.
abbrev pub Removes : FilePath → Disk → Disk × Result (Unit {0}) → Type 0
Removes path d (d', ok u) =
    (q : FilePath) → file_at q d' ≡ (if path_eq path q then none else file_at q d)
Removes path d (d', failed) = SameFiles d d'
Removes path d (d', not_exist) = SameFiles d d' × (file_at path d ≡ none)

if-Removes :
    (p : FilePath) (d : Disk) (b : Bool) (o o' : Disk × Result (Unit {0}))
    → Removes p d o
    → Removes p d o'
    → Removes p d (if b then o else o')
if-Removes p d true o o' h h' = h
if-Removes p d false o o' h h' = h'

pub dir-no_file : (p : FilePath) (d : Disk) → look p d.tree ≡ ok Node.dir → file_at p d ≡ none
dir-no_file [] d h = ground (arith, h)
dir-no_file (x ∷ p) d h = ground (arith, h)

file-content :
    (p : FilePath) (d : Disk) (bytes : List ℕ) (mode : ℕ)
    → look p d.tree ≡ ok (Node.file bytes mode)
    → file_at p d ≡ some (bytes, mode)
file-content [] d bytes mode h = ground (arith, h)
file-content (x ∷ p) d bytes mode h = ground (arith, h)

removed-Removes :
    (p : FilePath) (r : Result Node) (d d' : Disk)
    → look p d'.tree ≡ r
    → SameFiles d d'
    → Removes p d (removed p r d')
removed-Removes p not_exist d d' e k = (k, sym (k p) ∙ not_exist-no_file p d' e)
removed-Removes p failed d d' e k = k
removed-Removes p (ok (Node.file bytes mode)) d d' e k =
    λ q. ground (arith, find-drop p q d'.tree, k q)
removed-Removes p (ok Node.dir) d d' e k =
    if-Removes p d (is_empty_dir p d') (record d' { tree = drop p d'.tree }, ok tt) (d', failed)
      (λ q. ground (arith, find-drop p q d'.tree, path_eq_iff p q, k q, dir-no_file p d' e)) k

-- `os.Remove` removes the file at the path, an empty directory there, or nothing.
pub remove_path-Removes : (p : FilePath) (d : Disk) → Removes p d (remove_path p d)
unfolding remove_path
remove_path-Removes p d =
    let d' = (next_fault d).0 in
    let k = next_fault-SameFiles d in
    if-Removes p d (next_fault d).1 (d', failed) (removed p (look p d'.tree) d') k
      (removed-Removes p (look p d'.tree) d d' refl k)

write_made-Writes :
    (path : FilePath) (content : List ℕ) (mode : ℕ) (d : Disk) (o : Disk × Result (Option FilePath))
    → SameFiles d o.0
    → Writes path
        (Node.file content mode)
        d
        ((write_made path content mode o).0, (write_made path content mode o).2)
write_made-Writes path content mode d (d', ok created) k q =
    let w = write_via_rename-Writes (parent path) path content mode d' q in
    w
    ∙ ap
        (λ f.
          if (write_via_rename (parent path) path content mode d').1 && path_eq path q
          then some (content, mode)
          else f)
        (k q)
write_made-Writes path content mode d (d', not_exist) k q = k q
write_made-Writes path content mode d (d', failed) k q = k q

pub apply_write-Writes :
    (path : FilePath) (content : List ℕ) (mode : ℕ) (d : Disk)
    → Writes path
        (Node.file content mode)
        d
        ((apply_write path content mode d).0, (apply_write path content mode d).2)
unfolding apply_write
apply_write-Writes path content mode d =
    write_made-Writes path content mode d (ensure_dir (parent path) d)
      (ensure_dir-SameFiles (parent path) d)

-- A result that is the file at the path, on a disk with the same files.
abbrev pub Reads : FilePath → Disk → Disk × Result (Option (List ℕ × ℕ)) → Type 0
Reads path d o = SameFiles d o.0 × ((c : Option (List ℕ × ℕ)) → o.1 ≡ ok c → c ≡ file_at path d)

read_found-Reads :
    (path : FilePath) (r : Result Node) (d d' : Disk)
    → look path d'.tree ≡ r
    → SameFiles d d'
    → Reads path d (read_found r d')
read_found-Reads path not_exist d d' e k =
    (k, λ c h. ground (arith, h, k path, not_exist-no_file path d' e))
read_found-Reads path failed d d' e k = (k, λ c h. ground (arith, h))
read_found-Reads path (ok Node.dir) d d' e k =
    (then-SameFiles d d' (next_fault d').0 k (next_fault-SameFiles d'), λ c h. ground (arith, h))
read_found-Reads path (ok (Node.file bytes mode)) d d' e k =
    let d'' = (next_fault d').0 in
    let k' = then-SameFiles d d' d'' k (next_fault-SameFiles d') in
    (
      if-SameFiles d (next_fault d').1 (d'', failed) (d'', ok (some (bytes, mode))) k' k',
      λ c h. ground (arith, h, k path, file-content path d' bytes mode e),
    )

stat-look :
    (p : FilePath) (d : Disk) → ((stat p d).1 ≡ failed) ⊎ (look p (stat p d).0.tree ≡ (stat p d).1)
unfolding stat
stat-look p d = elim (Bool-cases (next_fault d).1) [ inl t ↦ inl (rw t) | inr f ↦ inr (rw f) ]

-- What readCurrent returns is the file at the path.
pub read_current-Reads : (path : FilePath) (d : Disk) → Reads path d (read_current path d)
unfolding read_current
read_current-Reads path d =
    let d' = (stat path d).0 in
    let k = stat-SameFiles path d in
    elim (stat-look path d) [
      | inl e ↦ subst (λ r. Reads path d (read_found r d')) (sym e) (k, λ c h. ground (arith, h))
      | inr e ↦ read_found-Reads path (stat path d).1 d d' e k
    ]

-- A result with no file at the path if it has an outcome, and the same files otherwise.
abbrev pub Deletes : FilePath → Disk → Disk × Option EntryOutcome → Type 0
Deletes path d (d', none) = SameFiles d d'
Deletes path d (d', some outcome) =
    (q : FilePath) → file_at q d' ≡ (if path_eq path q then none else file_at q d)

pub on_removed-Deletes :
    (path : FilePath) (d : Disk) (o : Disk × Result (Unit {0}))
    → Removes path d o
    → Deletes path d (on_removed o)
on_removed-Deletes path d (d', ok u) h = h
on_removed-Deletes path d (d', failed) h = h
on_removed-Deletes path d (d', not_exist) h = h.0

-- applyDelete leaves no file at the path, or changes no file.
pub apply_delete-Deletes :
    (path : FilePath) (existed : Bool) (d : Disk)
    → (existed ≡ false → file_at path d ≡ none)
    → Deletes path d (apply_delete path existed d)
unfolding apply_delete
apply_delete-Deletes path true d absent =
    on_removed-Deletes path d (remove_path path d) (remove_path-Removes path d)
apply_delete-Deletes path false d absent = λ q. ground (arith, path_eq_iff path q, absent refl)
