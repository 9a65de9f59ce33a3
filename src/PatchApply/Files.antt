-- ===== src/PatchApply/Files.antt =====
-- The files of the disk, directories aside, and the disks that have the same (patchapply/patchapply.go).
use modulex.Prelude.{
  ℕ, ◌≡◌, refl, ◌∙◌, ◌↔◌, Bool, true, false, if◌then◌else◌, Option, none, some, List, [], ◌∷◌,
  arith, test_self,
}
use text.Mathlib.TextEquality.{eq_iff}
use modulex.PatchApply.Paths.{FilePath, path_eq, failed}
use modulex.PatchApply.Disk.{
  Node, Tree, find, put, drop, Disk, next_fault, look, stat, discard_temp,
}

abbrev pub content_of : Option Node → Option (List ℕ × ℕ)
content_of none = none
content_of (some Node.dir) = none
content_of (some (Node.file bytes mode)) = some (bytes, mode)

-- The bytes and permissions of the file at a path, none if there is no file.
abbrev pub file_at : FilePath → Disk → Option (List ℕ × ℕ)
file_at p d = content_of (find p d.tree)

pub path_eq_self : (p : FilePath) → path_eq p p ≡ true
path_eq_self [] = refl
path_eq_self (x ∷ p) = ground (arith, test_self x, path_eq_self p)

pub eq_of_path_eq : (p q : FilePath) → path_eq p q ≡ true → p ≡ q
eq_of_path_eq [] [] h = refl
eq_of_path_eq [] (y ∷ q) h = ground (arith, h)
eq_of_path_eq (x ∷ p) [] h = ground (arith, h)
eq_of_path_eq (x ∷ p) (y ∷ q) h = ground (arith, h, eq_iff x y, eq_of_path_eq p q)

pub path_eq_iff : (p q : FilePath) → (path_eq p q ≡ true) ↔ (p ≡ q)
path_eq_iff p q = (eq_of_path_eq p q, λ e. rw e (path_eq_self q))

pub find-put :
    (p q : FilePath) (n : Node) (t : Tree)
    → find q (put p n t) ≡ (if path_eq p q then some n else find q t)
find-put p q n [] = refl
find-put p q n ((r, m) ∷ t) =
    ground (arith, path_eq_iff p q, path_eq_iff r p, path_eq_iff r q, find-put p q n t)

pub find-drop :
    (p q : FilePath) (t : Tree) → find q (drop p t) ≡ (if path_eq p q then none else find q t)
find-drop p q [] = ground arith
find-drop p q ((r, m) ∷ t) =
    ground (arith, path_eq_iff p q, path_eq_iff r p, path_eq_iff r q, find-drop p q t)

pub next_fault-tree : (d : Disk) → (next_fault d).0.tree ≡ d.tree
unfolding next_fault
next_fault-tree d = ground arith

-- Two disks with the same files.
abbrev pub SameFiles : Disk → Disk → Type 0
SameFiles d d' = (q : FilePath) → file_at q d' ≡ file_at q d

pub next_fault-SameFiles : (d : Disk) → SameFiles d (next_fault d).0
next_fault-SameFiles d q = rw (next_fault-tree d)

pub discard_temp-SameFiles : (p : FilePath) (d : Disk) → SameFiles d (discard_temp p d)
discard_temp-SameFiles p d q = ground (arith, next_fault-tree d)

pub if-SameFiles {ℓ} :
    {A : Type ℓ} (d : Disk) (b : Bool) (o o' : Disk × A)
    → SameFiles d o.0
    → SameFiles d o'.0
    → SameFiles d (if b then o else o').0
if-SameFiles d true o o' h h' = h
if-SameFiles d false o o' h h' = h'

pub then-SameFiles : (d d' d'' : Disk) → SameFiles d d' → SameFiles d' d'' → SameFiles d d''
then-SameFiles d d' d'' h h' q = h' q ∙ h q

pub stat-SameFiles : (p : FilePath) (d : Disk) → SameFiles d (stat p d).0
unfolding stat
stat-SameFiles p d =
    let k = next_fault-SameFiles d in
    if-SameFiles d (next_fault d).1 ((next_fault d).0, failed)
      ((next_fault d).0, look p (next_fault d).0.tree) k k
