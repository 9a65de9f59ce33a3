-- ===== src/PatchApply/Making.antt =====
-- The making of directories changes no file (patchapply/patchapply.go: ensureDir).
use modulex.Prelude.{◌≡◌, refl, Bool, true, false, none, some, [], ◌∷◌, arith}
use modulex.PatchApply.Paths.{FilePath, Result, ok, not_exist, failed}
use modulex.PatchApply.Disk.{
  Node, put, Disk, next_fault, look, stat, make_dir, make_missing, mkdir_all, climb, topmost,
  create_dirs, ensure_found, ensure_dir,
}
use modulex.PatchApply.Files.{
  file_at, path_eq_iff, find-put, SameFiles, next_fault-SameFiles, if-SameFiles, then-SameFiles,
  stat-SameFiles,
}

pub not_exist-no_file : (p : FilePath) (d : Disk) → look p d.tree ≡ not_exist → file_at p d ≡ none
not_exist-no_file [] d h = ground (arith, h)
not_exist-no_file (x ∷ p) d h = ground (arith, h)

made-SameFiles :
    (p : FilePath) (d d' : Disk)
    → file_at p d ≡ none
    → SameFiles d d'
    → SameFiles d (record d' { tree = put p Node.dir d'.tree })
made-SameFiles p d d' h k q = ground (arith, find-put p q Node.dir d'.tree, path_eq_iff p q, k q, h)

make_dir-SameFiles :
    (p : FilePath) (d : Disk) (o : Disk × Bool)
    → file_at p d ≡ none
    → SameFiles d o.0
    → SameFiles d (make_dir p o).0
make_dir-SameFiles p d (d', false) h k = k
make_dir-SameFiles p d (d', true) h k =
    let d'' = (next_fault d').0 in
    let k' = then-SameFiles d d' d'' k (next_fault-SameFiles d') in
    if-SameFiles d (next_fault d').1 (d'', false)
      (record d'' { tree = put p Node.dir d''.tree }, true) k' (made-SameFiles p d d'' h k')

make_missing-SameFiles :
    (p : FilePath) (r : Result Node) (d : Disk) (o : Disk × Bool)
    → (r ≡ not_exist → file_at p d ≡ none)
    → SameFiles d o.0
    → SameFiles d (make_missing p r d o).0
make_missing-SameFiles p (ok Node.dir) d o h k = λ q. refl
make_missing-SameFiles p (ok (Node.file bytes mode)) d o h k = λ q. refl
make_missing-SameFiles p failed d o h k = λ q. refl
make_missing-SameFiles p not_exist d o h k = make_dir-SameFiles p d o (h refl) k

pub mkdir_all-SameFiles : (p : FilePath) (d : Disk) → SameFiles d (mkdir_all p d).0
unfolding mkdir_all
mkdir_all-SameFiles [] d = λ q. refl
mkdir_all-SameFiles (x ∷ p) d =
    make_missing-SameFiles (x ∷ p) (look (x ∷ p) d.tree) d (mkdir_all p d)
      (not_exist-no_file (x ∷ p) d) (mkdir_all-SameFiles p d)

climb-SameFiles :
    (p : FilePath) (r : Result Node) (d d' : Disk) (next : Disk × Result FilePath)
    → SameFiles d d'
    → SameFiles d next.0
    → SameFiles d (climb p r d' next).0
climb-SameFiles p (ok n) d d' next k k' = k
climb-SameFiles p failed d d' next k k' = k
climb-SameFiles p not_exist d d' next k k' = k'

topmost-SameFiles : (p : FilePath) (d : Disk) → SameFiles d (topmost p d).0
unfolding topmost
topmost-SameFiles [] d = λ q. refl
topmost-SameFiles (x ∷ p) d =
    let d' = (stat p d).0 in
    let k = stat-SameFiles p d in
    let k' = then-SameFiles d d' (topmost p d').0 k (topmost-SameFiles p d') in
    climb-SameFiles (x ∷ p) (stat p d).1 d d' (topmost p d') k k'

create_dirs-SameFiles :
    (p : FilePath) (d : Disk) (o : Disk × Result FilePath)
    → SameFiles d o.0
    → SameFiles d (create_dirs p o).0
create_dirs-SameFiles p d (d', ok top) k =
    let d'' = (mkdir_all p d').0 in
    let k' = then-SameFiles d d' d'' k (mkdir_all-SameFiles p d') in
    if-SameFiles d (mkdir_all p d').1 (d'', ok (some top)) (d'', failed) k' k'
create_dirs-SameFiles p d (d', failed) k = k
create_dirs-SameFiles p d (d', not_exist) k = k

ensure_found-SameFiles :
    (p : FilePath) (r : Result Node) (d : Disk) → SameFiles d (ensure_found p r d).0
ensure_found-SameFiles p (ok Node.dir) d = λ q. refl
ensure_found-SameFiles p (ok (Node.file bytes mode)) d = λ q. refl
ensure_found-SameFiles p failed d = λ q. refl
ensure_found-SameFiles p not_exist d =
    create_dirs-SameFiles p d (topmost p d) (topmost-SameFiles p d)

-- ensureDir changes no file, and the directories of the files it does not replace.
pub ensure_dir-SameFiles : (p : FilePath) (d : Disk) → SameFiles d (ensure_dir p d).0
unfolding ensure_dir
ensure_dir-SameFiles p d =
    let d' = (stat p d).0 in
    then-SameFiles d d' (ensure_found p (stat p d).1 d').0 (stat-SameFiles p d)
      (ensure_found-SameFiles p (stat p d).1 d')
