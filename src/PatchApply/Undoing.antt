-- ===== src/PatchApply/Undoing.antt =====
-- What the undoing of a patch does to the files (patchapply/patchapply.go).
use modulex.Prelude.{
  ℕ, String, ◌≡◌, refl, sym, ◌∙◌, ap, subst, Bool, true, false, not, ◌&&◌, if◌then◌else◌, Option,
  none, some, List, [], ◌∷◌, ◌++◌, arith,
}
use modulex.PatchApply.Paths.{
  FilePath, path_eq, parent, elements, clean, is_within, Result, ok, not_exist, failed, Resolution,
  resolved, refused, resolved_path,
}
use modulex.PatchApply.Escapes.{resolved_path-full}
use modulex.PatchApply.Disk.{
  Node, Tree, Disk, next_fault, look, remove_path, ensure_dir, write_via_rename,
}
use modulex.PatchApply.Files.{
  file_at, path_eq_iff, SameFiles, if-SameFiles, then-SameFiles, next_fault-SameFiles,
}
use modulex.PatchApply.Reading.{dir-no_file, Removes, remove_path-Removes}
use modulex.PatchApply.Writing.{Writes, write_via_rename-Writes}
use modulex.PatchApply.Making.{ensure_dir-SameFiles}
use modulex.PatchApply.Restore.{
  JournalEntry, RestoreError, mode_or_default, dir_found, read_dir, next_level, level, remove_chain,
  remove_resolved, restored, restore_in, remove_created_dir, after_removal, restore_content,
  restore_entry, restore_at, note, rollback_entries,
}

-- The disk keeps its files, and a directory found is no file.
read_dir-SameFiles : (p : FilePath) (d : Disk) → SameFiles d (read_dir p d).0
unfolding read_dir
read_dir-SameFiles p d =
    let d' = (next_fault d).0 in
    let k = next_fault-SameFiles d in
    if-SameFiles d (next_fault d).1 (d', failed) (d', dir_found p (look p d'.tree) d') k k

dir_found-dir :
    (p : FilePath) (r : Result Node) (d : Disk) (b : Bool)
    → dir_found p r d ≡ ok b
    → r ≡ ok Node.dir
dir_found-dir p (ok Node.dir) d b h = refl
dir_found-dir p (ok (Node.file bytes mode)) d b h = ground (arith, h)
dir_found-dir p failed d b h = ground (arith, h)
dir_found-dir p not_exist d b h = ground (arith, h)

read_dir-no_file :
    (p : FilePath) (d : Disk) (b : Bool) → (read_dir p d).1 ≡ ok b → file_at p d ≡ none
unfolding read_dir
read_dir-no_file p d b h =
    let d' = (next_fault d).0 in
    let found : look p d'.tree ≡ ok Node.dir =
      dir_found-dir p (look p d'.tree) d' b (ground (arith, h)) in
    sym (next_fault-SameFiles d p) ∙ dir-no_file p d' found

next_level-SameFiles :
    (d : Disk) (last : Bool) (o : Disk × Result (Unit {0})) (rest : Disk → Disk × Bool)
    → SameFiles d o.0
    → ((d' : Disk) → SameFiles d' (rest d').0)
    → SameFiles d (next_level last o rest).0
next_level-SameFiles d last (d', failed) rest k h = k
next_level-SameFiles d last (d', not_exist) rest k h =
    if-SameFiles d last (d', true) (rest d') k (then-SameFiles d d' (rest d').0 k (h d'))
next_level-SameFiles d last (d', ok u) rest k h =
    if-SameFiles d last (d', true) (rest d') k (then-SameFiles d d' (rest d').0 k (h d'))

Removes-SameFiles :
    (p : FilePath) (d : Disk) (o : Disk × Result (Unit {0}))
    → Removes p d o
    → file_at p d ≡ none
    → SameFiles d o.0
Removes-SameFiles p d (d', ok u) r h q = ground (arith, r q, path_eq_iff p q, h)
Removes-SameFiles p d (d', failed) r h q = r q
Removes-SameFiles p d (d', not_exist) r h q = r.0 q

-- `os.Remove` at a path that is no file changes no file.
remove_path-SameFiles :
    (p : FilePath) (d : Disk) → file_at p d ≡ none → SameFiles d (remove_path p d).0
remove_path-SameFiles p d h = Removes-SameFiles p d (remove_path p d) (remove_path-Removes p d) h

level-SameFiles :
    (p : FilePath) (d : Disk) (last : Bool) (o : Disk × Result Bool) (rest : Disk → Disk × Bool)
    → SameFiles d o.0
    → ((b : Bool) → o.1 ≡ ok b → file_at p d ≡ none)
    → ((d' : Disk) → SameFiles d' (rest d').0)
    → SameFiles d (level p last o rest).0
level-SameFiles p d last (d', failed) rest k n h = k
level-SameFiles p d last (d', not_exist) rest k n h =
    next_level-SameFiles d last (d', not_exist) rest k h
level-SameFiles p d last (d', ok false) rest k n h = k
level-SameFiles p d last (d', ok true) rest k n h =
    next_level-SameFiles d last (remove_path p d') rest
      (then-SameFiles d d' (remove_path p d').0 k (remove_path-SameFiles p d' (k p ∙ n true refl)))
      h

remove_chain-SameFiles :
    (created p : FilePath) (d : Disk) → SameFiles d (remove_chain created p d).0
unfolding remove_chain
remove_chain-SameFiles created [] d = λ q. refl
remove_chain-SameFiles created (x ∷ p) d =
    let o = level (x ∷ p) (path_eq (x ∷ p) created) (read_dir (x ∷ p) d) (remove_chain created p) in
    if-SameFiles d (is_within created (x ∷ p)) o (d, true)
      (level-SameFiles (x ∷ p) d (path_eq (x ∷ p) created) (read_dir (x ∷ p) d)
        (remove_chain created p) (read_dir-SameFiles (x ∷ p) d) (read_dir-no_file (x ∷ p) d)
        (remove_chain-SameFiles created p))
      (λ q. refl)

remove_resolved-SameFiles :
    (target p : FilePath) (r : Result FilePath) (d : Disk)
    → SameFiles d (remove_resolved target p r d).0
remove_resolved-SameFiles target p not_exist d = λ q. refl
remove_resolved-SameFiles target p failed d = λ q. refl
remove_resolved-SameFiles target p (ok created) d =
    let o = remove_chain created p d in
    let k = remove_chain-SameFiles created p d in
    let o' : Disk × Option RestoreError =
      if o.1 then (o.0, none) else (o.0, some RestoreError.os_error) in
    if-SameFiles d (not (is_within target created)) (d, some RestoreError.outside_target) o'
      (λ q. refl) (if-SameFiles d o.1 (o.0, none) (o.0, some RestoreError.os_error) k k)

-- The file that an entry records.
abbrev pub content_or_none : Option (List ℕ) → ℕ → Option (List ℕ × ℕ)
content_or_none none mode = none
content_or_none (some content) mode = some (content, mode_or_default mode)

abbrev pub recorded : JournalEntry → Option (List ℕ × ℕ)
recorded e = if e.existed_before then content_or_none e.original_content e.original_mode else none

-- A result without error that has the recorded file at the path and the other files as they were.
abbrev pub Restores : FilePath → Option (List ℕ × ℕ) → Disk → Disk × Option RestoreError → Type 0
Restores full c d o =
    o.1 ≡ none → (q : FilePath) → file_at q o.0 ≡ (if path_eq full q then c else file_at q d)

restored-Restores :
    (full : FilePath) (content : List ℕ) (mode : ℕ) (d : Disk) (o : Disk × Bool)
    → Writes full (Node.file content mode) d o
    → Restores full (some (content, mode)) d (restored o)
restored-Restores full content mode d (d', true) w e q = w q
restored-Restores full content mode d (d', false) w e q = ground (arith, e)

restore_in-Restores :
    (full : FilePath) (content : List ℕ) (mode : ℕ) (d : Disk) (o : Disk × Result (Option FilePath))
    → SameFiles d o.0
    → Restores full (some (content, mode)) d (restore_in full content mode o)
restore_in-Restores full content mode d (d', ok created) k =
    restored-Restores full content mode d (write_via_rename (parent full) full content mode d')
      (λ q.
        write_via_rename-Writes (parent full) full content mode d' q
        ∙ ap
            (λ f.
              if (write_via_rename (parent full) full content mode d').1 && path_eq full q
              then some (content, mode)
              else f)
            (k q))
restore_in-Restores full content mode d (d', failed) k = λ e q. ground (arith, e)
restore_in-Restores full content mode d (d', not_exist) k = λ e q. ground (arith, e)

if-Restores :
    (full : FilePath) (b : Bool) (c c' : Option (List ℕ × ℕ)) (d : Disk)
    (o o' : Disk × Option RestoreError)
    → Restores full c d o
    → Restores full c' d o'
    → Restores full (if b then c' else c) d (if not b then o else o')
if-Restores full true c c' d o o' h h' = h'
if-Restores full false c c' d o o' h h' = h

-- The path of an entry below the target.
abbrev pub full_path : FilePath → String → FilePath
full_path target rel = clean (elements rel) [] ++ target

-- The file at a path after the entries are undone, the last first, where `c` was before.
abbrev pub undone :
    FilePath → List JournalEntry → FilePath → Option (List ℕ × ℕ) → Option (List ℕ × ℕ)
undone target [] q c = c
undone target (e ∷ es) q c =
    if path_eq (full_path target e.path) q then recorded e else undone target es q c

module _ (eval : Tree → FilePath → Result FilePath) where
  remove_created_dir-SameFiles :
      (target p : FilePath) (created : Option FilePath) (d : Disk)
      → SameFiles d (remove_created_dir eval target p created d).0
  unfolding remove_created_dir
  remove_created_dir-SameFiles target p none d = λ q. refl
  remove_created_dir-SameFiles target p (some created) d =
      remove_resolved-SameFiles target p (eval d.tree created) d

  after_removal-Restores :
      (target full : FilePath) (e : JournalEntry) (d : Disk) (o : Disk × Result (Unit {0}))
      → Removes full d o
      → Restores full none d (after_removal eval target full e o)
  after_removal-Restores target full e d (d', failed) r h = ground (arith, h)
  after_removal-Restores target full e d (d', not_exist) r h = λ q. ground (
    arith,
    remove_created_dir-SameFiles target (parent full) e.created_dir d' q,
    r.0 q,
    r.1,
    path_eq_iff full q,
  )
  after_removal-Restores target full e d (d', ok u) r h =
      λ q. remove_created_dir-SameFiles target (parent full) e.created_dir d' q ∙ r q

  restore_content-Restores :
      (full : FilePath) (c : Option (List ℕ)) (mode : ℕ) (d : Disk)
      → Restores full (content_or_none c mode) d (restore_content eval full c mode d)
  restore_content-Restores full none mode d = λ h q. ground (arith, h)
  restore_content-Restores full (some content) mode d =
      restore_in-Restores full content (mode_or_default mode) d (ensure_dir (parent full) d)
        (ensure_dir-SameFiles (parent full) d)

  restore_entry-Restores :
      (target full : FilePath) (e : JournalEntry) (d : Disk)
      → Restores full (recorded e) d (restore_entry eval target full e d)
  unfolding restore_entry
  restore_entry-Restores target full e d =
      let o = after_removal eval target full e (remove_path full d) in
      let o' = restore_content eval full e.original_content e.original_mode d in
      if-Restores full e.existed_before none (content_or_none e.original_content e.original_mode) d
        o o'
        (after_removal-Restores target full e d (remove_path full d) (remove_path-Removes full d))
        (restore_content-Restores full e.original_content e.original_mode d)

  restore_at-Restores :
      (target : FilePath) (r : Resolution) (e : JournalEntry) (d : Disk)
      → ((full : FilePath) → r ≡ resolved full → full ≡ full_path target e.path)
      → Restores (full_path target e.path) (recorded e) d (restore_at eval target r e d)
  restore_at-Restores target (refused err) e d at = λ h q. ground (arith, h)
  restore_at-Restores target (resolved full) e d at =
      subst (λ f. Restores f (recorded e) d (restore_entry eval target full e d)) (at full refl)
        (restore_entry-Restores target full e d)

  noted :
      (full : FilePath) (c : Option (List ℕ × ℕ)) (d : Disk) (o : Disk × Option RestoreError)
      (errs : List RestoreError)
      → Restores full c d o
      → (note eval o errs).1 ≡ []
      → (errs ≡ [])
        × ((q : FilePath)
            → file_at q (note eval o errs).0 ≡ (if path_eq full q then c else file_at q d))
  noted full c d (d', none) errs r h = (h, r refl)
  noted full c d (d', some err) errs r h = ground (arith, h)

  -- A rollback without an error leaves at each path what its entries record, and the other files as they
  -- were.
  pub rollback_entries-undone :
      (target : FilePath) (es : List JournalEntry) (d : Disk)
      → (rollback_entries eval target es d).1 ≡ []
      → (q : FilePath)
      → file_at q (rollback_entries eval target es d).0 ≡ undone target es q (file_at q d)
  unfolding rollback_entries
  rollback_entries-undone target [] d h q = refl
  rollback_entries-undone target (e ∷ es) d h q =
      let o = rollback_entries eval target es d in
      let r = resolved_path (eval o.0.tree) target e.path in
      let full = full_path target e.path in
      let n =
        noted full (recorded e) o.0 (restore_at eval target r e o.0) o.1
          (restore_at-Restores target r e o.0
            (λ f i. resolved_path-full (eval o.0.tree) target e.path f i))
          h in
      let before = rollback_entries-undone target es d n.0 q in
      n.1 q ∙ ap (λ c. if path_eq full q then recorded e else c) before
