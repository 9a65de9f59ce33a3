-- ===== src/PatchApply/Attempts.antt =====
-- What one change of a batch does, and how the undoing of entries composes (patchapply/patchapply.go).
use modulex.Prelude.{
  ℕ, ◌≡◌, refl, ◌∙◌, ap, Bool, true, false, if◌then◌else◌, Option, none, some, List, [], ◌∷◌, snoc,
}
use modulex.PatchApply.Paths.{FilePath, path_eq}
use modulex.PatchApply.Disk.{
  Node, Disk, remove_path, apply_write, EntryOutcome, apply_delete, on_removed,
}
use modulex.PatchApply.Files.{file_at, SameFiles}
use modulex.PatchApply.Reading.{
  Deletes, on_removed-Deletes, remove_path-Removes, apply_write-Writes,
}
use modulex.PatchApply.Writing.{Writes}
use modulex.PatchApply.Restore.{JournalEntry}
use modulex.PatchApply.Undoing.{full_path, recorded, undone}
use modulex.PatchApply.Batch.{Item, write_mode}
use modulex.PatchApply.Applying.{
  Changed, changed, failed_with, with_outcome, with_created, apply_change,
}

pub undone-snoc :
    (target : FilePath) (es : List JournalEntry) (e : JournalEntry) (q : FilePath)
    (c : Option (List ℕ × ℕ))
    → undone target (snoc es e) q c
      ≡ undone target es q (if path_eq (full_path target e.path) q then recorded e else c)
undone-snoc target [] e q c = refl
undone-snoc target (x ∷ es) e q c =
    ap (λ r. if path_eq (full_path target x.path) q then recorded x else r)
      (undone-snoc target es e q c)

choice-twice {ℓ} :
    {A : Type ℓ} (b : Bool) (r c : A) (f : A → A)
    → f (f c) ≡ f c
    → (if b then r else f (if b then r else f c)) ≡ (if b then r else f c)
choice-twice true r c f h = refl
choice-twice false r c f h = h

pub undone-twice :
    (target : FilePath) (es : List JournalEntry) (q : FilePath) (c : Option (List ℕ × ℕ))
    → undone target es q (undone target es q c) ≡ undone target es q c
undone-twice target [] q c = refl
undone-twice target (e ∷ es) q c =
    choice-twice (path_eq (full_path target e.path) q) (recorded e) c (undone target es q)
      (undone-twice target es q c)

-- An entry of the same file as the entry `e`, on a disk whose files away from the path are the same.
abbrev pub Follows : FilePath → JournalEntry → Disk → JournalEntry → Disk → Type 0
Follows full e d e' d' =
    (e'.path ≡ e.path)
    × (recorded e' ≡ recorded e)
    × ((q : FilePath) → path_eq full q ≡ false → file_at q d' ≡ file_at q d)

-- What a change leaves, where it succeeds and where it fails.
abbrev pub Attempts : FilePath → JournalEntry → Disk → Disk × Changed → Type 0
Attempts full e d (d', changed e') = Follows full e d e' d'
Attempts full e d (d', failed_with []) = SameFiles d d'
Attempts full e d (d', failed_with (e' ∷ es)) = (es ≡ []) × Follows full e d e' d'

with_outcome-Attempts :
    (full : FilePath) (e : JournalEntry) (d : Disk) (o : Disk × Option EntryOutcome)
    → Deletes full d o
    → Attempts full e d (with_outcome e o)
with_outcome-Attempts full e d (d', none) h = h
with_outcome-Attempts full e d (d', some outcome) h = (refl, refl, λ q away. h q ∙ rw away)

with_created-Attempts :
    (full : FilePath) (n : Node) (e : JournalEntry) (d : Disk) (o : Disk × Option FilePath × Bool)
    → Writes full n d (o.0, o.2)
    → Attempts full e d (with_created e o)
with_created-Attempts full n e d (d', created, true) h = (refl, refl, λ q away. h q ∙ rw away)
with_created-Attempts full n e d (d', created, false) h = (refl, (refl, refl, λ q away. h q))

delete-Attempts :
    (full : FilePath) (existed : Bool) (e : JournalEntry) (d : Disk)
    → Attempts full e d (with_outcome e (apply_delete full existed d))
unfolding apply_delete
delete-Attempts full true e d =
    with_outcome-Attempts full e d (on_removed (remove_path full d))
      (on_removed-Deletes full d (remove_path full d) (remove_path-Removes full d))
delete-Attempts full false e d = (refl, refl, λ q away. refl)

if-Attempts :
    (full : FilePath) (e : JournalEntry) (d : Disk) (b : Bool) (o o' : Disk × Changed)
    → Attempts full e d o
    → Attempts full e d o'
    → Attempts full e d (if b then o else o')
if-Attempts full e d true o o' h h' = h
if-Attempts full e d false o o' h h' = h'

pub apply_change-Attempts : (i : Item) (d : Disk) → Attempts i.full i.entry d (apply_change i d)
unfolding apply_change
apply_change-Attempts i d =
    let mode = write_mode i.entry in
    let o = apply_write i.full i.change.new_content mode d in
    if-Attempts i.full i.entry d i.change.delete
      (with_outcome i.entry (apply_delete i.full i.entry.existed_before d)) (with_created i.entry o)
      (delete-Attempts i.full i.entry.existed_before i.entry d)
      (with_created-Attempts i.full (Node.file i.change.new_content mode) i.entry d o
        (apply_write-Writes i.full i.change.new_content mode d))
