-- ===== src/PatchApply/Landing.antt =====
-- What a successful Apply has written (patchapply/patchapply.go).
use modulex.Prelude.{
  ℕ, String, ◌≡◌, refl, sym, ◌∙◌, ap, subst, Bool, true, false, not, if◌then◌else◌, nat_eq, Option,
  none, some, List, [], ◌∷◌, ◌++◌, arith, snoc, append_assoc, append-nil,
}
use modulex.PatchApply.Paths.{FilePath, path_eq, Result}
use modulex.PatchApply.Disk.{
  Node, Tree, Disk, remove_path, apply_write, EntryOutcome, apply_delete, on_removed,
}
use modulex.PatchApply.Files.{file_at}
use modulex.PatchApply.Writing.{Writes}
use modulex.PatchApply.Reading.{
  Deletes, on_removed-Deletes, remove_path-Removes, apply_write-Writes,
}
use modulex.PatchApply.Restore.{JournalEntry}
use modulex.PatchApply.Undoing.{full_path}
use modulex.PatchApply.Batch.{FileChange, Item, Step, go_on, stop, entry_of, write_mode}
use modulex.PatchApply.Applying.{
  Changed, changed, failed_with, with_outcome, with_created, apply_change, after_change, apply_all,
}

-- The permissions that a written file gets where `original` was: those of that file, but 0644 in place of
-- none at all and for a new file.
abbrev pub kept_mode : Option (List ℕ × ℕ) → ℕ
kept_mode none = 0o644
kept_mode (some (bytes, mode)) = if nat_eq mode 0 then 0o644 else mode

-- The file that a change leaves at its path, where `original` was at first and `before` is now: the new
-- bytes with the permissions kept, or none if the change deletes the file.
abbrev pub landed : FileChange → Option (List ℕ × ℕ) → Option (List ℕ × ℕ) → Option (List ℕ × ℕ)
landed c original before =
    if c.delete
    then elim original [ none ↦ before | some file ↦ none ]
    else some (c.new_content, kept_mode original)

-- The same from what the journal entry says.
abbrev written : FileChange → JournalEntry → Option (List ℕ × ℕ) → Option (List ℕ × ℕ)
written c e before =
    if c.delete
    then (if e.existed_before then none else before)
    else some (c.new_content, write_mode e)

written-landed :
    (c : FileChange) (o before : Option (List ℕ × ℕ))
    → written c (entry_of c.path o) before ≡ landed c o before
written-landed c none before = refl
written-landed c (some (bytes, mode)) before = refl

-- From the file `before` at a path, the changes one after the other lead to the file `after`; each has its
-- entry. `at_first` are the files before all of them.
abbrev pub HasLanded :
    FilePath
    → FilePath
    → (FilePath → Option (List ℕ × ℕ))
    → List FileChange
    → List JournalEntry
    → Option (List ℕ × ℕ)
    → Option (List ℕ × ℕ)
    → Type 0
HasLanded target q at_first [] [] before after = after ≡ before
HasLanded target q at_first [] (e ∷ es) before after = ⊥
HasLanded target q at_first (c ∷ cs) [] before after = ⊥
HasLanded target q at_first (c ∷ cs) (e ∷ es) before after =
    (e.path ≡ c.path)
    × HasLanded target q at_first cs es
        (if path_eq (full_path target c.path) q
          then landed c (at_first (full_path target c.path)) before
          else before)
        after

-- What a change that succeeds does to the file at `q`.
abbrev Lands : FilePath → Item → Disk → Disk × Changed → Type 0
Lands q i d (d', failed_with es) = Unit
Lands q i d (d', changed e) =
    (e.path ≡ i.entry.path)
    × (file_at q d'
        ≡ (if path_eq i.full q then written i.change i.entry (file_at q d) else file_at q d))

deleted-Lands :
    (q : FilePath) (i : Item) (d : Disk) (o : Disk × Option EntryOutcome)
    → i.change.delete ≡ true
    → i.entry.existed_before ≡ true
    → Deletes i.full d o
    → Lands q i d (with_outcome i.entry o)
deleted-Lands q i d (d', none) del ex h = tt
deleted-Lands q i d (d', some outcome) del ex h = (refl, h q ∙ rw (del, ex))

choice-same {ℓ} : {A : Type ℓ} (b : Bool) (a : A) → (if b then a else a) ≡ a
choice-same true a = refl
choice-same false a = refl

if_outcome-Lands :
    (q : FilePath) (i : Item) (d : Disk) (b : Bool) (o o' : Disk × Option EntryOutcome)
    → (b ≡ true → Lands q i d (with_outcome i.entry o))
    → (b ≡ false → Lands q i d (with_outcome i.entry o'))
    → Lands q i d (with_outcome i.entry (if b then o else o'))
if_outcome-Lands q i d true o o' h h' = h refl
if_outcome-Lands q i d false o o' h h' = h' refl

if-Lands :
    (q : FilePath) (i : Item) (d : Disk) (b : Bool) (o o' : Disk × Changed)
    → (b ≡ true → Lands q i d o)
    → (b ≡ false → Lands q i d o')
    → Lands q i d (if b then o else o')
if-Lands q i d true o o' h h' = h refl
if-Lands q i d false o o' h h' = h' refl

delete-Lands :
    (q : FilePath) (i : Item) (d : Disk)
    → i.change.delete ≡ true
    → Lands q i d (with_outcome i.entry (apply_delete i.full i.entry.existed_before d))
unfolding apply_delete
delete-Lands q i d del =
    if_outcome-Lands q i d (not i.entry.existed_before) (d, some EntryOutcome.noop)
      (on_removed (remove_path i.full d))
      (λ n.
        let ex : i.entry.existed_before ≡ false = ground (arith, n) in
        (refl, rw (del, ex) (sym (choice-same (path_eq i.full q) (file_at q d)))))
      (λ n.
        deleted-Lands q i d (on_removed (remove_path i.full d)) del (ground (arith, n))
          (on_removed-Deletes i.full d (remove_path i.full d) (remove_path-Removes i.full d)))

created-Lands :
    (q : FilePath) (i : Item) (d : Disk) (o : Disk × Option FilePath × Bool)
    → i.change.delete ≡ false
    → Writes i.full (Node.file i.change.new_content (write_mode i.entry)) d (o.0, o.2)
    → Lands q i d (with_created i.entry o)
created-Lands q i d (d', created, false) del h = tt
created-Lands q i d (d', created, true) del h = (refl, h q ∙ rw del)

apply_change-Lands : (q : FilePath) (i : Item) (d : Disk) → Lands q i d (apply_change i d)
unfolding apply_change
apply_change-Lands q i d =
    let o = apply_write i.full i.change.new_content (write_mode i.entry) d in
    if-Lands q i d i.change.delete
      (with_outcome i.entry (apply_delete i.full i.entry.existed_before d)) (with_created i.entry o)
      (delete-Lands q i d)
      (λ del.
        created-Lands q i d o del
          (apply_write-Writes i.full i.change.new_content (write_mode i.entry) d))

-- The items of the changes: their paths below the target, and the entries of the files there at first.
abbrev pub IsItemOf : FilePath → (FilePath → Option (List ℕ × ℕ)) → FileChange → Item → Type 0
IsItemOf target at_first c i =
    (i.change ≡ c)
    × (i.full ≡ full_path target c.path)
    × (i.entry ≡ entry_of c.path (at_first (full_path target c.path)))

abbrev pub AreItemsOf :
    FilePath → (FilePath → Option (List ℕ × ℕ)) → List FileChange → List Item → Type 0
AreItemsOf target at_first [] [] = Unit
AreItemsOf target at_first [] (i ∷ is) = ⊥
AreItemsOf target at_first (c ∷ cs) [] = ⊥
AreItemsOf target at_first (c ∷ cs) (i ∷ is) =
    IsItemOf target at_first c i × AreItemsOf target at_first cs is

path-entry_of : (path : String) (o : Option (List ℕ × ℕ)) → (entry_of path o).path ≡ path
path-entry_of path none = refl
path-entry_of path (some (bytes, mode)) = refl

module _ (eval : Tree → FilePath → Result FilePath) (digest : List String → String)
    (target q : FilePath) (at_first : FilePath → Option (List ℕ × ℕ)) where
  -- The entries of a result of applyAll: those before, and those of the changes that have landed.
  abbrev pub Extends :
      List FileChange
      → List JournalEntry
      → Option (List ℕ × ℕ)
      → Disk × Step (List JournalEntry)
      → Type 0
  Extends cs applied before (d, stop err) = Unit
  Extends cs applied before (d, go_on all) =
      (es : List JournalEntry) × ((all ≡ applied ++ es)
        × HasLanded target q at_first cs es before (file_at q d))

  placed :
      (i : Item) (c : FileChange) (e : JournalEntry) (d d' : Disk)
      → IsItemOf target at_first c i
      → Lands q i d (d', changed e)
      → file_at q d' ≡ (
          if path_eq (full_path target c.path) q
          then landed c (at_first (full_path target c.path)) (file_at q d)
          else file_at q d)
  placed i c e d d' it l =
      l.1
      ∙ ap (λ p. if path_eq p q then written i.change i.entry (file_at q d) else file_at q d) (it.1)
      ∙ ap (λ f. if path_eq (full_path target c.path) q then f else file_at q d)
          (ap (λ x. written x i.entry (file_at q d)) (it.0)
            ∙ ap (λ x. written c x (file_at q d)) (it.2)
            ∙ written-landed c (at_first (full_path target c.path)) (file_at q d))

  extend :
      (c : FileChange) (cs : List FileChange) (applied : List JournalEntry) (i : Item)
      (e : JournalEntry) (d d' : Disk) (o : Disk × Step (List JournalEntry))
      → IsItemOf target at_first c i
      → Lands q i d (d', changed e)
      → Extends cs (snoc applied e) (file_at q d') o
      → Extends (c ∷ cs) applied (file_at q d) o
  extend c cs applied i e d d' (d2, stop err) it l h = tt
  extend c cs applied i e d d' (d2, go_on all) it l (es, (eq, rest)) = (
    e ∷ es,
    (
      eq ∙ append_assoc applied (e ∷ []) es,
      (
        l.0 ∙ ap (λ x. x.path) (it.2) ∙ path-entry_of c.path (at_first (full_path target c.path)),
        subst (λ b. HasLanded target q at_first cs es b (file_at q d2)) (placed i c e d d' it l)
            rest,
      ),
    ),
  )

  after_change-Extends :
      (c : FileChange) (cs : List FileChange) (applied : List JournalEntry) (i : Item) (d : Disk)
      (o : Disk × Changed) (rest : List JournalEntry → Disk → Disk × Step (List JournalEntry))
      → IsItemOf target at_first c i
      → Lands q i d o
      → ((es : List JournalEntry) (d' : Disk) → Extends cs es (file_at q d') (rest es d'))
      → Extends (c ∷ cs) applied (file_at q d) (after_change eval digest target applied o rest)
  after_change-Extends c cs applied i d (d', changed e) rest it l next =
      extend c cs applied i e d d' (rest (snoc applied e) d') it l (next (snoc applied e) d')
  after_change-Extends c cs applied i d (d', failed_with es) rest it l next = tt

  pub apply_all-Extends :
      (cs : List FileChange) (items : List Item) (applied : List JournalEntry) (d : Disk)
      → AreItemsOf target at_first cs items
      → Extends cs applied (file_at q d) (apply_all eval digest target items applied d)
  unfolding apply_all
  apply_all-Extends [] [] applied d it = ([], (sym (append-nil applied), refl))
  apply_all-Extends [] (i ∷ is) applied d it = absurd it
  apply_all-Extends (c ∷ cs) [] applied d it = absurd it
  apply_all-Extends (c ∷ cs) (i ∷ is) applied d it =
      after_change-Extends c cs applied i d (apply_change i d) (apply_all eval digest target is)
        it.0 (apply_change-Lands q i d) (λ es d'. apply_all-Extends cs is es d' it.1)
