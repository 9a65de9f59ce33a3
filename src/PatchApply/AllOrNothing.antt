-- ===== src/PatchApply/AllOrNothing.antt =====
-- Apply is all or nothing, and Rollback undoes it (patchapply/patchapply.go).
use modulex.Prelude.{
  ℕ, String, ◌≡◌, refl, ◌∙◌, ap, subst, ◌≢◌, Bool, true, false, if◌then◌else◌, Option, none, some,
  List, [], ◌∷◌, arith,
}
use modulex.PatchApply.Paths.{FilePath, Result, ok, not_exist, failed, PathError}
use modulex.PatchApply.Disk.{Tree, Disk, stat}
use modulex.PatchApply.Files.{file_at, eq_of_path_eq, stat-SameFiles}
use modulex.PatchApply.Restore.{RestoreError, rollback_entries}
use modulex.PatchApply.Undoing.{undone, rollback_entries-undone}
use modulex.PatchApply.Batch.{
  FileChange, Options, Journal, ApplyError, Step, go_on, stop, check_rollback_approval,
}
use modulex.PatchApply.Applying.{
  apply_in, apply_at, apply, restored_all, bad_entry_of, is_journal_of, rollback_in, rollback_at,
  rollback,
}
use modulex.PatchApply.Settling.{is_clean, Settles, JournalUndoes, apply_in-Settles}

-- What Apply answers, with the file before at a path.
abbrev Ends : FilePath → Option (List ℕ × ℕ) → Disk → Step Journal → Type 0
Ends q before d (stop err) = is_clean err ≡ true → file_at q d ≡ before
Ends q before d (go_on j) =
    (t : FilePath) × ((j.target_dir ≡ some t) × (undone t j.entries q (file_at q d) ≡ before))

ends :
    (eval : Tree → FilePath → Result FilePath) (digest : List String → String) (real q : FilePath)
    (before : Option (List ℕ × ℕ)) (d : Disk) (s : Step Journal)
    → Settles eval digest real q before (JournalUndoes eval digest real q before) (d, s)
    → Ends q before d s
ends eval digest real q before d (stop err) h = h
ends eval digest real q before d (go_on j) h = (real, h)

apply_at-Ends :
    (eval : Tree → FilePath → Result FilePath) (digest : List String → String) (r : Result FilePath)
    (changes : List FileChange) (o : Options) (d : Disk) (q : FilePath)
    → ((bytes : List ℕ) → file_at q d ≢ some (bytes, 0))
    → Ends q
        (file_at q d)
        (apply_at eval digest changes o d r).0
        (apply_at eval digest changes o d r).2
apply_at-Ends eval digest failed changes o d q m = λ c. refl
apply_at-Ends eval digest not_exist changes o d q m = λ c. refl
apply_at-Ends eval digest (ok real) changes o d q m =
    let a = apply_in eval digest real changes o (stat real d) in
    ends eval digest real q (file_at q d) a.0 a.2 (
      apply_in-Settles eval digest real q (file_at q d) changes o (stat real d) m
        (stat-SameFiles real d q))

apply-Ends :
    (eval : Tree → FilePath → Result FilePath) (digest : List String → String) (target : FilePath)
    (changes : List FileChange) (o : Options) (d : Disk) (q : FilePath)
    → ((bytes : List ℕ) → file_at q d ≢ some (bytes, 0))
    → Ends q
        (file_at q d)
        (apply eval digest target changes o d).0
        (apply eval digest target changes o d).2
unfolding apply
apply-Ends eval digest target changes o d q m =
    apply_at-Ends eval digest (eval d.tree target) changes o d q m

-- An Apply that gives up, whatever the reason, a bad path, a missing approval, a drift, or a failure of
-- the operating system in the middle of the batch, leaves every file as it was, bytes and permissions,
-- and none where there was none, if the rollback of what was applied meets no error of its own. A file
-- whose permissions are all off is not covered.
pub apply-unchanged :
    (eval : Tree → FilePath → Result FilePath) (digest : List String → String) (target : FilePath)
    (changes : List FileChange) (o : Options) (d : Disk) (err : ApplyError)
    → (apply eval digest target changes o d).2 ≡ stop err
    → is_clean err ≡ true
    → (q : FilePath) → ((bytes : List ℕ) → file_at q d ≢ some (bytes, 0))
    → file_at q (apply eval digest target changes o d).0 ≡ file_at q d
apply-unchanged eval digest target changes o d err failure clean q m =
    subst (Ends q (file_at q d) (apply eval digest target changes o d).0) failure
      (apply-Ends eval digest target changes o d q m) clean

restored_all-done :
    (eval : Tree → FilePath → Result FilePath) (digest : List String → String)
    (o : Disk × List RestoreError)
    → (restored_all eval digest o).1 ≡ none
    → (o.1 ≡ []) × ((restored_all eval digest o).0 ≡ o.0)
restored_all-done eval digest (d, []) h = (refl, refl)
restored_all-done eval digest (d, err ∷ errs) h = ground (arith, h)

-- Without an error, what the journal records.
abbrev Undone : FilePath → FilePath → Journal → Disk → Disk × Options × Option ApplyError → Type 0
Undone t q j d r = r.2 ≡ none → file_at q r.0 ≡ undone t j.entries q (file_at q d)

if-Undone :
    (t q : FilePath) (j : Journal) (d : Disk) (b : Bool) (r r' : Disk × Options × Option ApplyError)
    → (b ≡ true → Undone t q j d r)
    → Undone t q j d r'
    → Undone t q j d (if b then r else r')
if-Undone t q j d true r r' h h' = h refl
if-Undone t q j d false r r' h h' = h'

rollback_in-Undone :
    (eval : Tree → FilePath → Result FilePath) (digest : List String → String)
    (bad : Option PathError) (t : FilePath) (j : Journal) (o : Options) (d : Disk) (q : FilePath)
    → Undone t q j d (rollback_in eval digest bad t j o d)
rollback_in-Undone eval digest (some e) t j o d q = λ done. ground (arith, done)
rollback_in-Undone eval digest none t j o d q =
    let c = check_rollback_approval digest j.entries o in
    let u = rollback_entries eval t j.entries d in
    let r = restored_all eval digest u in
    if-Undone t q j d c.1 (r.0, c.0, r.1) (d, c.0, some ApplyError.approval_needed)
      (λ approved done.
        let s = restored_all-done eval digest u done in
        ap (file_at q) s.1 ∙ rollback_entries-undone eval t j.entries d s.0 q)
      (λ done. ground (arith, done))

rollback_at-Undone :
    (eval : Tree → FilePath → Result FilePath) (digest : List String → String) (r : Result FilePath)
    (t : FilePath) (j : Journal) (o : Options) (d : Disk) (q : FilePath)
    → j.target_dir ≡ some t
    → Undone t q j d (rollback_at eval digest r j o d)
rollback_at-Undone eval digest failed t j o d q dir = λ done. ground (arith, done)
rollback_at-Undone eval digest not_exist t j o d q dir = λ done. ground (arith, done)
rollback_at-Undone eval digest (ok real) t j o d q dir =
    let bad = bad_entry_of eval digest d.tree real j.entries in
    if-Undone t q j d (is_journal_of eval digest real j) (rollback_in eval digest bad real j o d)
      (d, o, some ApplyError.wrong_journal)
      (λ same.
        let at = eq_of_path_eq t real (rw dir at same) in
        subst (λ p. Undone t q j d (rollback_in eval digest bad p j o d)) at
          (rollback_in-Undone eval digest bad t j o d q))
      (λ done. ground (arith, done))

-- A Rollback without an error, on whatever became of the disk since, leaves at each path what the entries
-- of the journal record and does not touch other files.
rollback-undone :
    (eval : Tree → FilePath → Result FilePath) (digest : List String → String) (target t : FilePath)
    (j : Journal) (o : Options) (d : Disk)
    → j.target_dir ≡ some t
    → (rollback eval digest target j o d).2 ≡ none
    → (q : FilePath)
    → file_at q (rollback eval digest target j o d).0 ≡ undone t j.entries q (file_at q d)
unfolding rollback
rollback-undone eval digest target t j o d dir done q =
    rollback_at-Undone eval digest (eval d.tree target) t j o d q dir done

-- Rollback is the inverse of Apply on files: after an Apply that succeeds, a Rollback with its journal that
-- succeeds leaves every file as it was before the Apply, bytes and permissions, and none where there was
-- none. A file whose permissions are all off is not covered.
pub rollback-apply :
    (eval : Tree → FilePath → Result FilePath) (digest : List String → String) (target : FilePath)
    (changes : List FileChange) (o o' : Options) (d : Disk) (j : Journal)
    → (apply eval digest target changes o d).2 ≡ go_on j
    → (rollback eval digest target j o' (apply eval digest target changes o d).0).2 ≡ none
    → (q : FilePath) → ((bytes : List ℕ) → file_at q d ≢ some (bytes, 0))
    → file_at q (rollback eval digest target j o' (apply eval digest target changes o d).0).0
      ≡ file_at q d
rollback-apply eval digest target changes o o' d j applied done q m =
    let d' = (apply eval digest target changes o d).0 in
    let (t, e) =
      subst (Ends q (file_at q d) d') applied (apply-Ends eval digest target changes o d q m) in
    rollback-undone eval digest target t j o' d' e.0 done q ∙ e.1
