-- ===== src/PatchApply/Settling.antt =====
-- What the steps of Apply leave behind, where they succeed and where they fail (patchapply/patchapply.go).
use modulex.Prelude.{
  ℕ, String, ◌≡◌, refl, sym, ◌∙◌, ap, subst, ◌≢◌, Bool, true, false, not, if◌then◌else◌, Option,
  none, some, List, [], ◌∷◌, ◌++◌, arith, Bool-cases, inl, inr, snoc, All, append-nil,
}
use modulex.PatchApply.Paths.{
  FilePath, path_eq, Result, ok, not_exist, failed, Resolution, resolved, refused, resolved_path,
}
use modulex.PatchApply.Escapes.{resolved_path-full}
use modulex.PatchApply.Disk.{Node, Tree, Disk, read_current}
use modulex.PatchApply.Files.{file_at, eq_of_path_eq}
use modulex.PatchApply.Reading.{Reads, read_current-Reads}
use modulex.PatchApply.Restore.{JournalEntry, RestoreError, mode_or_default, rollback_entries}
use modulex.PatchApply.Undoing.{full_path, recorded, undone, rollback_entries-undone}
use modulex.PatchApply.Batch.{
  FileChange, Options, Journal, ApplyError, Target, Item, Step, go_on, stop, add_target, is_taken,
  bytes_of, captured, prepend, is_expected, item_of, capture_current_state, check_approval,
}
use modulex.PatchApply.Applying.{
  Changed, changed, failed_with, apply_change, and_next, validate_change_paths, roll_back,
  after_change, apply_all, journal_of, apply_captured, apply_targets, apply_in,
}
use modulex.PatchApply.Attempts.{
  undone-snoc, undone-twice, Follows, Attempts, apply_change-Attempts,
}

-- The batch was given up without an error of its rollback.
abbrev pub is_clean : ApplyError → Bool
is_clean (ApplyError.not_applied []) = true
is_clean (ApplyError.not_applied (err ∷ errs)) = false
is_clean _ = true

clean-no_errors :
    (errs : List RestoreError) → is_clean (ApplyError.not_applied errs) ≡ true → errs ≡ []
clean-no_errors [] h = refl
clean-no_errors (err ∷ errs) h = ground (arith, h)

kept_mode : (mode : ℕ) → mode ≢ 0 → mode_or_default mode ≡ mode
kept_mode mode h = ground (arith, h)

module _ (eval : Tree → FilePath → Result FilePath) (digest : List String → String)
    (target q : FilePath) (before : Option (List ℕ × ℕ)) where
  -- Undoing the entries leads to the file before.
  abbrev Undoes : List JournalEntry → Disk → Type 0
  Undoes es d = undone target es q (file_at q d) ≡ before

  -- The entry of an item records the file before.
  abbrev Records : Item → Type 0
  Records i =
      (i.full ≡ full_path target i.entry.path)
      × (path_eq i.full q ≡ true → recorded i.entry ≡ before)

  abbrev pub Settles {ℓ} : {A : Type ℓ} → (A → Disk → Type 0) → Disk × Step A → Type 0
  Settles P (d, stop err) = is_clean err ≡ true → file_at q d ≡ before
  Settles P (d, go_on a) = P a d

  follow-Undoes :
      (es : List JournalEntry) (i : Item) (d d' : Disk) (e : JournalEntry)
      → Records i
      → Undoes es d
      → Follows i.full i.entry d e d'
      → Undoes (snoc es e) d'
  follow-Undoes es i d d' e r u f =
      let at : full_path target e.path ≡ i.full = ap (full_path target) f.0 ∙ sym r.0 in
      let choose =
        λ (p : FilePath). undone target es q (if path_eq p q then recorded e else file_at q d') in
      undone-snoc target es e q (file_at q d')
      ∙ ap choose at
      ∙ elim (Bool-cases (path_eq i.full q)) [
        | inl t ↦
            let r' : recorded e ≡ before = f.1 ∙ r.1 t in
            rw (t, r', ← u) (undone-twice target es q (file_at q d))
        | inr away ↦ rw (away, f.2 q away) u
      ]

  roll_back-Settles :
      (es : List JournalEntry) (d : Disk)
      → Undoes es d
      → Settles Undoes (roll_back eval digest target es d)
  roll_back-Settles es d u h =
      let no_errs = clean-no_errors (rollback_entries eval target es d).1 h in
      rollback_entries-undone eval target es d no_errs q ∙ u

  after_change-Settles :
      (es : List JournalEntry) (i : Item) (d : Disk) (o : Disk × Changed)
      (rest : List JournalEntry → Disk → Disk × Step (List JournalEntry))
      → Records i
      → Undoes es d
      → Attempts i.full i.entry d o
      → ((es' : List JournalEntry) (d' : Disk) → Undoes es' d' → Settles Undoes (rest es' d'))
      → Settles Undoes (after_change eval digest target es o rest)
  after_change-Settles es i d (d', changed e) rest r u a next =
      next (snoc es e) d' (follow-Undoes es i d d' e r u a)
  after_change-Settles es i d (d', failed_with []) rest r u a next =
      roll_back-Settles (es ++ []) d' (rw (append-nil es, a q) u)
  after_change-Settles es i d (d', failed_with (e ∷ more)) rest r u a next =
      roll_back-Settles (es ++ (e ∷ more)) d' (rw a.0 (follow-Undoes es i d d' e r u a.1))

  apply_all-Settles :
      (items : List Item) (es : List JournalEntry) (d : Disk)
      → All Records items
      → Undoes es d
      → Settles Undoes (apply_all eval digest target items es d)
  unfolding apply_all
  apply_all-Settles [] es d r u = u
  apply_all-Settles (i ∷ items) es d r u =
      after_change-Settles es i d (apply_change i d) (apply_all eval digest target items) r.0 u
        (apply_change-Attempts i d) (λ es' d' u'. apply_all-Settles items es' d' r.1 u')

  -- The items of a batch record the file before, on a disk that has it.
  abbrev Captures : List Item → Disk → Type 0
  Captures items d = All Records items × (file_at q d ≡ before)

  abbrev HasMode : Type 0
  HasMode = (bytes : List ℕ) → before ≢ some (bytes, 0)

  item_of-Records :
      (t : Target) (c : Option (List ℕ × ℕ))
      → HasMode
      → t.full ≡ full_path target t.change.path
      → (path_eq t.full q ≡ true → c ≡ before)
      → Records (item_of t c)
  item_of-Records t none m at r = (at, λ e. r e)
  item_of-Records t (some (bytes, mode)) m at r = (
    at,
    λ e.
        ap (λ x. some (bytes, x))
          (kept_mode mode (λ z. m bytes (sym (r e) ∙ ap (λ x. some (bytes, x)) z)))
        ∙ r e,
  )

  if-Settles {ℓ} :
      {A : Type ℓ} (P : A → Disk → Type 0) (b : Bool) (o o' : Disk × Step A)
      → Settles P o
      → Settles P o'
      → Settles P (if b then o else o')
  if-Settles P true o o' h h' = h
  if-Settles P false o o' h h' = h'

  prepend-Captures :
      (i : Item) (o : Disk × Step (List Item))
      → Records i
      → Settles Captures o
      → Settles Captures (prepend i o)
  prepend-Captures i (d, go_on is) r h = ((r, h.0), h.1)
  prepend-Captures i (d, stop err) r h = h

  captured-Settles :
      (t : Target) (d : Disk) (o : Disk × Result (Option (List ℕ × ℕ)))
      (rest : Disk → Disk × Step (List Item))
      → HasMode
      → t.full ≡ full_path target t.change.path
      → file_at q d ≡ before
      → Reads t.full d o
      → ((d' : Disk) → file_at q d' ≡ before → Settles Captures (rest d'))
      → Settles Captures (captured t o rest)
  captured-Settles t d (d', failed) rest m at k r next = λ c. r.0 q ∙ k
  captured-Settles t d (d', not_exist) rest m at k r next = λ c. r.0 q ∙ k
  captured-Settles t d (d', ok c) rest m at k r next =
      let k' = r.0 q ∙ k in
      if-Settles Captures (not (is_expected t.change.expected (bytes_of c)))
        (d', stop ApplyError.prior_mismatch) (prepend (item_of t c) (rest d')) (λ clean. k')
        (prepend-Captures (item_of t c) (rest d')
          (item_of-Records t c m at
            (λ e. r.1 c refl ∙ ap (λ p. file_at p d) (eq_of_path_eq t.full q e) ∙ k))
          (next d' k'))

  capture_current_state-Settles :
      (ts : List Target) (d : Disk)
      → HasMode
      → All (λ t. t.full ≡ full_path target t.change.path) ts
      → file_at q d ≡ before
      → Settles Captures (capture_current_state ts d)
  unfolding capture_current_state
  capture_current_state-Settles [] d m at k = (tt, k)
  capture_current_state-Settles (t ∷ ts) d m at k =
      captured-Settles t d (read_current t.full d) (capture_current_state ts) m at.0 k
        (read_current-Reads t.full d) (λ d' k'. capture_current_state-Settles ts d' m at.1 k')

  -- The journal of the directory, whose entries lead to the file before.
  abbrev pub JournalUndoes : Journal → Disk → Type 0
  JournalUndoes j d = (j.target_dir ≡ some target) × Undoes j.entries d

  journal_of-Settles :
      (o : Disk × Step (List JournalEntry))
      → Settles Undoes o
      → Settles JournalUndoes (journal_of eval digest target o)
  journal_of-Settles (d, stop err) h = h
  journal_of-Settles (d, go_on es) h = (refl, h)

  apply_captured-Settles :
      (o : Disk × Step (List Item))
      → Settles Captures o
      → Settles JournalUndoes (apply_captured eval digest target o)
  apply_captured-Settles (d, stop err) h = h
  apply_captured-Settles (d, go_on items) h =
      journal_of-Settles (apply_all eval digest target items [] d)
        (apply_all-Settles items [] d h.0 h.1)

  abbrev AreAt : List Target → Type 0
  AreAt = All (λ t. t.full ≡ full_path target t.change.path)

  if-Settles_last {ℓ} :
      {A : Type ℓ} (P : A → Disk → Type 0) (b : Bool) (o o' : Disk × Options × Step A)
      → Settles P (o.0, o.2)
      → Settles P (o'.0, o'.2)
      → Settles P ((if b then o else o').0, (if b then o else o').2)
  if-Settles_last P true o o' h h' = h
  if-Settles_last P false o o' h h' = h'

  apply_targets-Settles :
      (changes : List FileChange) (o : Options) (d : Disk) (ts : Step (List Target))
      → HasMode
      → file_at q d ≡ before
      → ((ts' : List Target) → ts ≡ go_on ts' → AreAt ts')
      → Settles JournalUndoes (
        (apply_targets eval digest target changes o d ts).0,
        (apply_targets eval digest target changes o d ts).2,
      )
  apply_targets-Settles changes o d (stop err) m k at = λ c. k
  apply_targets-Settles changes o d (go_on ts) m k at =
      let o' = check_approval digest changes o in
      let r = apply_captured eval digest target (capture_current_state ts d) in
      if-Settles_last JournalUndoes o'.1 (r.0, o'.0, r.1) (d, o'.0, stop ApplyError.approval_needed)
        (apply_captured-Settles (capture_current_state ts d)
          (capture_current_state-Settles ts d m (at ts refl) k))
        (λ c. k)

  abbrev AreTargets : Step (List Target) → Type 0
  AreTargets (go_on ts) = AreAt ts
  AreTargets (stop err) = Unit

  if-AreTargets :
      (b : Bool) (s s' : Step (List Target))
      → AreTargets s
      → AreTargets s'
      → AreTargets (if b then s else s')
  if-AreTargets true s s' h h' = h
  if-AreTargets false s s' h h' = h'

  All-snoc {ℓ} :
      {A : Type ℓ} (P : A → Type 0) (xs : List A) (a : A) → All P xs → P a → All P (snoc xs a)
  All-snoc P [] a h p = (p, tt)
  All-snoc P (x ∷ xs) a h p = (h.0, All-snoc P xs a h.1 p)

  add_target-AreTargets :
      (c : FileChange) (r : Resolution) (seen : List Target)
      → ((full : FilePath) → r ≡ resolved full → full ≡ full_path target c.path)
      → AreAt seen
      → AreTargets (add_target c r seen)
  add_target-AreTargets c (refused err) seen at h = tt
  add_target-AreTargets c (resolved full) seen at h =
      if-AreTargets (is_taken full seen) (stop ApplyError.same_target)
        (go_on (snoc seen (record { change = c; full = full }))) tt
        (All-snoc (λ t. t.full ≡ full_path target t.change.path) seen
          (record { change = c; full = full }) h (at full refl))

  and_next-AreTargets :
      (s : Step (List Target)) (f : List Target → Step (List Target))
      → AreTargets s
      → ((ts : List Target) → AreAt ts → AreTargets (f ts))
      → AreTargets (and_next s f)
  and_next-AreTargets (go_on ts) f h next = next ts h
  and_next-AreTargets (stop err) f h next = tt

  validate_change_paths-AreTargets :
      (tree : Tree) (changes : List FileChange) (seen : List Target)
      → AreAt seen
      → AreTargets (validate_change_paths eval digest tree target changes seen)
  unfolding validate_change_paths
  validate_change_paths-AreTargets tree [] seen at = at
  validate_change_paths-AreTargets tree (c ∷ cs) seen at =
      let r = resolved_path (eval tree) target c.path in
      and_next-AreTargets (add_target c r seen) (validate_change_paths eval digest tree target cs)
        (add_target-AreTargets c r seen
          (λ full e. resolved_path-full (eval tree) target c.path full e) at)
        (λ ts at'. validate_change_paths-AreTargets tree cs ts at')

  pub apply_in-Settles :
      (changes : List FileChange) (o : Options) (d : Disk × Result Node)
      → HasMode
      → file_at q d.0 ≡ before
      → Settles JournalUndoes
          ((apply_in eval digest target changes o d).0, (apply_in eval digest target changes o d).2)
  apply_in-Settles changes o (d, failed) m k = λ c. k
  apply_in-Settles changes o (d, not_exist) m k = λ c. k
  apply_in-Settles changes o (d, ok (Node.file bytes mode)) m k = λ c. k
  apply_in-Settles changes o (d, ok Node.dir) m k =
      apply_targets-Settles changes o d (validate_change_paths eval digest d.tree target changes [])
        m k (λ ts e. subst AreTargets e (validate_change_paths-AreTargets d.tree changes [] tt))
