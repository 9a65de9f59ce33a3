-- ===== src/PatchApply/Capturing.antt =====
-- The targets and the captured state of a batch (patchapply/patchapply.go: validateChangePaths,
-- captureCurrentState).
use modulex.Prelude.{
  ℕ, String, ◌≡◌, refl, ◌∙◌, ap, subst, Bool, true, false, not, if◌then◌else◌, Option, List, [],
  ◌∷◌, ◌++◌, snoc, append_assoc, append-nil,
}
use modulex.PatchApply.Paths.{
  FilePath, Result, ok, not_exist, failed, Resolution, resolved, refused, resolved_path,
}
use modulex.PatchApply.Escapes.{resolved_path-full}
use modulex.PatchApply.Disk.{Tree, Disk, read_current}
use modulex.PatchApply.Files.{file_at}
use modulex.PatchApply.Reading.{Reads, read_current-Reads}
use modulex.PatchApply.Undoing.{full_path}
use modulex.PatchApply.Batch.{
  FileChange, ApplyError, Target, Item, Step, go_on, stop, add_target, is_taken, bytes_of, captured,
  prepend, is_expected, item_of, entry_of, capture_current_state,
}
use modulex.PatchApply.Applying.{and_next, validate_change_paths}
use modulex.PatchApply.Landing.{IsItemOf, AreItemsOf}

module _ (eval : Tree → FilePath → Result FilePath) (digest : List String → String)
    (target q : FilePath) (at_first : FilePath → Option (List ℕ × ℕ)) where
  abbrev pub AreTargetsOf : List FileChange → List Target → Type 0
  AreTargetsOf [] [] = Unit
  AreTargetsOf [] (t ∷ ts) = ⊥
  AreTargetsOf (c ∷ cs) [] = ⊥
  AreTargetsOf (c ∷ cs) (t ∷ ts) =
      ((t.change ≡ c) × (t.full ≡ full_path target c.path)) × AreTargetsOf cs ts

  snoc-AreTargetsOf :
      (cs : List FileChange) (ts : List Target) (c : FileChange) (t : Target)
      → AreTargetsOf cs ts
      → (t.change ≡ c) × (t.full ≡ full_path target c.path)
      → AreTargetsOf (snoc cs c) (snoc ts t)
  snoc-AreTargetsOf [] [] c t h k = (k, tt)
  snoc-AreTargetsOf [] (u ∷ ts) c t h k = absurd h
  snoc-AreTargetsOf (b ∷ cs) [] c t h k = absurd h
  snoc-AreTargetsOf (b ∷ cs) (u ∷ ts) c t h k = (h.0, snoc-AreTargetsOf cs ts c t h.1 k)

  abbrev pub Targets : List FileChange → Step (List Target) → Type 0
  Targets cs (go_on ts) = AreTargetsOf cs ts
  Targets cs (stop err) = Unit

  if-Targets :
      (cs : List FileChange) (b : Bool) (r r' : Step (List Target))
      → Targets cs r
      → Targets cs r'
      → Targets cs (if b then r else r')
  if-Targets cs true r r' h h' = h
  if-Targets cs false r r' h h' = h'

  add_target-Targets :
      (pre : List FileChange) (c : FileChange) (r : Resolution) (seen : List Target)
      → ((full : FilePath) → r ≡ resolved full → full ≡ full_path target c.path)
      → AreTargetsOf pre seen
      → Targets (snoc pre c) (add_target c r seen)
  add_target-Targets pre c (refused err) seen at h = tt
  add_target-Targets pre c (resolved full) seen at h =
      let t : Target = record { change = c; full = full } in
      if-Targets (snoc pre c) (is_taken full seen) (stop ApplyError.same_target)
        (go_on (snoc seen t)) tt (snoc-AreTargetsOf pre seen c t h (refl, at full refl))

  and_next-Targets :
      (pre cs : List FileChange) (s : Step (List Target)) (f : List Target → Step (List Target))
      → Targets pre s
      → ((ts : List Target) → AreTargetsOf pre ts → Targets cs (f ts))
      → Targets cs (and_next s f)
  and_next-Targets pre cs (go_on ts) f h next = next ts h
  and_next-Targets pre cs (stop err) f h next = tt

  pub validate_change_paths-Targets :
      (tree : Tree) (pre cs : List FileChange) (seen : List Target)
      → AreTargetsOf pre seen
      → Targets (pre ++ cs) (validate_change_paths eval digest tree target cs seen)
  unfolding validate_change_paths
  validate_change_paths-Targets tree pre [] seen h = rw (append-nil pre) h
  validate_change_paths-Targets tree pre (c ∷ cs) seen h =
      let r = resolved_path (eval tree) target c.path in
      and_next-Targets (snoc pre c) (pre ++ (c ∷ cs)) (add_target c r seen)
        (validate_change_paths eval digest tree target cs)
        (add_target-Targets pre c r seen
          (λ full e. resolved_path-full (eval tree) target c.path full e) h)
        (λ ts k.
          subst (λ l. Targets l (validate_change_paths eval digest tree target cs ts))
            (append_assoc pre (c ∷ []) cs)
            (validate_change_paths-Targets tree (snoc pre c) cs ts k))

  -- The items captured for the changes, on a disk with the files there at first.
  abbrev pub Captures : List FileChange → Disk × Step (List Item) → Type 0
  Captures cs (d, stop err) = Unit
  Captures cs (d, go_on is) = AreItemsOf target at_first cs is × (file_at q d ≡ at_first q)

  if-Captures :
      (cs : List FileChange) (b : Bool) (o o' : Disk × Step (List Item))
      → Captures cs o
      → Captures cs o'
      → Captures cs (if b then o else o')
  if-Captures cs true o o' h h' = h
  if-Captures cs false o o' h h' = h'

  prepend-Captures :
      (c : FileChange) (cs : List FileChange) (i : Item) (o : Disk × Step (List Item))
      → IsItemOf target at_first c i
      → Captures cs o
      → Captures (c ∷ cs) (prepend i o)
  prepend-Captures c cs i (d, stop err) it h = tt
  prepend-Captures c cs i (d, go_on is) it h = ((it, h.0), h.1)

  captured-Captures :
      (c : FileChange) (cs : List FileChange) (t : Target) (d : Disk)
      (o : Disk × Result (Option (List ℕ × ℕ))) (rest : Disk → Disk × Step (List Item))
      → (t.change ≡ c) × (t.full ≡ full_path target c.path)
      → ((p : FilePath) → file_at p d ≡ at_first p)
      → Reads t.full d o
      → ((d' : Disk) → ((p : FilePath) → file_at p d' ≡ at_first p) → Captures cs (rest d'))
      → Captures (c ∷ cs) (captured t o rest)
  captured-Captures c cs t d (d', failed) rest at k reads next = tt
  captured-Captures c cs t d (d', not_exist) rest at k reads next = tt
  captured-Captures c cs t d (d', ok r) rest at k reads next =
      let same : r ≡ at_first (full_path target c.path) =
        reads.1 r refl ∙ k t.full ∙ ap at_first at.1 in
      if-Captures (c ∷ cs) (not (is_expected t.change.expected (bytes_of r)))
        (d', stop ApplyError.prior_mismatch) (prepend (item_of t r) (rest d')) tt
        (prepend-Captures c cs (item_of t r) (rest d')
          (at.0, at.1, ap (λ x. entry_of x.path r) at.0 ∙ ap (entry_of c.path) same)
          (next d' (λ p. reads.0 p ∙ k p)))

  pub capture_current_state-Captures :
      (cs : List FileChange) (ts : List Target) (d : Disk)
      → AreTargetsOf cs ts
      → ((p : FilePath) → file_at p d ≡ at_first p)
      → Captures cs (capture_current_state ts d)
  unfolding capture_current_state
  capture_current_state-Captures [] [] d h k = (tt, k q)
  capture_current_state-Captures [] (t ∷ ts) d h k = absurd h
  capture_current_state-Captures (c ∷ cs) [] d h k = absurd h
  capture_current_state-Captures (c ∷ cs) (t ∷ ts) d h k =
      captured-Captures c cs t d (read_current t.full d) (capture_current_state ts) h.0 k
        (read_current-Reads t.full d) (λ d' k'. capture_current_state-Captures cs ts d' h.1 k')
