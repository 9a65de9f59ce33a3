-- ===== src/PatchApply/Approved.antt =====
-- Deletions need an approval (patchapply/patchapply.go: checkApproval, checkRollbackApproval).
use modulex.Prelude.{
  String, ◌≡◌, refl, true, Option, none, some, List, [], ◌∷◌, arith, Option-cases, inl, inr,
}
use modulex.Approval.{Status, pass, approval_required, Broker}
use modulex.PatchApply.Paths.{FilePath, Result, ok, not_exist, failed, PathError}
use modulex.PatchApply.Disk.{Node, Tree, Disk, stat}
use modulex.PatchApply.Batch.{
  FileChange, Options, Journal, Target, Step, go_on, stop, has_delete, paths_of, deleted_paths,
  passed, batch_scope, check_broker_scope, check_scope, check_approval, check_rollback_approval,
}
use modulex.PatchApply.Applying.{
  validate_change_paths, apply_targets, apply_in, apply_at, apply, bad_entry_of, rollback_in,
  rollback_at, rollback,
}

module _ (eval : Tree → FilePath → Result FilePath) (digest : List String → String) where
  -- The options hold a broker that passes the scope of the paths.
  abbrev pub IsApproved : List String → Options → Type 0
  IsApproved paths o =
      (b : Broker) × ((o.broker ≡ some b)
        × ((check_broker_scope b o.token (batch_scope digest o.action paths) o.now).1 ≡ pass))

  passed-pass : (o : Options) (r : Broker × Status) → (passed o r).1 ≡ true → r.1 ≡ pass
  passed-pass o (b, pass) h = refl
  passed-pass o (b, approval_required) h = ground (arith, h)

  check_scope-IsApproved :
      (paths : List String) (o : Options)
      → (check_scope digest true paths o).1 ≡ true
      → IsApproved paths o
  unfolding check_scope
  check_scope-IsApproved paths o h = elim (Option-cases o.broker) [
    | inl e ↦ ground (arith, h, e)
    | inr (b, e) ↦ (
      b,
      (
        e,
        passed-pass o (check_broker_scope b o.token (batch_scope digest o.action paths) o.now)
            (rw e at h),
      ),
    )
  ]

  apply_targets-approved :
      (target : FilePath) (changes : List FileChange) (o : Options) (d : Disk)
      (ts : Step (List Target)) (j : Journal)
      → (apply_targets eval digest target changes o d ts).2 ≡ go_on j
      → (check_approval digest changes o).1 ≡ true
  apply_targets-approved target changes o d (stop err) j h = ground (arith, h)
  apply_targets-approved target changes o d (go_on ts) j h = ground (arith, h)

  apply_in-approved :
      (target : FilePath) (changes : List FileChange) (o : Options) (d : Disk × Result Node)
      (j : Journal)
      → (apply_in eval digest target changes o d).2 ≡ go_on j
      → (check_approval digest changes o).1 ≡ true
  apply_in-approved target changes o (d, failed) j h = ground (arith, h)
  apply_in-approved target changes o (d, not_exist) j h = ground (arith, h)
  apply_in-approved target changes o (d, ok (Node.file bytes mode)) j h = ground (arith, h)
  apply_in-approved target changes o (d, ok Node.dir) j h =
      apply_targets-approved target changes o d
        (validate_change_paths eval digest d.tree target changes []) j h

  apply_at-approved :
      (r : Result FilePath) (changes : List FileChange) (o : Options) (d : Disk) (j : Journal)
      → (apply_at eval digest changes o d r).2 ≡ go_on j
      → (check_approval digest changes o).1 ≡ true
  apply_at-approved failed changes o d j h = ground (arith, h)
  apply_at-approved not_exist changes o d j h = ground (arith, h)
  apply_at-approved (ok real) changes o d j h = apply_in-approved real changes o (stat real d) j h

  -- An Apply that succeeds on a batch with a deletion was given a broker, and the broker has passed the
  -- scope that is computed from all the paths of the batch.
  pub apply-IsApproved :
      (target : FilePath) (changes : List FileChange) (o : Options) (d : Disk) (j : Journal)
      → (apply eval digest target changes o d).2 ≡ go_on j
      → has_delete changes ≡ true
      → IsApproved (paths_of changes) o
  unfolding apply check_approval
  apply-IsApproved target changes o d j h deletes =
      let a = apply_at-approved (eval d.tree target) changes o d j h in
      check_scope-IsApproved (paths_of changes) o (rw deletes at a)

  rollback_in-approved :
      (bad : Option PathError) (target : FilePath) (j : Journal) (o : Options) (d : Disk)
      → (rollback_in eval digest bad target j o d).2 ≡ none
      → (check_rollback_approval digest j.entries o).1 ≡ true
  rollback_in-approved (some e) target j o d h = ground (arith, h)
  rollback_in-approved none target j o d h = ground (arith, h)

  rollback_at-approved :
      (r : Result FilePath) (j : Journal) (o : Options) (d : Disk)
      → (rollback_at eval digest r j o d).2 ≡ none
      → (check_rollback_approval digest j.entries o).1 ≡ true
  rollback_at-approved failed j o d h = ground (arith, h)
  rollback_at-approved not_exist j o d h = ground (arith, h)
  rollback_at-approved (ok real) j o d h =
      rollback_in-approved (bad_entry_of eval digest d.tree real j.entries) real j o d
        (ground (arith, h))

  -- A Rollback that succeeds and has a file to delete was given a broker, and the broker has passed the
  -- scope that is computed from all the paths that it deletes.
  pub rollback-IsApproved :
      (target : FilePath) (j : Journal) (o : Options) (d : Disk) (p : String) (ps : List String)
      → (rollback eval digest target j o d).2 ≡ none
      → deleted_paths j.entries ≡ p ∷ ps
      → IsApproved (p ∷ ps) o
  unfolding rollback check_rollback_approval
  rollback-IsApproved target j o d p ps h deletes =
      let a = rollback_at-approved (eval d.tree target) j o d h in
      check_scope-IsApproved (p ∷ ps) o (rw (check_rollback_approval, deletes) at a)
