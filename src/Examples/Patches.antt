-- ===== src/Examples/Patches.antt =====
-- Patches on test data (patchapply/): a target directory with one file, and a batch that replaces the file
-- and writes another one in a new directory.
use modulex.Prelude.{
  ℕ, zero, suc, String, ◌≡◌, refl, ◌≢◌, Bool, true, false, none, some, List, [], ◌∷◌, ◌++◌, arith,
}
use modulex.Approval.{Broker, Grant}
use modulex.PatchApply.Paths.{
  FilePath, Result, ok, not_exist, is_root, is_below, elements, resolved, resolved_path,
}
use modulex.PatchApply.Escapes.{Walk, Lands, resolved_path-Walk}
use modulex.PatchApply.Disk.{Node, Tree, find, Disk, EntryOutcome}
use modulex.PatchApply.Files.{file_at}
use modulex.PatchApply.Batch.{FileChange, Options, Journal, ApplyError, go_on, stop}
use modulex.PatchApply.Applying.{apply, rollback}
use modulex.PatchApply.AllOrNothing.{apply-unchanged, rollback-apply}
use modulex.PatchApply.Approved.{IsApproved, apply-IsApproved}

-- /srv/app
abbrev app : FilePath
app = "app" ∷ "srv" ∷ []

abbrev readme : FilePath
readme = "README" ∷ app

abbrev disk : Disk
disk = record {
  tree = ("srv" ∷ [], Node.dir) ∷ (app, Node.dir) ∷ (readme, Node.file (1 ∷ 2 ∷ []) 0o644) ∷ [];
  left_behind = [];
  faults = [];
}

abbrev times : ℕ → List Bool
times zero = []
times (suc n) = false ∷ times n

-- A path that exists is its own, without symbolic links.
abbrev real_path : Tree → FilePath → Result FilePath
real_path t p = elim (find p t) [ none ↦ not_exist | some n ↦ ok p ]

abbrev toy_digest : List String → String
toy_digest paths = "digest"

abbrev no_broker : Options
no_broker = record { broker = none; action = "write"; token = ""; now = 5 }

abbrev replace : FileChange
replace = record {
  path = "README";
  new_content = 3 ∷ [];
  delete = false;
  expected = some (1 ∷ 2 ∷ []);
}

abbrev create : FileChange
create = record { path = "docs/./guide"; new_content = 4 ∷ []; delete = false; expected = none }

abbrev remove : FileChange
remove = record { path = "README"; new_content = []; delete = true; expected = none }

guide-below :
    resolved_path (real_path disk.tree) app "docs/./guide" ≡ resolved ("guide" ∷ "docs" ∷ app)
unfolding resolved_path is_below
guide-below = refl

resolved_path-Walk_example :
    ((p : FilePath) × (Walk [] (elements "docs/./guide") p
        × (is_root p ≡ false)
        × (("guide" ∷ "docs" ∷ app) ≡ p ++ app)))
    × Lands (real_path disk.tree) app ("guide" ∷ "docs" ∷ app)
resolved_path-Walk_example =
    resolved_path-Walk (real_path disk.tree) app "docs/./guide" ("guide" ∷ "docs" ∷ app) guide-below

-- The rename of the second write fails, after seventeen calls that succeed.
abbrev breaking : Disk
breaking = record disk { faults = times 17 ++ (true ∷ []) }

abbrev both : List FileChange
both = replace ∷ create ∷ []

breaking-given_up :
    (apply real_path toy_digest app both no_broker breaking).2 ≡ stop (ApplyError.not_applied [])
unfolding apply is_below
breaking-given_up = refl

abbrev readme_mode : (bytes : List ℕ) → file_at readme disk ≢ some (bytes, 0)
readme_mode bytes e = ground (arith, e)

apply-unchanged_example :
    file_at readme (apply real_path toy_digest app both no_broker breaking).0
    ≡ file_at readme breaking
apply-unchanged_example =
    apply-unchanged real_path toy_digest app both no_broker breaking (ApplyError.not_applied [])
      breaking-given_up refl readme readme_mode

abbrev granted : Grant
granted = record {
  token = "t";
  token_hash = "h";
  scope = record { action = "write"; resource = "digest" };
  approved_by = "ann";
  approved_at = 1;
  expires_at = 100;
  used = false;
}

abbrev broker : Broker
broker = record { grants = ("t", granted) ∷ [] }

abbrev approved : Options
approved = record no_broker { broker = some broker; token = "t" }

abbrev journal : Journal
journal = record {
  target_dir = some app;
  entries =
      record {
        path = "README";
        existed_before = true;
        original_content = some (1 ∷ 2 ∷ []);
        original_mode = 0o644;
        outcome = EntryOutcome.written;
        created_dir = none;
      }
      ∷ record {
        path = "docs/./guide";
        existed_before = false;
        original_content = none;
        original_mode = 0;
        outcome = EntryOutcome.written;
        created_dir = some ("docs" ∷ app);
      }
      ∷ [];
}

both-applied : (apply real_path toy_digest app both no_broker disk).2 ≡ go_on journal
unfolding apply is_below
both-applied = refl

both-undone :
    (rollback real_path toy_digest app journal approved
      (apply real_path toy_digest app both no_broker disk).0).2
    ≡ none
unfolding apply rollback is_below
both-undone = refl

rollback-apply_example :
    file_at readme
      (rollback real_path toy_digest app journal approved
        (apply real_path toy_digest app both no_broker disk).0).0
    ≡ file_at readme disk
rollback-apply_example =
    rollback-apply real_path toy_digest app both no_broker approved disk journal both-applied
      both-undone readme readme_mode

abbrev removal : Journal
removal = record {
  target_dir = some app;
  entries =
      record {
        path = "README";
        existed_before = true;
        original_content = some (1 ∷ 2 ∷ []);
        original_mode = 0o644;
        outcome = EntryOutcome.deleted;
        created_dir = none;
      }
      ∷ [];
}

readme-removed : (apply real_path toy_digest app (remove ∷ []) approved disk).2 ≡ go_on removal
unfolding apply is_below
readme-removed = refl

apply-IsApproved_example : IsApproved real_path toy_digest ("README" ∷ []) approved
apply-IsApproved_example =
    apply-IsApproved real_path toy_digest app (remove ∷ []) approved disk removal readme-removed
      refl
