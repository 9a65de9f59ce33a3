-- ===== src/PatchApply/Landed.antt =====
-- A successful Apply has landed the whole batch (patchapply/patchapply.go: Apply).
use modulex.Prelude.{ℕ, some, ◌≡◌, Option, List}
use modulex.PatchApply.Paths.{FilePath}
use modulex.PatchApply.Disk.{Disk}
use modulex.PatchApply.Files.{file_at}
use modulex.PatchApply.Batch.{FileChange, Journal, Step, go_on, stop}
use modulex.PatchApply.Landing.{HasLanded}

abbrev Files : Type 0
Files = FilePath → Option (List ℕ × ℕ)

-- What Apply answers, with the files there at first.
abbrev Succeeds : FilePath → List FileChange → Files → Disk → Step Journal → Type 0
Succeeds q cs at_first d (stop err) = Unit
Succeeds q cs at_first d (go_on j) =
    (t : FilePath) × ((j.target_dir ≡ some t)
      × HasLanded t q at_first cs j.entries (at_first q) (file_at q d))
