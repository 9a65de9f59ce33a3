-- ===== src/Examples/Checks.antt =====
-- The selection of checks and the check of protected paths on test data (verify/, review/), with a toy
-- `path.Match` that knows literal segments only.
use modulex.Prelude.{
  not, if◌then◌else◌, false, String, ◌≡◌, refl, ◌↔◌, Bool, true, ◌==◌, Option, some, List, [], ◌∷◌,
  In,
}
use modulex.Verify.{plan_for}
use modulex.Verify.Running.{ToolStatus, Probe, Environment}
use modulex.Verify.Safe.{ArePlain, plan_for-ArePlain}
use modulex.Verify.Covering.{IsChecked, plan_for-IsChecked}
use modulex.Review.{Git, match_path_segments}
use modulex.Review.Globbing.{Globs, match_path_segments_iff}

-- A path with shell syntax, a Go file and a workflow.
abbrev contributed : List String
contributed = "docs/$(rm -rf x).md" ∷ "httpx/httpx.go" ∷ ".github/workflows/ci.yml" ∷ []

plan_for-ArePlain_example : ArePlain (plan_for contributed).focused_checks
plan_for-ArePlain_example = plan_for-ArePlain contributed

plan_for-IsChecked_example : IsChecked (plan_for contributed).focused_checks "httpx/httpx.go"
plan_for-IsChecked_example =
    plan_for-IsChecked contributed "httpx/httpx.go" (In.there (In.here refl))

abbrev toolless : Environment
toolless = record {
  has_makefile = λ dir. true;
  probe = λ dir target. some (if target == "lint" then Probe.no_rule else Probe.defined);
  execute = λ dir command. ("ok", not (command == "make test"));
}

abbrev go_only : List ToolStatus
go_only = record { name = "go"; present = true } ∷ record { name = "git"; present = false } ∷ []

abbrev literal_match : String → String → Option Bool
literal_match pattern name = some (pattern == name)

abbrev policy : List String
policy = "docs" ∷ "**" ∷ "policy.md" ∷ []

abbrev stars : String
stars = "**"

match_path_segments_iff_example :
    (match_path_segments literal_match policy ("docs" ∷ "planning" ∷ "policy.md" ∷ []) ≡ some true)
    ↔ Globs literal_match policy ("docs" ∷ "planning" ∷ "policy.md" ∷ [])
match_path_segments_iff_example =
    match_path_segments_iff literal_match policy ("docs" ∷ "planning" ∷ "policy.md" ∷ [])
      ((λ o n. refl), ((λ o n. refl), ((λ o n. refl), tt)))

-- One line is added below the header of the unreleased section.
abbrev git : Git
git = record {
  changed = some ("CHANGELOG.md" ∷ "httpx/httpx.go" ∷ []);
  base_content = λ file. some "# Changelog\n## [Unreleased]\n## [1.0.0]\n";
  head_content = λ file. some "# Changelog\n## [Unreleased]\n- a fix\n## [1.0.0]\n";
  hunks = λ file. some (record { old_start = 2; old_count = 0; new_start = 3; new_count = 1 } ∷ []);
}

abbrev protected : List String
protected = "CHANGELOG.md" ∷ "docs/**/policy.md" ∷ []
