-- ===== src/Verify.antt =====
-- The selection of checks for changed files and their run (verify/verify.go: PlanFor and its rules;
-- verify/run.go: Run, runOne). The reasons and messages are not modelled, but for the status.
pub mod Safe
pub mod Covering
pub mod Running
pub mod Passing
use Prim.Native.Char.{Char, code}
use Prim.Native.String.{◌++◌}
use modulex.Prelude.{
  ℕ, String, Bool, true, false, not, ◌&&◌, ◌||◌, ◌==◌, if◌then◌else◌, leb, nat_eq, Option, none,
  some, List, [], ◌∷◌, cut_prefix, has_prefix, has_suffix, text_leb,
}
use mathlib.Core.List.{◌++◌ as join, map}

pub data Category : Type 0 where
  focused full : Category

-- verify.CheckSpec
pub record CheckSpec : Type 0 where
  pub name : String
  pub command : String
  pub category : Category
  pub required_tool : String
  pub networked : Bool
  pub dir : String

pub record Plan : Type 0 where
  pub focused_checks : List CheckSpec
  pub full_gates : List CheckSpec

abbrev pub between : ℕ → ℕ → ℕ → Bool
between low high c = leb low c && leb c high

-- A character of safePathPattern: a letter, a digit, `_`, `.`, `-` or `/`.
abbrev pub is_safe_char : ℕ → Bool
is_safe_char c = between 65 90 c || between 97 122 c || between 45 57 c || nat_eq c 95

unfoldable pub all_chars : (ℕ → Bool) → String → Bool
all_chars f String.[] = true
all_chars f (String.◌∷◌ c s) = f (code c) && all_chars f s

abbrev pub starts_with_dot : String → Bool
starts_with_dot String.[] = false
starts_with_dot (String.◌∷◌ c s) = nat_eq (code c) 46

-- `strings.Contains(path, "..")`
unfoldable pub has_dots : String → Bool
has_dots String.[] = false
has_dots (String.◌∷◌ c s) =
    let rest = has_dots s in (nat_eq (code c) 46 && starts_with_dot s) || rest

-- isPathSafeForCommand
unfoldable pub is_path_safe : String → Bool
unfolding has_dots all_chars
is_path_safe path = not (path == "" || has_dots path) && all_chars is_safe_char path

abbrev pub slash : String
slash = "/"

-- `strings.ReplaceAll(path, "\\", "/")`
unfoldable pub to_slashes : String → String
to_slashes String.[] = String.[]
to_slashes (String.◌∷◌ c s) =
    if nat_eq (code c) 92 then slash ++ to_slashes s else String.◌∷◌ c (to_slashes s)

abbrev pub on_segment : Char → Option String → Option String
on_segment c none = none
on_segment c (some s) = some (String.◌∷◌ c s)

-- The text before the first slash, if there is one.
unfoldable pub before_slash : String → Option String
before_slash String.[] = none
before_slash (String.◌∷◌ c s) =
    let rest = before_slash s in if nat_eq (code c) 47 then some "" else on_segment c rest

abbrev pub or_empty : Option String → String
or_empty none = ""
or_empty (some s) = s

-- topLevelSegment
unfoldable pub top_level_segment : String → String
unfolding before_slash
top_level_segment path = or_empty (before_slash path)

-- isWorkflowFile
unfoldable pub is_workflow_file : String → Bool
unfolding cut_prefix has_suffix
is_workflow_file path =
    has_prefix ".github/workflows/" path && (has_suffix ".yml" path || has_suffix ".yaml" path)

-- isCheckScript
unfoldable pub is_check_script : String → Bool
unfolding cut_prefix has_suffix
is_check_script path = has_prefix "scripts/check-" path && has_suffix ".sh" path

abbrev pub focused_check : String → String → String → CheckSpec
focused_check name command tool = record {
  name = name;
  command = command;
  category = Category.focused;
  required_tool = tool;
  networked = false;
  dir = "";
}

abbrev pub gate : String → String → String → CheckSpec
gate name command tool = record {
  name = name;
  command = command;
  category = Category.full;
  required_tool = tool;
  networked = false;
  dir = "";
}

-- FullGates
abbrev pub full_gates_list : List CheckSpec
full_gates_list =
    gate "build" "make build" "go"
    ∷ gate "test" "make test" "go"
    ∷ gate "test-arch" "make test-arch" "go"
    ∷ gate "lint" "make lint" "golangci-lint"
    ∷ gate "check-consumer-boundary" "make check-consumer-boundary" "go"
    ∷ gate "check-module-boundary" "make check-module-boundary" "go"
    ∷ gate "check-api-compat" "make check-api-compat" "go"
    ∷ gate "check-changelog" "make check-changelog" "git"
    ∷ []

abbrev pub as_focused : CheckSpec → CheckSpec
as_focused g = record g { category = Category.focused; dir = "" }

-- fallbackToFullGates
abbrev pub fallback : List CheckSpec
fallback = map as_focused full_gates_list

abbrev pub child_of : String → Option String → String
child_of parent none = ""
child_of parent (some rest) =
    let sub = top_level_segment rest in if sub == "" then "" else parent ++ sub

-- The nested module below `tools/` or `services/`, if the path is in one.
abbrev pub child_module : String → String → String
child_module parent path = child_of parent (cut_prefix parent path)

-- nestedModuleDir
unfoldable pub nested_module_dir : String → String
unfolding cut_prefix top_level_segment
nested_module_dir path =
    let tool = child_module "tools/" path in
    let service = child_module "services/" path in
    if not (tool == "")
    then tool
    else if not (service == "")
    then service
    else if has_prefix "examples/external-consumer/" path
    then "examples/external-consumer"
    else ""

-- nestedModuleChecks
abbrev pub nested_module_checks : String → List CheckSpec
nested_module_checks dir =
    focused_check ("test-" ++ dir) ("go -C " ++ (dir ++ " test ./...")) "go"
    ∷ focused_check ("vet-" ++ dir) ("go -C " ++ (dir ++ " vet ./...")) "go"
    ∷ []

abbrev pub example_tests : String → List CheckSpec
example_tests dir =
    if dir == ""
    then []
    else focused_check ("test-" ++ ("examples/" ++ dir))
        ("go test ./" ++ ("examples/" ++ (dir ++ "/..."))) "go"
      ∷ []

-- focusedChecksForExample, on the rest of the path after `examples/`.
abbrev pub checks_for_example : String → String → List CheckSpec
checks_for_example path rest =
    let nested = nested_module_dir path in
    focused_check "build-examples" "go build ./examples/..." "go"
    ∷ (if not (nested == "")
        then nested_module_checks nested
        else example_tests (top_level_segment rest))

abbrev pub root_checks : List CheckSpec
root_checks =
    focused_check "test-root" "go test ." "go" ∷ focused_check "vet-root" "go vet ." "go" ∷ []

abbrev pub package_checks : String → List CheckSpec
package_checks pkg =
    focused_check ("test-" ++ pkg) ("go test ./" ++ (pkg ++ "/...")) "go"
    ∷ focused_check ("vet-" ++ pkg) ("go vet ./" ++ (pkg ++ "/...")) "go"
    ∷ []

-- focusedChecksForGoFile
abbrev pub checks_for_go_file : String → List CheckSpec
checks_for_go_file path =
    let nested = nested_module_dir path in
    let pkg = top_level_segment path in
    if not (nested == "")
    then nested_module_checks nested
    else if has_prefix "tools/" path || has_prefix "services/" path
    then fallback
    else if pkg == ""
    then root_checks
    else package_checks pkg

abbrev pub module_file_checks : List CheckSpec
module_file_checks =
    focused_check "check-api-compat" "make check-api-compat" "go"
    ∷ focused_check "go-mod-verify" "go mod verify" "go"
    ∷ []

-- The default rule.
abbrev pub checks_for_other : String → List CheckSpec
checks_for_other path =
    let nested = nested_module_dir path in
    if nested == "" then fallback else nested_module_checks nested

-- The rules of focusedChecksForFile past the examples.
abbrev pub checks_for_file : String → List CheckSpec
checks_for_file path =
    if path == "go.mod" || path == "go.sum"
    then module_file_checks
    else if path == "CHANGELOG.md"
    then focused_check "check-changelog" "make check-changelog" "git" ∷ []
    else if has_suffix ".go" path
    then checks_for_go_file path
    else checks_for_other path

abbrev pub checks_for_rest : String → Option String → List CheckSpec
checks_for_rest path none = checks_for_file path
checks_for_rest path (some rest) = checks_for_example path rest

abbrev pub checks_for_safe : String → List CheckSpec
checks_for_safe path =
    if is_workflow_file path
    then []
    else if is_check_script path
    then focused_check path ("./" ++ path) "" ∷ []
    else checks_for_rest path (cut_prefix "examples/" path)

-- focusedChecksForFile
unfoldable pub focused_checks_for_file : String → List CheckSpec
unfolding to_slashes is_path_safe is_workflow_file is_check_script nested_module_dir
    top_level_segment cut_prefix
focused_checks_for_file path =
    let p = to_slashes path in if not (is_path_safe p) then fallback else checks_for_safe p

abbrev pub category_eq : Category → Category → Bool
category_eq Category.focused Category.focused = true
category_eq Category.full Category.full = true
category_eq _ _ = false

-- The equality of the keys in dedupeAndSort.
abbrev pub same_key : CheckSpec → CheckSpec → Bool
same_key c d = category_eq c.category d.category && c.name == d.name && c.command == d.command

abbrev pub was_seen : CheckSpec → List CheckSpec → Bool
was_seen c [] = false
was_seen c (d ∷ ds) = same_key d c || was_seen c ds

-- The checks that were not seen before, those in `out` being seen.
unfoldable pub dedupe : List CheckSpec → List CheckSpec → List CheckSpec
dedupe out [] = []
dedupe out (c ∷ cs) = if was_seen c out then dedupe out cs else c ∷ dedupe (c ∷ out) cs

-- "focused" < "full"
abbrev pub comes_first : CheckSpec → CheckSpec → Bool
comes_first c d = elim (c.category) [
  | Category.focused ↦ elim (d.category) [
    | Category.focused ↦ text_leb c.name d.name
    | Category.full ↦ true
  ]
  | Category.full ↦ elim (d.category) [
    | Category.focused ↦ false
    | Category.full ↦ text_leb c.name d.name
  ]
]

abbrev pub insert_check : CheckSpec → List CheckSpec → List CheckSpec
insert_check c [] = c ∷ []
insert_check c (d ∷ ds) = if comes_first c d then c ∷ d ∷ ds else d ∷ insert_check c ds

abbrev pub sort_checks : List CheckSpec → List CheckSpec
sort_checks [] = []
sort_checks (c ∷ cs) = insert_check c (sort_checks cs)

-- dedupeAndSort. Checks with equal category and name keep their order here; sort.Slice leaves it open.
unfoldable pub dedupe_and_sort : List CheckSpec → List CheckSpec
unfolding dedupe text_leb
dedupe_and_sort cs = sort_checks (dedupe [] cs)

abbrev pub checks_of : List String → List CheckSpec
checks_of [] = []
checks_of (f ∷ fs) = join (focused_checks_for_file f) (checks_of fs)

-- PlanFor
unfoldable pub plan_for : List String → Plan
unfolding focused_checks_for_file dedupe_and_sort
plan_for files = record {
  focused_checks = dedupe_and_sort (checks_of files);
  full_gates = full_gates_list;
}
