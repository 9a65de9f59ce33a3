-- ===== src/Review.antt =====
-- The check of protected paths (review/protectedpaths.go: CheckProtectedPaths, matchPathSegments, the
-- exceptions for CHANGELOG.md and go.mod). `path.Match` on one segment is a parameter, none for a
-- malformed pattern; what git answers is given, a diff by its hunks.
pub mod Globbing
pub mod Protecting
use Prim.Native.Char.{Char, code}
use modulex.Prelude.{
  ℕ, zero, suc, ◌+◌, ◌-◌, String, Bool, true, false, not, ◌&&◌, ◌||◌, ◌==◌, if◌then◌else◌, leb,
  nat_eq, Option, none, some, List, [], ◌∷◌, cut_prefix, has_prefix, trim_space,
}
use modulex.PatchApply.Paths.{elements}

abbrev pub is_empty : List String → Bool
is_empty [] = true
is_empty (x ∷ xs) = false

-- The first result that is not a mismatch, over the suffixes of a name.
abbrev pub or_next : Option Bool → Option Bool → Option Bool
or_next none rest = none
or_next (some true) rest = some true
or_next (some false) rest = rest

unfoldable pub any_suffix : (List String → Option Bool) → List String → Option Bool
any_suffix f [] = f []
any_suffix f (x ∷ xs) = or_next (f (x ∷ xs)) (any_suffix f xs)

abbrev pub and_rest : Option Bool → Option Bool → Option Bool
and_rest none rest = none
and_rest (some false) rest = some false
and_rest (some true) rest = rest

-- diffHunk
pub record DiffHunk : Type 0 where
  pub old_start : ℕ
  pub old_count : ℕ
  pub new_start : ℕ
  pub new_count : ℕ

abbrev pub push_to_line : Char → List String → List String
push_to_line c [] = String.◌∷◌ c String.[] ∷ []
push_to_line c (l ∷ ls) = String.◌∷◌ c l ∷ ls

-- `strings.Split(content, "\n")`
unfoldable pub split_newlines : String → List String
split_newlines String.[] = "" ∷ []
split_newlines (String.◌∷◌ c s) =
    let rest = split_newlines s in if nat_eq (code c) 10 then "" ∷ rest else push_to_line c rest

abbrev pub drop_last_empty : List String → List String
drop_last_empty [] = []
drop_last_empty (l ∷ []) = if l == "" then [] else l ∷ []
drop_last_empty (l ∷ m ∷ ls) = l ∷ drop_last_empty (m ∷ ls)

-- splitLines
unfoldable pub split_lines : String → List String
unfolding split_newlines
split_lines content = drop_last_empty (split_newlines content)

-- The end of the section: the line before the next version header, or the last line.
unfoldable pub section_end : ℕ → List String → ℕ
section_end j [] = j
section_end j (l ∷ ls) =
    let rest = section_end (suc j) ls in if has_prefix "## [" l then j else rest

unfoldable pub section_from : ℕ → List String → ℕ × ℕ
unfolding section_end
section_from i [] = (0, 0)
section_from i (l ∷ ls) =
    let rest = section_from (suc i) ls in
    if has_prefix "## [Unreleased]" l then (suc i, section_end (suc i) ls) else rest

-- unreleasedSectionRange
abbrev pub unreleased_section_range : String → ℕ × ℕ
unreleased_section_range content = section_from 0 (split_lines content)

-- rangeWithin
abbrev pub range_within : ℕ → ℕ → ℕ × ℕ → Bool
range_within start count (low, high) =
    if nat_eq count 0
    then true
    else if nat_eq low 0 && nat_eq high 0
    then false
    else leb low start && leb (start + count - 1) high

abbrev pub starts_directive : String → Bool
starts_directive String.[] = true
starts_directive (String.◌∷◌ c s) = nat_eq (code c) 32 || nat_eq (code c) 9 || nat_eq (code c) 40

abbrev pub directive_rest : Option String → Option String
directive_rest none = none
directive_rest (some rest) = if starts_directive rest then some (trim_space rest) else none

-- cutRetractKeyword
abbrev pub cut_retract_keyword : String → Option String
cut_retract_keyword trimmed = directive_rest (cut_prefix "retract" trimmed)

abbrev pub is_comment_or_nothing : Option String → Bool
is_comment_or_nothing none = false
is_comment_or_nothing (some rest) =
    let after = trim_space rest in after == "" || has_prefix "//" after

-- isRetractBlockOpen and isRetractBlockClose
abbrev pub is_block_open : String → Bool
is_block_open rest = is_comment_or_nothing (cut_prefix "(" rest)

abbrev pub is_block_close : String → Bool
is_block_close trimmed = is_comment_or_nothing (cut_prefix ")" trimmed)

abbrev pub on_directive : ℕ → Option String → (Option ℕ → List (ℕ × ℕ)) → List (ℕ × ℕ)
on_directive n none next = next none
on_directive n (some rest) next = if is_block_open rest then next (some n) else (n, n) ∷ next none

-- retractLineRanges from the line `n` on, inside the block that starts at a line or outside.
unfoldable pub retract_ranges_from : ℕ → List String → Option ℕ → List (ℕ × ℕ)
unfolding trim_space cut_prefix
retract_ranges_from n [] block = []
retract_ranges_from n (l ∷ ls) none =
    on_directive n (cut_retract_keyword (trim_space l)) (retract_ranges_from (suc n) ls)
retract_ranges_from n (l ∷ ls) (some start) =
    let out = retract_ranges_from (suc n) ls none in
    let inside = retract_ranges_from (suc n) ls (some start) in
    if is_block_close (trim_space l) then (start, n) ∷ out else inside

abbrev pub retract_line_ranges : String → List (ℕ × ℕ)
retract_line_ranges content = retract_ranges_from 1 (split_lines content) none

-- rangeIntersectsAny
abbrev pub range_intersects_any : ℕ → ℕ → List (ℕ × ℕ) → Bool
range_intersects_any start count [] = false
range_intersects_any start count ((low, high) ∷ rs) =
    let rest = range_intersects_any start count rs in
    not (nat_eq count 0) && ((leb start high && leb low (start + count - 1)) || rest)

-- What git answers: the changed files, the contents of a file at both ends, and the hunks of its diff.
pub record Git : Type 0 where
  pub changed : Option (List String)
  pub base_content : String → Option String
  pub head_content : String → Option String
  pub hunks : String → Option (List DiffHunk)

abbrev pub all_hunks : (DiffHunk → Bool) → List DiffHunk → Bool
all_hunks f [] = true
all_hunks f (h ∷ hs) = f h && all_hunks f hs

abbrev pub changelog_hunk_safe : String → String → DiffHunk → Bool
changelog_hunk_safe base head h =
    range_within h.old_start h.old_count (unreleased_section_range base)
    && range_within h.new_start h.new_count (unreleased_section_range head)

abbrev pub go_mod_hunk_safe : String → String → DiffHunk → Bool
go_mod_hunk_safe base head h =
    not (range_intersects_any h.old_start h.old_count (retract_line_ranges base))
    && not (range_intersects_any h.new_start h.new_count (retract_line_ranges head))

abbrev pub applies :
    (String → String → DiffHunk → Bool)
    → Option String
    → Option String
    → Option (List DiffHunk)
    → Bool
applies safe (some base) (some head) (some hs) = all_hunks (safe base head) hs
applies safe _ _ _ = false

-- fileExceptionApplies
unfoldable pub file_exception_applies : Git → String → (String → String → DiffHunk → Bool) → Bool
file_exception_applies git file safe =
    applies safe (git.base_content file) (git.head_content file) (git.hunks file)

-- The exceptions of the two files that have one.
unfoldable pub is_excepted : Git → String → Bool
unfolding file_exception_applies
is_excepted git file =
    (file == "CHANGELOG.md" && file_exception_applies git "CHANGELOG.md" changelog_hunk_safe)
    || (file == "go.mod" && file_exception_applies git "go.mod" go_mod_hunk_safe)

pub data Problem : Type 0 where
  bad_glob : String → Problem
  hit : String → String → Problem

pub data CheckStatus : Type 0 where
  passed : CheckStatus
  unavailable failed : List Problem → CheckStatus

abbrev pub append_problems : List Problem → List Problem → List Problem
append_problems [] qs = qs
append_problems (p ∷ ps) qs = p ∷ append_problems ps qs

abbrev pub status_of : List Problem → CheckStatus
status_of [] = CheckStatus.passed
status_of (p ∷ ps) = CheckStatus.failed (p ∷ ps)

abbrev pub is_true : Option Bool → Bool
is_true none = false
is_true (some b) = b

abbrev pub is_answer : Option Bool → Bool
is_answer none = false
is_answer (some b) = true

module _ (path_match : String → String → Option Bool) where
  -- matchPathSegments, none for path.ErrBadPattern.
  unfoldable pub match_path_segments : List String → List String → Option Bool
  unfolding any_suffix
  match_path_segments [] name = some (is_empty name)
  match_path_segments (p ∷ ps) [] =
      if p == "**"
      then (if is_empty ps then some true else any_suffix (match_path_segments ps) [])
      else some false
  match_path_segments (p ∷ ps) (n ∷ ns) =
      if p == "**"
      then (if is_empty ps then some true else any_suffix (match_path_segments ps) (n ∷ ns))
      else and_rest (path_match p n) (match_path_segments ps ns)

  -- matchProtectedPath
  abbrev pub match_protected_path : String → String → Option Bool
  match_protected_path pattern name = match_path_segments (elements pattern) (elements name)

  abbrev pub all_segments_valid : List String → Bool
  all_segments_valid [] = true
  all_segments_valid (s ∷ ss) = (s == "**" || is_answer (path_match s "")) && all_segments_valid ss

  -- The test of partitionGlobs.
  abbrev pub is_valid_glob : String → Bool
  is_valid_glob pattern = all_segments_valid (elements pattern)

  abbrev pub valid_globs : List String → List String
  valid_globs [] = []
  valid_globs (p ∷ ps) = if is_valid_glob p then p ∷ valid_globs ps else valid_globs ps

  abbrev pub glob_problems : List String → List Problem
  glob_problems [] = []
  glob_problems (p ∷ ps) =
      if is_valid_glob p then glob_problems ps else Problem.bad_glob p ∷ glob_problems ps

  -- The loop over the patterns for one file, before the hits of the files after it.
  unfoldable pub add_hit : Git → String → List String → List Problem → List Problem
  unfolding match_path_segments is_excepted
  add_hit git file [] rest = rest
  add_hit git file (p ∷ ps) rest =
      let later = add_hit git file ps rest in
      if not (is_true (match_protected_path p file))
      then later
      else if is_excepted git file
      then rest
      else Problem.hit file p ∷ rest

  unfoldable pub hits : Git → List String → List String → List Problem
  unfolding add_hit
  hits git patterns [] = []
  hits git patterns (f ∷ fs) = add_hit git f patterns (hits git patterns fs)

  abbrev pub status_of_diff : Git → List String → Option (List String) → CheckStatus
  status_of_diff git paths none = CheckStatus.unavailable (glob_problems paths)
  status_of_diff git paths (some files) =
      status_of (append_problems (glob_problems paths) (hits git (valid_globs paths) files))

  -- CheckProtectedPaths
  unfoldable pub check_protected_paths : Git → List String → CheckStatus
  unfolding hits
  check_protected_paths git [] = CheckStatus.passed
  check_protected_paths git (p ∷ ps) = status_of_diff git (p ∷ ps) git.changed
