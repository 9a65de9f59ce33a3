-- ===== src/Verify/Safe.antt =====
-- The commands of a plan are safe for the shell (verify/verify.go).
use Prim.Native.Char.{Char, code}
use Prim.Native.String.{◌++◌}
use Prim.Native.String.append
use modulex.Prelude.{
  ℕ, String, ◌≡◌, refl, Bool, true, false, not, ◌||◌, ◌==◌, if◌then◌else◌, nat_eq, Option, none,
  some, List, [], ◌∷◌, All, arith, cut_prefix, has_prefix, has_suffix, Bool-cases, inl, inr,
}
use mathlib.Core.List.{◌++◌ as join}
use modulex.Verify.{
  CheckSpec, is_safe_char, all_chars, is_path_safe, to_slashes, before_slash, on_segment, or_empty,
  top_level_segment, is_workflow_file, is_check_script, focused_check, fallback, child_of,
  child_module, nested_module_dir, nested_module_checks, example_tests, checks_for_example,
  root_checks, package_checks, checks_for_go_file, module_file_checks, checks_for_other,
  checks_for_file, checks_for_rest, focused_checks_for_file, was_seen, comes_first, dedupe,
  insert_check, sort_checks, dedupe_and_sort, checks_of, plan_for,
}

-- The characters of a command that cannot be misread by a shell, and the space.
abbrev pub is_command_char : ℕ → Bool
is_command_char c = is_safe_char c || nat_eq c 32

abbrev pub IsPlain : String → Type 0
IsPlain s = all_chars is_command_char s ≡ true

append-IsPlain : (s t : String) → IsPlain s → IsPlain t → IsPlain (s ++ t)
unfolding all_chars
append-IsPlain String.[] t h k = rw (append.nil t) k
append-IsPlain (String.◌∷◌ c s) t h k =
    let here : is_command_char (code c) ≡ true = ground (arith, h) in
    let later : IsPlain s = ground (arith, h) in
    rw (append.cons c s t, here) (append-IsPlain s t later k)

abbrev IsSafe : String → Type 0
IsSafe s = all_chars is_safe_char s ≡ true

safe-IsPlain : (s : String) → IsSafe s → IsPlain s
unfolding all_chars
safe-IsPlain String.[] h = refl
safe-IsPlain (String.◌∷◌ c s) h = ground (arith, h, safe-IsPlain s)

-- A part of a safe path, if there is one.
abbrev IsSafePart : Option String → Type 0
IsSafePart none = Unit
IsSafePart (some s) = IsSafe s

if-IsSafePart :
    (b : Bool) (o o' : Option String)
    → IsSafePart o
    → IsSafePart o'
    → IsSafePart (if b then o else o')
if-IsSafePart true o o' h h' = h
if-IsSafePart false o o' h h' = h'

cut_prefix-IsSafePart : (p s : String) → IsSafe s → IsSafePart (cut_prefix p s)
unfolding all_chars cut_prefix
cut_prefix-IsSafePart String.[] s h = h
cut_prefix-IsSafePart (String.◌∷◌ c p) String.[] h = tt
cut_prefix-IsSafePart (String.◌∷◌ c p) (String.◌∷◌ d s) h =
    if-IsSafePart (nat_eq (code c) (code d)) (cut_prefix p s) none
      (cut_prefix-IsSafePart p s (ground (arith, h))) tt

on_segment-IsSafePart :
    (c : Char) (o : Option String)
    → is_safe_char (code c) ≡ true
    → IsSafePart o
    → IsSafePart (on_segment c o)
unfolding all_chars
on_segment-IsSafePart c none h k = tt
on_segment-IsSafePart c (some s) h k = rw h k

before_slash-IsSafePart : (s : String) → IsSafe s → IsSafePart (before_slash s)
unfolding all_chars before_slash
before_slash-IsSafePart String.[] h = tt
before_slash-IsSafePart (String.◌∷◌ c s) h =
    if-IsSafePart (nat_eq (code c) 47) (some "") (on_segment c (before_slash s)) refl (
      on_segment-IsSafePart c (before_slash s) (ground (arith, h))
        (before_slash-IsSafePart s (ground (arith, h))))

or_empty-IsPlain : (o : Option String) → IsSafePart o → IsPlain (or_empty o)
unfolding all_chars
or_empty-IsPlain none h = refl
or_empty-IsPlain (some s) h = safe-IsPlain s h

top_level_segment-IsPlain : (s : String) → IsSafe s → IsPlain (top_level_segment s)
unfolding top_level_segment
top_level_segment-IsPlain s h = or_empty-IsPlain (before_slash s) (before_slash-IsSafePart s h)

if-IsPlain : (b : Bool) (s t : String) → IsPlain s → IsPlain t → IsPlain (if b then s else t)
if-IsPlain true s t h k = h
if-IsPlain false s t h k = k

child_of-IsPlain :
    (parent : String) (o : Option String)
    → IsPlain parent
    → IsSafePart o
    → IsPlain (child_of parent o)
unfolding all_chars
child_of-IsPlain parent none h k = refl
child_of-IsPlain parent (some rest) h k =
    let sub = top_level_segment rest in
    if-IsPlain (sub == "") "" (parent ++ sub) refl
      (append-IsPlain parent sub h (top_level_segment-IsPlain rest k))

nested_module_dir-IsPlain : (path : String) → IsSafe path → IsPlain (nested_module_dir path)
unfolding nested_module_dir all_chars
nested_module_dir-IsPlain path h =
    let tool =
      child_of-IsPlain "tools/" (cut_prefix "tools/" path) refl
        (cut_prefix-IsSafePart "tools/" path h) in
    let service =
      child_of-IsPlain "services/" (cut_prefix "services/" path) refl
        (cut_prefix-IsSafePart "services/" path h) in
    if-IsPlain (not (child_module "tools/" path == "")) (child_module "tools/" path)
      (if not (child_module "services/" path == "")
        then child_module "services/" path
        else if has_prefix "examples/external-consumer/" path
        then "examples/external-consumer"
        else "")
      tool
      (if-IsPlain (not (child_module "services/" path == "")) (child_module "services/" path)
        (if has_prefix "examples/external-consumer/" path then "examples/external-consumer" else "")
        service
        (if-IsPlain (has_prefix "examples/external-consumer/" path) "examples/external-consumer" ""
          refl refl))

-- Checks whose commands are plain.
abbrev pub ArePlain : List CheckSpec → Type 0
ArePlain = All (λ c. IsPlain c.command)

if-ArePlain :
    (b : Bool) (cs ds : List CheckSpec)
    → ArePlain cs
    → ArePlain ds
    → ArePlain (if b then cs else ds)
if-ArePlain true cs ds h k = h
if-ArePlain false cs ds h k = k

fallback-ArePlain : ArePlain fallback
unfolding all_chars
fallback-ArePlain = (refl, (refl, (refl, (refl, (refl, (refl, (refl, (refl, tt))))))))

around-IsPlain :
    (before s after : String)
    → IsPlain before
    → IsPlain s
    → IsPlain after
    → IsPlain (before ++ (s ++ after))
around-IsPlain before s after h k l =
    append-IsPlain before (s ++ after) h (append-IsPlain s after k l)

nested_module_checks-ArePlain : (dir : String) → IsPlain dir → ArePlain (nested_module_checks dir)
unfolding all_chars
nested_module_checks-ArePlain dir h = (
  around-IsPlain "go -C " dir " test ./..." refl h refl,
  (around-IsPlain "go -C " dir " vet ./..." refl h refl, tt),
)

package_checks-ArePlain : (pkg : String) → IsPlain pkg → ArePlain (package_checks pkg)
unfolding all_chars
package_checks-ArePlain pkg h = (
  around-IsPlain "go test ./" pkg "/..." refl h refl,
  (around-IsPlain "go vet ./" pkg "/..." refl h refl, tt),
)

example_tests-ArePlain : (dir : String) → IsPlain dir → ArePlain (example_tests dir)
unfolding all_chars
example_tests-ArePlain dir h =
    if-ArePlain (dir == "") []
      (focused_check ("test-" ++ ("examples/" ++ dir))
          ("go test ./" ++ ("examples/" ++ (dir ++ "/..."))) "go"
        ∷ [])
      tt
      (
        append-IsPlain "go test ./" ("examples/" ++ (dir ++ "/...")) refl
            (around-IsPlain "examples/" dir "/..." refl h refl),
        tt,
      )

checks_for_example-ArePlain :
    (path rest : String) → IsSafe path → IsSafe rest → ArePlain (checks_for_example path rest)
unfolding all_chars
checks_for_example-ArePlain path rest h k =
    let nested = nested_module_dir path in
    (
      refl,
      if-ArePlain (not (nested == "")) (nested_module_checks nested)
          (example_tests (top_level_segment rest))
          (nested_module_checks-ArePlain nested (nested_module_dir-IsPlain path h))
          (example_tests-ArePlain (top_level_segment rest) (top_level_segment-IsPlain rest k)),
    )

checks_for_go_file-ArePlain : (path : String) → IsSafe path → ArePlain (checks_for_go_file path)
unfolding all_chars
checks_for_go_file-ArePlain path h =
    let nested = nested_module_dir path in
    let pkg = top_level_segment path in
    let direct = has_prefix "tools/" path || has_prefix "services/" path in
    let packaged : List CheckSpec = if pkg == "" then root_checks else package_checks pkg in
    if-ArePlain (not (nested == "")) (nested_module_checks nested)
      (if direct then fallback else packaged)
      (nested_module_checks-ArePlain nested (nested_module_dir-IsPlain path h))
      (if-ArePlain direct fallback packaged fallback-ArePlain (
        if-ArePlain (pkg == "") root_checks (package_checks pkg) (refl, (refl, tt))
          (package_checks-ArePlain pkg (top_level_segment-IsPlain path h))))

checks_for_file-ArePlain : (path : String) → IsSafe path → ArePlain (checks_for_file path)
unfolding all_chars
checks_for_file-ArePlain path h =
    let nested = nested_module_dir path in
    let changelog : List CheckSpec =
      focused_check "check-changelog" "make check-changelog" "git" ∷ [] in
    let other : List CheckSpec =
      if has_suffix ".go" path then checks_for_go_file path else checks_for_other path in
    if-ArePlain (path == "go.mod" || path == "go.sum") module_file_checks
      (if path == "CHANGELOG.md" then changelog else other) (refl, (refl, tt))
      (if-ArePlain (path == "CHANGELOG.md") changelog other (refl, tt)
        (if-ArePlain (has_suffix ".go" path) (checks_for_go_file path) (checks_for_other path)
          (checks_for_go_file-ArePlain path h)
          (if-ArePlain (nested == "") fallback (nested_module_checks nested) fallback-ArePlain
            (nested_module_checks-ArePlain nested (nested_module_dir-IsPlain path h)))))

checks_for_rest-ArePlain :
    (path : String) (o : Option String)
    → IsSafe path
    → IsSafePart o
    → ArePlain (checks_for_rest path o)
checks_for_rest-ArePlain path none h k = checks_for_file-ArePlain path h
checks_for_rest-ArePlain path (some rest) h k = checks_for_example-ArePlain path rest h k

is_path_safe-IsSafe : (path : String) → is_path_safe path ≡ true → IsSafe path
unfolding is_path_safe
is_path_safe-IsSafe path h = ground (arith, h)

focused_checks_for_file-ArePlain : (file : String) → ArePlain (focused_checks_for_file file)
unfolding focused_checks_for_file all_chars
focused_checks_for_file-ArePlain file = elim (Bool-cases (is_path_safe (to_slashes file))) [
  | inr unsafe ↦ rw unsafe fallback-ArePlain
  | inl safe ↦
      let path = to_slashes file in
      let h : IsSafe path = is_path_safe-IsSafe path safe in
      let script : List CheckSpec = focused_check path ("./" ++ path) "" ∷ [] in
      let rest = checks_for_rest path (cut_prefix "examples/" path) in
      rw safe (
        if-ArePlain (is_workflow_file path) [] (if is_check_script path then script else rest) tt (
          if-ArePlain (is_check_script path) script rest
            (append-IsPlain "./" path refl (safe-IsPlain path h), tt)
            (checks_for_rest-ArePlain path (cut_prefix "examples/" path) h
              (cut_prefix-IsSafePart "examples/" path h))))
]

join-ArePlain : (cs ds : List CheckSpec) → ArePlain cs → ArePlain ds → ArePlain (join cs ds)
join-ArePlain [] ds h k = k
join-ArePlain (c ∷ cs) ds h k = (h.0, join-ArePlain cs ds h.1 k)

dedupe-ArePlain : (out cs : List CheckSpec) → ArePlain cs → ArePlain (dedupe out cs)
unfolding dedupe
dedupe-ArePlain out [] h = tt
dedupe-ArePlain out (c ∷ cs) h =
    if-ArePlain (was_seen c out) (dedupe out cs) (c ∷ dedupe (c ∷ out) cs)
      (dedupe-ArePlain out cs h.1) (h.0, dedupe-ArePlain (c ∷ out) cs h.1)

insert_check-ArePlain :
    (c : CheckSpec) (cs : List CheckSpec)
    → IsPlain c.command
    → ArePlain cs
    → ArePlain (insert_check c cs)
insert_check-ArePlain c [] h k = (h, tt)
insert_check-ArePlain c (d ∷ ds) h k =
    if-ArePlain (comes_first c d) (c ∷ d ∷ ds) (d ∷ insert_check c ds) (h, k)
      (k.0, insert_check-ArePlain c ds h k.1)

sort_checks-ArePlain : (cs : List CheckSpec) → ArePlain cs → ArePlain (sort_checks cs)
sort_checks-ArePlain [] h = tt
sort_checks-ArePlain (c ∷ cs) h =
    insert_check-ArePlain c (sort_checks cs) h.0 (sort_checks-ArePlain cs h.1)

checks_of-ArePlain : (files : List String) → ArePlain (checks_of files)
checks_of-ArePlain [] = tt
checks_of-ArePlain (f ∷ fs) =
    join-ArePlain (focused_checks_for_file f) (checks_of fs) (focused_checks_for_file-ArePlain f)
      (checks_of-ArePlain fs)

-- Whatever paths a contribution has, with whatever characters, every command of its focused checks is made
-- of letters, digits, `_`, `.`, `-`, `/` and spaces only, so that no path brings shell syntax into what
-- Run hands to the shell.
pub plan_for-ArePlain : (files : List String) → ArePlain (plan_for files).focused_checks
unfolding plan_for dedupe_and_sort
plan_for-ArePlain files =
    sort_checks-ArePlain (dedupe [] (checks_of files))
      (dedupe-ArePlain [] (checks_of files) (checks_of-ArePlain files))
