-- ===== src/Verify/Covering.antt =====
-- No change goes unchecked (verify/verify.go).
use Prim.Native.String.{◌++◌}
use modulex.Prelude.{
  String, ◌≡◌, refl, sym, ◌∙◌, ap, ◌↔◌, Bool, true, false, not, ◌&&◌, ◌||◌, ◌==◌, if◌then◌else◌,
  Option, none, some, List, [], ◌∷◌, arith, cut_prefix, has_prefix, has_suffix, Bool-cases, inl,
  inr, ◌⊎◌, In, subst,
}
use text.Mathlib.TextEquality.{eq_iff}
use mathlib.Core.List.{◌++◌ as join}
use modulex.Verify.{
  CheckSpec, is_path_safe, to_slashes, top_level_segment, is_workflow_file, is_check_script,
  focused_check, fallback, nested_module_dir, nested_module_checks, root_checks, package_checks,
  checks_for_go_file, module_file_checks, checks_for_other, checks_for_file, checks_for_rest,
  focused_checks_for_file, comes_first, same_key, was_seen, dedupe, insert_check, sort_checks,
  dedupe_and_sort, checks_of, plan_for,
}

abbrev is_nil : List CheckSpec → Bool
is_nil [] = true
is_nil (c ∷ cs) = false

is_nil-eq : (cs : List CheckSpec) → is_nil cs ≡ true → cs ≡ []
is_nil-eq [] h = refl
is_nil-eq (c ∷ cs) h = ground (arith, h)

if-filled :
    (b : Bool) (cs ds : List CheckSpec)
    → is_nil cs ≡ false
    → is_nil ds ≡ false
    → is_nil (if b then cs else ds) ≡ false
if-filled true cs ds h k = h
if-filled false cs ds h k = k

checks_for_go_file-filled : (path : String) → is_nil (checks_for_go_file path) ≡ false
checks_for_go_file-filled path =
    let nested = nested_module_dir path in
    let pkg = top_level_segment path in
    let direct = has_prefix "tools/" path || has_prefix "services/" path in
    let packaged : List CheckSpec = if pkg == "" then root_checks else package_checks pkg in
    if-filled (not (nested == "")) (nested_module_checks nested)
      (if direct then fallback else packaged) refl
      (if-filled direct fallback packaged refl
        (if-filled (pkg == "") root_checks (package_checks pkg) refl refl))

checks_for_file-filled : (path : String) → is_nil (checks_for_file path) ≡ false
checks_for_file-filled path =
    let nested = nested_module_dir path in
    let changelog : List CheckSpec =
      focused_check "check-changelog" "make check-changelog" "git" ∷ [] in
    let other : List CheckSpec =
      if has_suffix ".go" path then checks_for_go_file path else checks_for_other path in
    if-filled (path == "go.mod" || path == "go.sum") module_file_checks
      (if path == "CHANGELOG.md" then changelog else other) refl
      (if-filled (path == "CHANGELOG.md") changelog other refl (
        if-filled (has_suffix ".go" path) (checks_for_go_file path) (checks_for_other path)
          (checks_for_go_file-filled path)
          (if-filled (nested == "") fallback (nested_module_checks nested) refl refl)))

checks_for_rest-filled :
    (path : String) (o : Option String) → is_nil (checks_for_rest path o) ≡ false
checks_for_rest-filled path none = checks_for_file-filled path
checks_for_rest-filled path (some rest) = refl

-- A file whose path is safe and that is a workflow file.
abbrev pub is_left_to_gates : String → Bool
is_left_to_gates file = is_path_safe (to_slashes file) && is_workflow_file (to_slashes file)

focused_checks_for_file-is_nil :
    (file : String) → is_nil (focused_checks_for_file file) ≡ is_left_to_gates file
unfolding focused_checks_for_file
focused_checks_for_file-is_nil file =
    let path = to_slashes file in
    let script : List CheckSpec = focused_check path ("./" ++ path) "" ∷ [] in
    let rest = checks_for_rest path (cut_prefix "examples/" path) in
    let filled =
      if-filled (is_check_script path) script rest refl
        (checks_for_rest-filled path (cut_prefix "examples/" path)) in
    elim (Bool-cases (is_path_safe path)) [
      | inr unsafe ↦ rw unsafe
      | inl safe ↦ elim (Bool-cases (is_workflow_file path)) [
        | inl w ↦ rw (safe, w)
        | inr w ↦ rw (safe, w) filled
      ]
    ]

-- A check of the list has the name and the command.
pub data Runs (c : CheckSpec) : List CheckSpec → Type 0 where
  here :
      {d : CheckSpec} {ds : List CheckSpec}
      → d.name ≡ c.name
      → d.command ≡ c.command
      → Runs c (d ∷ ds)
  there : {d : CheckSpec} {ds : List CheckSpec} → Runs c ds → Runs c (d ∷ ds)

same_key-eq : (c d : CheckSpec) → same_key d c ≡ true → (d.name ≡ c.name) × (d.command ≡ c.command)
same_key-eq c d h =
    let q1 = eq_iff d.name c.name in
    let q2 = eq_iff d.command c.command in (ground (arith, h, q1, q2), ground (arith, h, q1, q2))

Runs-insert_check :
    (c d : CheckSpec) (ds : List CheckSpec) → Runs c (d ∷ ds) → Runs c (insert_check d ds)
Runs-insert_check c d [] r = r
Runs-insert_check c d (x ∷ ds) r = elim (Bool-cases (comes_first d x)) [
  | inl t ↦ rw t r
  | inr f ↦ rw f (moved r (Runs-insert_check c d ds))
]
  where
    moved :
        Runs c (d ∷ x ∷ ds)
        → (Runs c (d ∷ ds) → Runs c (insert_check d ds))
        → Runs c (x ∷ insert_check d ds)
    moved (Runs.here p q) k = Runs.there (k (Runs.here p q))
    moved (Runs.there (Runs.here p q)) k = Runs.here p q
    moved (Runs.there (Runs.there r')) k = Runs.there (k (Runs.there r'))

Runs-sort_checks : (c : CheckSpec) (cs : List CheckSpec) → Runs c cs → Runs c (sort_checks cs)
Runs-sort_checks c [] r = elim r [ ]
Runs-sort_checks c (d ∷ ds) (here p q) = Runs-insert_check c d (sort_checks ds) (Runs.here p q)
Runs-sort_checks c (d ∷ ds) (there r) =
    Runs-insert_check c d (sort_checks ds) (Runs.there (Runs-sort_checks c ds r))

-- A check in `out` that is the same, as dedupe sees it.
was_seen-Runs : (c : CheckSpec) (out : List CheckSpec) → was_seen c out ≡ true → Runs c out
was_seen-Runs c [] h = ground (arith, h)
was_seen-Runs c (d ∷ ds) h = elim (Bool-cases (same_key d c)) [
  | inl t ↦ let e = same_key-eq c d t in Runs.here e.0 e.1
  | inr f ↦ Runs.there (was_seen-Runs c ds (rw f at h))
]

-- Each check is among those kept or among those seen before.
Runs-dedupe :
    (c : CheckSpec) (out cs : List CheckSpec) → Runs c cs → Runs c out ⊎ Runs c (dedupe out cs)
unfolding dedupe
Runs-dedupe c out [] r = elim r [ ]
Runs-dedupe c out (d ∷ ds) r = elim (Bool-cases (was_seen d out)) [
  | inl t ↦ rw t (old r (was_seen-Runs d out t) (Runs-dedupe c out ds))
  | inr f ↦ rw f (new r (Runs-dedupe c (d ∷ out) ds))
]
  where
    same_as :
        {xs : List CheckSpec} → d.name ≡ c.name → d.command ≡ c.command → Runs d xs → Runs c xs
    same_as p q (Runs.here a b) = Runs.here (a ∙ p) (b ∙ q)
    same_as p q (Runs.there x) = Runs.there (same_as p q x)

    old :
        Runs c (d ∷ ds)
        → Runs d out
        → (Runs c ds → Runs c out ⊎ Runs c (dedupe out ds))
        → Runs c out ⊎ Runs c (dedupe out ds)
    old (Runs.here p q) seen k = inl (same_as p q seen)
    old (Runs.there x) seen k = k x

    placed :
        Runs c (d ∷ out) ⊎ Runs c (dedupe (d ∷ out) ds)
        → Runs c out ⊎ Runs c (d ∷ dedupe (d ∷ out) ds)
    placed (inl (Runs.here p q)) = inr (Runs.here p q)
    placed (inl (Runs.there x)) = inl x
    placed (inr x) = inr (Runs.there x)

    new :
        Runs c (d ∷ ds)
        → (Runs c ds → Runs c (d ∷ out) ⊎ Runs c (dedupe (d ∷ out) ds))
        → Runs c out ⊎ Runs c (d ∷ dedupe (d ∷ out) ds)
    new (Runs.here p q) k = inr (Runs.here p q)
    new (Runs.there x) k = placed (k x)

Runs-dedupe_and_sort :
    (c : CheckSpec) (cs : List CheckSpec) → Runs c cs → Runs c (dedupe_and_sort cs)
unfolding dedupe_and_sort
Runs-dedupe_and_sort c cs r = elim (Runs-dedupe c [] cs r) [
  | inl x ↦ absurd (nowhere x)
  | inr x ↦ Runs-sort_checks c (dedupe [] cs) x
]
  where
    nowhere : Runs c [] → ⊥
    nowhere m = elim m [ ]

Runs-joinl : (c : CheckSpec) (cs ds : List CheckSpec) → Runs c cs → Runs c (join cs ds)
Runs-joinl c [] ds r = elim r [ ]
Runs-joinl c (x ∷ cs) ds (here p q) = Runs.here p q
Runs-joinl c (x ∷ cs) ds (there r) = Runs.there (Runs-joinl c cs ds r)

Runs-joinr : (c : CheckSpec) (cs ds : List CheckSpec) → Runs c ds → Runs c (join cs ds)
Runs-joinr c [] ds r = r
Runs-joinr c (x ∷ cs) ds r = Runs.there (Runs-joinr c cs ds r)

Runs-of_In : (c : CheckSpec) (cs : List CheckSpec) → In c cs → Runs c cs
Runs-of_In c [] m = elim m [ ]
Runs-of_In c (x ∷ cs) (In.here e) =
    Runs.here (ap (λ d. d.name) (sym e)) (ap (λ d. d.command) (sym e))
Runs-of_In c (x ∷ cs) (In.there m) = Runs.there (Runs-of_In c cs m)

Runs-checks_of :
    (c : CheckSpec) (files : List String) (file : String)
    → In file files
    → Runs c (focused_checks_for_file file)
    → Runs c (checks_of files)
Runs-checks_of c [] file m r = elim m [ ]
Runs-checks_of c (f ∷ fs) file (In.here e) r =
    Runs-joinl c (focused_checks_for_file f) (checks_of fs)
      (subst (λ x. Runs c (focused_checks_for_file x)) e r)
Runs-checks_of c (f ∷ fs) file (In.there m) r =
    Runs-joinr c (focused_checks_for_file f) (checks_of fs) (Runs-checks_of c fs file m r)

-- The file has no focused check exactly if it is left to the gates, and each one that it has is in the
-- plan.
pub record IsChecked (plan : List CheckSpec) (file : String) : Type 0 where
  pub left : (focused_checks_for_file file ≡ []) ↔ (is_left_to_gates file ≡ true)
  pub planned : (c : CheckSpec) → In c (focused_checks_for_file file) → Runs c plan

-- No changed file goes unchecked. Every changed file has a focused check, also one that no rule matches or
-- whose path is refused, but for a workflow file with a safe path, which has none; and for every focused
-- check of every changed file PlanFor recommends one with its name and its command.
pub plan_for-IsChecked :
    (files : List String) (file : String)
    → In file files
    → IsChecked (plan_for files).focused_checks file
unfolding plan_for
plan_for-IsChecked files file m =
    let e = focused_checks_for_file-is_nil file in
    record {
      left = (λ n. sym e ∙ ap is_nil n, λ l. is_nil-eq (focused_checks_for_file file) (e ∙ l));
      planned = λ c n.
          Runs-dedupe_and_sort c (checks_of files)
            (Runs-checks_of c files file m (Runs-of_In c (focused_checks_for_file file) n));
    }
