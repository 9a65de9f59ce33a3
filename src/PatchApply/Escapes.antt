-- ===== src/PatchApply/Escapes.antt =====
-- Paths accepted by resolvedPath (patchapply/path.go) do not leave the target directory.
use modulex.Prelude.{
  String, ◌≡◌, refl, sym, subst, ◌≢◌, true, false, ◌==◌, List, [], ◌∷◌, ◌++◌, arith, Bool-cases,
  inl, inr, String-cases, test_of_ne,
}
use text.Mathlib.TextEquality.{eq_iff}
use modulex.PatchApply.Paths.{
  FilePath, elements, is_here, clean_element, clean, begins_up, is_root, is_within, Result,
  Resolution, resolved, check_ancestor, verify_no_symlink_escape, resolved_path,
}

-- A walk from a directory of the target, given by its elements below it, that follows the elements of a
-- path and is never above the target.
pub data Walk : FilePath → List String → FilePath → Type 0 where
  stop : (p : FilePath) → Walk p [] p
  stay :
      (x : String) (xs : List String) (p q : FilePath)
      → is_here x ≡ true
      → Walk p xs q
      → Walk p (x ∷ xs) q
  up : (y : String) (xs : List String) (p q : FilePath) → Walk p xs q → Walk (y ∷ p) (".." ∷ xs) q
  down :
      (x : String) (xs : List String) (p q : FilePath)
      → x ≢ ""
      → x ≢ "."
      → x ≢ ".."
      → Walk (x ∷ p) xs q
      → Walk p (x ∷ xs) q

-- Elements that are all names.
abbrev AreNames : FilePath → Type 0
AreNames [] = Unit
AreNames (x ∷ p) = ((x == "..") ≡ false) × AreNames p

-- Once above the target, the cleaned path stays so.
clean_element-begins_up :
    (x : String) (p : FilePath) → begins_up p ≡ true → begins_up (clean_element x p) ≡ true
clean_element-begins_up x [] h = ground (arith, h)
clean_element-begins_up x (y ∷ []) h = ground (arith, h)
clean_element-begins_up x (y ∷ z ∷ p) h = ground (arith, h)

clean-begins_up :
    (xs : List String) (p : FilePath) → begins_up p ≡ true → begins_up (clean xs p) ≡ true
unfolding clean
clean-begins_up [] p h = h
clean-begins_up (x ∷ xs) p h =
    clean-begins_up xs (clean_element x p) (clean_element-begins_up x p h)

clean-up :
    (xs : List String) (p : FilePath)
    → AreNames p
    → begins_up (clean xs (clean_element ".." p)) ≡ false
    → ((p' : FilePath) → AreNames p' → begins_up (clean xs p') ≡ false → Walk p' xs (clean xs p'))
    → Walk p (".." ∷ xs) (clean xs (clean_element ".." p))
clean-up xs [] names h walk = absurd (ground (arith, h, clean-begins_up xs (".." ∷ []) refl))
clean-up xs (y ∷ p) names h walk =
    let e : clean_element ".." (y ∷ p) ≡ p = ground (arith, names.0) in
    rw e (Walk.up y xs p (clean xs p) (walk p names.1 (rw e at h)))

clean-Walk :
    (xs : List String) (p : FilePath)
    → AreNames p
    → begins_up (clean xs p) ≡ false
    → Walk p xs (clean xs p)
unfolding clean
clean-Walk [] p names h = Walk.stop p
clean-Walk (x ∷ xs) p names h = elim (Bool-cases (is_here x)) [
  | inl here ↦
      let e : clean_element x p ≡ p = rw here in
      rw e (Walk.stay x xs p (clean xs p) here (clean-Walk xs p names (rw e at h)))
  | inr away ↦ elim (String-cases x "..") [
    | inl e ↦ rw e (clean-up xs p names (rw e at h) (clean-Walk xs))
    | inr n ↦
        let t = test_of_ne x ".." n in
        let e : clean_element x p ≡ x ∷ p = rw (away, t) in
        rw e (
          Walk.down x xs p (clean xs (x ∷ p)) (λ i. ground (arith, away, i, eq_iff x ""))
            (λ i. ground (arith, away, i, eq_iff x ".")) n
            (clean-Walk xs (x ∷ p) (t, names) (rw e at h)))
  ]
]

-- The nearest existing ancestor of a path, or the path itself, resolves to a path within the target.
pub data Lands (eval : FilePath → Result FilePath) (target : FilePath) : FilePath → Type 0 where
  lands :
      (p real : FilePath)
      → eval p ≡ Result.ok real
      → is_within target real ≡ true
      → Lands eval target p
  absent :
      (x : String) (p : FilePath)
      → eval (x ∷ p) ≡ Result.not_exist
      → Lands eval target p
      → Lands eval target (x ∷ p)
  nowhere : eval [] ≡ Result.not_exist → Lands eval target []

checked-Lands :
    (eval : FilePath → Result FilePath) (target full p next : FilePath) (r : Result FilePath)
    (o : Resolution)
    → eval p ≡ r
    → check_ancestor target r o full ≡ resolved next
    → (r ≡ Result.not_exist → o ≡ resolved next → Lands eval target p × (next ≡ full))
    → Lands eval target p × (next ≡ full)
checked-Lands eval target full p next (Result.ok real) o e h above =
    let w : is_within target real ≡ true = ground (arith, h) in
    (Lands.lands p real e w, ground (arith, h))
checked-Lands eval target full p next Result.failed o e h above = ground (arith, h)
checked-Lands eval target full p next Result.not_exist o e h above = above refl h

verify_no_symlink_escape-Lands :
    (eval : FilePath → Result FilePath) (target full p next : FilePath)
    → verify_no_symlink_escape eval target full p ≡ resolved next
    → Lands eval target p × (next ≡ full)
unfolding verify_no_symlink_escape
verify_no_symlink_escape-Lands eval target full [] next h =
    checked-Lands eval target full [] next (eval []) (resolved full) refl h
      (λ e o. (Lands.nowhere e, ground (arith, o)))
verify_no_symlink_escape-Lands eval target full (x ∷ p) next h =
    checked-Lands eval target full (x ∷ p) next (eval (x ∷ p))
      (verify_no_symlink_escape eval target full p) refl h
      (λ e o.
        let above = verify_no_symlink_escape-Lands eval target full p next o in
        (Lands.absent x p e above.0, above.1))

-- A path that resolvedPath accepts is one that a walk from the target directory follows without ever
-- leaving it, which ends at a path below the target; the path returned is that one, and its nearest
-- existing ancestor, all symbolic links followed, lies within the target.
pub resolved_path-Walk :
    (eval : FilePath → Result FilePath) (target : FilePath) (rel : String) (full : FilePath)
    → resolved_path eval target rel ≡ resolved full
    → ((p : FilePath) × (Walk [] (elements rel) p × (is_root p ≡ false) × (full ≡ p ++ target)))
      × Lands eval target full
unfolding resolved_path
resolved_path-Walk eval target rel full h =
    let p = clean (elements rel) [] in
    let inside : begins_up p ≡ false = ground (arith, h) in
    let below : is_root p ≡ false = ground (arith, h) in
    let v : verify_no_symlink_escape eval target (p ++ target) (p ++ target) ≡ resolved full =
      ground (arith, h) in
    let l = verify_no_symlink_escape-Lands eval target (p ++ target) (p ++ target) full v in
    (
      (p, (clean-Walk (elements rel) [] tt inside, below, l.1)),
      subst (Lands eval target) (sym l.1) l.0,
    )

-- The path returned is the one cleaned below the target.
pub resolved_path-full :
    (eval : FilePath → Result FilePath) (target : FilePath) (rel : String) (full : FilePath)
    → resolved_path eval target rel ≡ resolved full
    → full ≡ clean (elements rel) [] ++ target
unfolding resolved_path
resolved_path-full eval target rel full h =
    let at = clean (elements rel) [] ++ target in
    let v : verify_no_symlink_escape eval target at at ≡ resolved full = ground (arith, h) in
    (verify_no_symlink_escape-Lands eval target at at full v).1
