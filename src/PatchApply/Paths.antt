-- ===== src/PatchApply/Paths.antt =====
-- The paths of a patch (patchapply/path.go: resolvedPath, isWithin, verifyNoSymlinkEscape), with what
-- `filepath.Clean` and `filepath.Join` do. An absolute path is the list of its elements from the last to
-- the first; the root is the empty one.
use Prim.Native.Char.{Char, code}
use modulex.Prelude.{
  String, Bool, true, false, not, ◌&&◌, ◌||◌, ◌==◌, if◌then◌else◌, nat_eq, List, [], ◌∷◌, ◌++◌,
}

abbrev pub FilePath : Type 0
FilePath = List String

abbrev pub path_eq : FilePath → FilePath → Bool
path_eq [] [] = true
path_eq [] (y ∷ q) = false
path_eq (x ∷ p) [] = false
path_eq (x ∷ p) (y ∷ q) = x == y && path_eq p q

-- `filepath.Dir`
abbrev pub parent : FilePath → FilePath
parent [] = []
parent (x ∷ p) = p

abbrev pub push_char : Char → List String → List String
push_char c [] = String.◌∷◌ c String.[] ∷ []
push_char c (s ∷ rest) = String.◌∷◌ c s ∷ rest

-- The elements of a slash-separated path, the first first.
unfoldable pub elements : String → List String
elements String.[] = "" ∷ []
elements (String.◌∷◌ c s) =
    let rest = elements s in if nat_eq (code c) 47 then "" ∷ rest else push_char c rest

-- `filepath.IsAbs`
abbrev pub is_abs : String → Bool
is_abs String.[] = false
is_abs (String.◌∷◌ c s) = nat_eq (code c) 47

-- `..` against the elements before it.
abbrev pub go_up : FilePath → FilePath
go_up [] = ".." ∷ []
go_up (x ∷ p) = if x == ".." then ".." ∷ x ∷ p else p

abbrev pub is_here : String → Bool
is_here x = x == "" || x == "."

-- One element of a relative path in `filepath.Clean`.
abbrev pub clean_element : String → FilePath → FilePath
clean_element x p = if is_here x then p else if x == ".." then go_up p else x ∷ p

-- `filepath.Clean` on a relative path, after the elements cleaned so far.
unfoldable pub clean : List String → FilePath → FilePath
clean [] p = p
clean (x ∷ xs) p = clean xs (clean_element x p)

-- The cleaned path is `..` or begins with `../`.
abbrev pub begins_up : FilePath → Bool
begins_up [] = false
begins_up (x ∷ []) = x == ".."
begins_up (x ∷ y ∷ p) = begins_up (y ∷ p)

abbrev pub is_root : FilePath → Bool
is_root [] = true
is_root (x ∷ p) = false

-- The base with a separator is a prefix of the path.
unfoldable pub is_below : FilePath → FilePath → Bool
is_below base [] = false
is_below base (x ∷ p) = path_eq p base || is_below base p

-- isWithin. The root with a separator is `//`, a prefix of no cleaned path.
abbrev pub is_within : FilePath → FilePath → Bool
is_within base target = path_eq target base || (not (is_root base) && is_below base target)

-- What the operating system answers: a value, that the path does not exist, or another error.
pub data Result {ℓ} (A : Type ℓ) : Type ℓ where
  ok : A → Result A
  not_exist failed : Result A

pub data PathError : Type 0 where
  empty_path absolute_path path_traversal unresolved : PathError

pub data Resolution : Type 0 where
  resolved : FilePath → Resolution
  refused : PathError → Resolution

-- The test of what the nearest existing ancestor resolves to, or the test of the next one.
abbrev pub check_ancestor : FilePath → Result FilePath → Resolution → FilePath → Resolution
check_ancestor target (Result.ok real) next full =
    if is_within target real then resolved full else refused PathError.path_traversal
check_ancestor target Result.failed next full = refused PathError.unresolved
check_ancestor target Result.not_exist next full = next

module _ (eval_symlinks : FilePath → Result FilePath) where
  -- verifyNoSymlinkEscape, which answers `full` if it finds nothing.
  unfoldable pub verify_no_symlink_escape : FilePath → FilePath → FilePath → Resolution
  verify_no_symlink_escape target full [] =
      check_ancestor target (eval_symlinks []) (resolved full) full
  verify_no_symlink_escape target full (x ∷ dir) =
      let next = verify_no_symlink_escape target full dir in
      check_ancestor target (eval_symlinks (x ∷ dir)) next full

  -- resolvedPath
  unfoldable pub resolved_path : FilePath → String → Resolution
  unfolding elements clean verify_no_symlink_escape
  resolved_path target rel =
      if rel == ""
      then refused PathError.empty_path
      else if is_abs rel
      then refused PathError.absolute_path
      else let cleaned = clean (elements rel) [] in
        let full = cleaned ++ target in
        if begins_up cleaned || is_root cleaned || not (is_within target full)
        then refused PathError.path_traversal
        else verify_no_symlink_escape target full full
