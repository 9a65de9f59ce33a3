-- ===== src/Diagnostics/Snapshots.antt =====
-- What a snapshot says of the manager (diagnostics.go).
use modulex.Prelude.{
  ℕ, String, ◌≡◌, refl, sym, ◌∙◌, ap, subst, ◌≢◌, ◌↔◌, ◌⊎◌, inl, inr, false, true, none, some, List,
  [], ◌∷◌, map, ◌==◌, if◌then◌else◌, Assoc, lookup, keys, trim_space, sort_strings, insert_sorted,
  text_leb, In, not-In-nil, All, Bool-cases, Option-cases, String-cases, test_of_ne,
}
use modulex.Module.{Module}
use modulex.Manager.{Manager}
use modulex.Tasks.Invariant.{TasksInv}
use modulex.Topo.Failures.{DependsOn}
use modulex.Diagnostics.{
  ContractEntry, nonempty, contract_deps, contract_entry, module_contract, TaskDiagnostic,
  task_diagnostic, insert_by, sort_by, diagnose, task_diagnostics,
}

In-insert_sorted_cases :
    (x y : String) (ys : List String) → In x (insert_sorted y ys) → (x ≡ y) ⊎ In x ys
unfolding insert_sorted
In-insert_sorted_cases x y [] (In.here e) = inl e
In-insert_sorted_cases x y [] (In.there h) = inr h
In-insert_sorted_cases x y (z ∷ ys) h = elim (Bool-cases (text_leb y z)) [
  | inl e ↦ first (rw (e, insert_sorted) at h)
  | inr e ↦ later (In-insert_sorted_cases x y ys) (rw (e, insert_sorted) at h)
]
  where
    first : In x (y ∷ z ∷ ys) → (x ≡ y) ⊎ In x (z ∷ ys)
    first (In.here e) = inl e
    first (In.there h) = inr h

    later :
        (In x (insert_sorted y ys) → (x ≡ y) ⊎ In x ys)
        → In x (z ∷ insert_sorted y ys)
        → (x ≡ y) ⊎ In x (z ∷ ys)
    later rest (In.here e) = inr (In.here e)
    later rest (In.there h) = elim (rest h) [ inl e ↦ inl e | inr i ↦ inr (In.there i) ]

In-insert_sorted_self : (y : String) (ys : List String) → In y (insert_sorted y ys)
unfolding insert_sorted
In-insert_sorted_self y [] = In.here refl
In-insert_sorted_self y (z ∷ ys) = elim (Bool-cases (text_leb y z)) [
  | inl e ↦ rw (e, insert_sorted) (In.here refl)
  | inr e ↦ rw (e, insert_sorted) (In.there (In-insert_sorted_self y ys))
]

In-insert_sorted_rest : (x y : String) (ys : List String) → In x ys → In x (insert_sorted y ys)
unfolding insert_sorted
In-insert_sorted_rest x y [] h = absurd (not-In-nil h)
In-insert_sorted_rest x y (z ∷ ys) (In.here q) = elim (Bool-cases (text_leb y z)) [
  | inl e ↦ rw (e, insert_sorted) (In.there (In.here q))
  | inr e ↦ rw (e, insert_sorted) (In.here q)
]
In-insert_sorted_rest x y (z ∷ ys) (In.there h) = elim (Bool-cases (text_leb y z)) [
  | inl e ↦ rw (e, insert_sorted) (In.there (In.there h))
  | inr e ↦ rw (e, insert_sorted) (In.there (In-insert_sorted_rest x y ys h))
]

In_of_sorted : (x : String) (xs : List String) → In x (sort_strings xs) → In x xs
unfolding sort_strings
In_of_sorted x [] h = h
In_of_sorted x (y ∷ ys) h = elim (In-insert_sorted_cases x y (sort_strings ys) h) [
  | inl e ↦ In.here e
  | inr i ↦ In.there (In_of_sorted x ys i)
]

In-sort_strings : (x : String) (xs : List String) → In x xs → In x (sort_strings xs)
unfolding sort_strings
In-sort_strings x [] h = h
In-sort_strings x (y ∷ ys) (In.here e) =
    subst (λ n. In n (insert_sorted y (sort_strings ys))) (sym e)
      (In-insert_sorted_self y (sort_strings ys))
In-sort_strings x (y ∷ ys) (In.there h) =
    In-insert_sorted_rest x y (sort_strings ys) (In-sort_strings x ys h)

nonempty_cases : (x : String) (xs : List String) → In x (nonempty xs) → In x xs × (x ≢ "")
nonempty_cases x [] h = absurd (not-In-nil h)
nonempty_cases x (y ∷ ys) h = elim (String-cases y "") [
  | inl e ↦
      let (i, d) =
        nonempty_cases x ys
          (subst (λ b. In x (if b then nonempty ys else y ∷ nonempty ys)) (same e) h) in
      (In.there i, d)
  | inr d ↦
      found d (nonempty_cases x ys)
        (subst (λ b. In x (if b then nonempty ys else y ∷ nonempty ys)) (test_of_ne y "" d) h)
]
  where
    same : y ≡ "" → (y == "") ≡ true
    same e = rw e refl

    found :
        y ≢ ""
        → (In x (nonempty ys) → In x ys × (x ≢ ""))
        → In x (y ∷ nonempty ys)
        → In x (y ∷ ys) × (x ≢ "")
    found d rest (In.here e) = (In.here e, λ empty. d (sym e ∙ empty))
    found d rest (In.there i) = let (j, d') = rest i in (In.there j, d')

In-nonempty : (x : String) (xs : List String) → In x xs → x ≢ "" → In x (nonempty xs)
In-nonempty x [] h d = absurd (not-In-nil h)
In-nonempty x (y ∷ ys) (In.here e) d =
    subst (λ b. In x (if b then nonempty ys else y ∷ nonempty ys))
      (sym (test_of_ne y "" (λ empty. d (e ∙ empty)))) (In.here e)
In-nonempty x (y ∷ ys) (In.there h) d = elim (Bool-cases (y == "")) [
  | inl e ↦
      subst (λ b. In x (if b then nonempty ys else y ∷ nonempty ys)) (sym e) (In-nonempty x ys h d)
  | inr e ↦
      subst (λ b. In x (if b then nonempty ys else y ∷ nonempty ys)) (sym e)
        (In.there (In-nonempty x ys h d))
]

deps_iff :
    (b : String) (deps : List String)
    → In b (contract_deps deps) ↔ (In b (map trim_space deps) × (b ≢ ""))
unfolding contract_deps
deps_iff b deps = (
  λ h. nonempty_cases b (map trim_space deps) (In_of_sorted b (nonempty (map trim_space deps)) h),
  λ (i, d).
      In-sort_strings b (nonempty (map trim_space deps)) (In-nonempty b (map trim_space deps) i d),
)

In-keys {ℓ} : {V : Type ℓ} (k : String) (v : V) (m : Assoc V) → lookup k m ≡ some v → In k (keys m)
In-keys k v [] h = cc
In-keys k v ((j, w) ∷ m) h = elim (String-cases j k) [
  | inl e ↦ In.here (sym e)
  | inr d ↦ In.there (
      In-keys k v m (subst (λ b. (if b then some w else lookup k m) ≡ some v) (test_of_ne j k d) h))
]

In-map_entry :
    (modules : Assoc Module) (k : String) (ks : List String)
    → In k ks
    → In (contract_entry modules k) (map (contract_entry modules) ks)
In-map_entry modules k [] h = absurd (not-In-nil h)
In-map_entry modules k (x ∷ ks) (In.here e) = In.here (ap (contract_entry modules) e)
In-map_entry modules k (x ∷ ks) (In.there h) = In.there (In-map_entry modules k ks h)

map_entry_cases :
    (modules : Assoc Module) (e : ContractEntry) (ks : List String)
    → In e (map (contract_entry modules) ks)
    → (k : String) × (e ≡ contract_entry modules k)
map_entry_cases modules e [] h = absurd (not-In-nil h)
map_entry_cases modules e (x ∷ ks) (In.here q) = (x, q)
map_entry_cases modules e (x ∷ ks) (In.there h) = map_entry_cases modules e ks h

entry-DependsOn :
    (modules : Assoc Module) (a b : String)
    → In b (contract_entry modules a).depends_on
    → DependsOn modules a b × (b ≢ "")
entry-DependsOn modules a b h = elim (Option-cases (lookup a modules)) [
  | inl e ↦ absurd (not-In-nil (rw (e, contract_entry) at h))
  | inr (md, e) ↦
      let (i, d) = (deps_iff b md.depends_on).0 (rw (e, contract_entry) at h) in
      (record { md = md; registered = e; declared = i }, d)
]

-- The edges of the contract.
pub record HasEdge (m : Manager) (a b : String) : Type 0 where
  pub entry : ContractEntry
  pub listed : In entry (module_contract m)
  pub named : entry.name ≡ a
  pub depends : In b entry.depends_on

-- ModuleContract shows the dependencies as the sort of the modules reads them: it has an edge from a
-- module to a name exactly when that module is registered, declares the name up to white space, and the
-- name is not empty.
pub module_contract-edges_iff :
    (m : Manager) (a b : String) → HasEdge m a b ↔ (DependsOn m.modules a b × (b ≢ ""))
unfolding module_contract
module_contract-edges_iff m a b = (
  λ h.
      let (k, e) = map_entry_cases m.modules h.entry (sort_strings (keys m.modules)) h.listed in
      let same : k ≡ a = sym (ap (λ x. x.name) e) ∙ h.named in
      subst (λ n. DependsOn m.modules n b × (b ≢ "")) same
        (entry-DependsOn m.modules k b (subst (λ x. In b x.depends_on) e h.depends)),
  λ (d, has). record {
    entry = contract_entry m.modules a;
    listed =
        In-map_entry m.modules a (sort_strings (keys m.modules))
          (In-sort_strings a (keys m.modules) (In-keys a d.md m.modules d.registered));
    named = refl;
    depends = rw (d.registered, contract_entry) ((deps_iff b d.md.depends_on).1 (d.declared, has));
  },
)

module _ (P : TaskDiagnostic → Type 0) where
  All-insert_by :
      (x : TaskDiagnostic) (xs : List TaskDiagnostic)
      → P x
      → All P xs
      → All P (insert_by (λ d. d.name) x xs)
  All-insert_by x [] p h = (p, tt)
  All-insert_by x (y ∷ ys) p h = elim (Bool-cases (text_leb x.name y.name)) [
    | inl e ↦ rw e (p, h)
    | inr e ↦ rw e (h.0, All-insert_by x ys p h.1)
  ]

  All-sort_by : (xs : List TaskDiagnostic) → All P xs → All P (sort_by (λ d. d.name) xs)
  All-sort_by [] h = tt
  All-sort_by (x ∷ xs) h = All-insert_by x (sort_by (λ d. d.name) xs) h.0 (All-sort_by xs h.1)

-- The entry of a task that still runs.
pub record IsUnfinished (m : Manager) (d : TaskDiagnostic) : Type 0 where
  pub not_done : d.done ≡ false
  pub no_err : d.err ≡ none
  pub running : (h : ℕ) × (lookup d.name m.tasks ≡ some h)

diagnose-IsUnfinished :
    (m : Manager) (ns : List String)
    → TasksInv m
    → All (IsUnfinished m) (diagnose m.tasks m.handles ns)
diagnose-IsUnfinished m [] i = tt
diagnose-IsUnfinished m (n ∷ ns) i = elim (Option-cases (lookup n m.tasks)) [
  | inl e ↦ rw (e, All, diagnose) (diagnose-IsUnfinished m ns i)
  | inr (h, e) ↦ rw (e, All, diagnose) (unfinished h e, diagnose-IsUnfinished m ns i)
]
  where
    unfinished :
        (h : ℕ) → lookup n m.tasks ≡ some h → IsUnfinished m (task_diagnostic (m.handles h))
    unfinished h e =
        let r = i.running n h e in
        record {
          not_done = rw r.not_done refl;
          no_err = rw r.not_done refl;
          running = (h, subst (λ k. lookup k m.tasks ≡ some h) (sym r.named) e);
        }

-- Of a manager whose tasks are in order, every task that the snapshot lists still runs, under the
-- name that the entry has, so that no entry is done and none has an error.
pub task_diagnostics-IsUnfinished :
    (m : Manager) → TasksInv m → All (IsUnfinished m) (task_diagnostics m)
unfolding task_diagnostics
task_diagnostics-IsUnfinished m i =
    All-sort_by (IsUnfinished m) (diagnose m.tasks m.handles (keys m.tasks))
      (diagnose-IsUnfinished m (keys m.tasks) i)
