-- ===== src/Topo/Acyclic.antt =====
-- When the sort succeeds (modulex.go: sortModules): exactly when the declared dependencies are
-- registered and can be laid out in layers.
use modulex.Prelude.{
  ℕ, suc, ◌<◌, String, ◌≡◌, refl, sym, ◌∙◌, subst, ◌≢◌, ◌↔◌, some, List, [], ◌∷◌, ◌++◌, map, snoc,
  lookup, Assoc, trim_space, In, not-In-nil, All, arith, append_assoc, In-append_cases,
  In-append_left, inl, inr, Nodup, ◌==◌, if◌then◌else◌, test_self, test_of_ne, String-cases,
}
use modulex.Errors.{Error, Sentinel}
use modulex.Module.{Module}
use modulex.Topo.{Sorted, sorted, failed, no_fuel, sort_modules}
use modulex.Topo.Order.{key_of, IsKeyed, names, IsOrdered, IsSortOf, sort_modules-IsSortOf}
use modulex.Topo.Fuel.{sort_modules-ne-no_fuel}
use modulex.Topo.Failures.{DependsOn, IsPath, Explains, AllListed, sort_modules-Explains}

-- Every declared dependency has a name, is registered, and stands in a lower layer.
pub record IsLayered (modules : Assoc Module) (layer : String → ℕ) : Type 0 where
  pub known : (a b : String) → DependsOn modules a b → (md : Module) × (lookup b modules ≡ some md)
  pub nonempty : (a : String) → ¬ DependsOn modules a ""
  pub below : (a b : String) → DependsOn modules a b → layer b < layer a

-- Where a name first stands.
position : String → List String → ℕ
position n [] = 0
position n (x ∷ xs) = if x == n then 0 else suc (position n xs)

position-lt :
    (a b : String) (pre post : List String)
    → In b pre
    → ¬ In a pre
    → position b (pre ++ post) < position a (pre ++ post)
unfolding position
position-lt a b [] post m h = absurd (not-In-nil m)
position-lt a b (x ∷ pre) post m h =
    rw (test_of_ne x a (λ e. h (In.here (sym e)))) (elim (String-cases x b) [
      | inl e ↦ rw (e, test_self b) (omega arith)
      | inr d ↦
          rw (test_of_ne x b d)
            (omega (arith, position-lt a b pre post (later m d) (λ k. h (In.there k))))
    ])
  where
    later : In b (x ∷ pre) → x ≢ b → In b pre
    later (In.here e) d = absurd (d (sym e))
    later (In.there k) d = k

module _ (modules : Assoc Module) where
  path_descends :
      (layer : String → ℕ)
      → IsLayered modules layer
      → (a b : String) (p : List String) → IsPath modules (a ∷ snoc p b)
      → layer b < layer a
  path_descends layer l a b [] h = l.below a b h.0
  path_descends layer l a b (x ∷ p) h =
      omega (arith, l.below a x h.0, path_descends layer l x b p h.1)

  not-Explains : (layer : String → ℕ) → IsLayered modules layer → (x : Error) → ¬ Explains modules x
  not-Explains layer l (Error.named Sentinel.dependency_not_found d) ((n, dep), missing) =
      let (md, e) = l.known n d dep in cc
  not-Explains layer l (Error.named Sentinel.self_dependency n) dep =
      absurd (omega (arith, l.below n n dep))
  not-Explains layer l (Error.named Sentinel.invalid_dependency_name n) dep = l.nonempty n dep
  not-Explains layer l (Error.cycle c) h =
      absurd (omega (arith, path_descends layer l h.origin h.origin h.inner h.is_path))
  not-Explains layer l _ h = h

  In-deps :
      (b : String) (deps seen : List String)
      → All (λ dep. In (trim_space dep) seen) deps
      → In b (map trim_space deps)
      → In b seen
  In-deps b [] seen all m = absurd (not-In-nil m)
  In-deps b (dep ∷ deps) seen all (In.here e) = subst (λ n. In n seen) (sym e) all.0
  In-deps b (dep ∷ deps) seen all (In.there m) = In-deps b deps seen all.1 m

  In-last : {x y : String} → In x (y ∷ []) → x ≡ y
  In-last (In.here e) = e
  In-last (In.there m) = absurd (not-In-nil m)

  some_inj : {x y : Module} → some x ≡ some y → x ≡ y
  some_inj h = cc

  -- In an ordered list the name `b` of a dependency stands before the name `a`.
  ordered_split :
      (a b : String)
      → DependsOn modules a b
      → (seen : List String) (mds : List Module) → IsOrdered seen mds
      → All (λ md. lookup (key_of md) modules ≡ some md) mds
      → Nodup (names mds)
      → ¬ In a seen
      → In a (names mds)
      → (pre post : List String) × (seen ++ names mds ≡ pre ++ post) × In b pre × ¬ In a pre
  ordered_split a b d seen [] ord found once new m = absurd (not-In-nil m)
  ordered_split a b d seen (x ∷ mds) ord found once new (In.here e) = (
    seen,
    names (x ∷ mds),
    refl,
    In-deps b x.depends_on seen ord.0 (
        subst (λ (md : Module). In b (map trim_space md.depends_on))
          (some_inj (sym d.registered ∙ subst (λ n. lookup n modules ≡ some x) (sym e) found.0))
          d.declared),
    new,
  )
  ordered_split a b d seen (x ∷ mds) ord found once new (In.there m) =
      let (pre, post, e, before, out) =
        ordered_split a b d (snoc seen (key_of x)) mds ord.1 found.1 once.1 fresh m in
      (pre, post, sym (append_assoc seen (key_of x ∷ []) (names mds)) ∙ e, before, out)
    where
      fresh : ¬ In a (snoc seen (key_of x))
      fresh k = elim (In-append_cases seen k) [
        | inl l ↦ new l
        | inr r ↦ once.0 (subst (λ n. In n (names mds)) (In-last r) m)
      ]

  All-at : (P : String → Type 0) (n : String) (todo : List String) → All P todo → In n todo → P n
  All-at P n [] all m = absurd (not-In-nil m)
  All-at P n (x ∷ todo) all (In.here e) = subst P (sym e) all.0
  All-at P n (x ∷ todo) all (In.there m) = All-at P n todo all.1 m

-- RegisterModule lists every registered name, and only those.
pub record IsListed (modules : Assoc Module) (module_order : List String) : Type 0 where
  pub listed : (n : String) (md : Module) → lookup n modules ≡ some md → In n module_order
  pub registered : AllListed modules module_order
  pub keyed : IsKeyed modules
  pub named : (md : Module) → lookup "" modules ≢ some md

module _ (modules : Assoc Module) (module_order : List String)
    (reg : IsListed modules module_order) where
  layers_of_sorted :
      (mds : List Module)
      → sort_modules modules module_order ≡ sorted mds
      → IsLayered modules (λ n. position n (names mds))
  layers_of_sorted mds h = record {
    known = known;
    nonempty = λ a d. let (md, e) = known a "" d in reg.named md e;
    below = λ a b d.
        let (pre, post, e, before, out) = split a b d in
        subst (λ l. position b l < position a l) (sym e) (position-lt a b pre post before out);
  }
    where
      sound : IsSortOf modules module_order mds
      sound = sort_modules-IsSortOf modules module_order mds reg.keyed h

      split :
          (a b : String)
          → DependsOn modules a b
          → (pre post : List String) × (names mds ≡ pre ++ post) × In b pre × ¬ In a pre
      split a b d =
          ordered_split modules a b d [] mds sound.is_ordered sound.registered sound.nodup
            not-In-nil
            (All-at modules _ a module_order sound.complete (reg.listed a d.md d.registered))

      find :
          (b : String) (l : List Module)
          → All (λ md. lookup (key_of md) modules ≡ some md) l
          → In b (names l)
          → (md : Module) × (lookup b modules ≡ some md)
      find b [] all m = absurd (not-In-nil m)
      find b (x ∷ l) all (In.here e) = (x, subst (λ n. lookup n modules ≡ some x) (sym e) all.0)
      find b (x ∷ l) all (In.there m) = find b l all.1 m

      known : (a b : String) → DependsOn modules a b → (md : Module) × (lookup b modules ≡ some md)
      known a b d =
          let (pre, post, e, before, out) = split a b d in
          find b mds sound.registered (subst (In b) (sym e) (In-append_left post before))

  sorted_of_layers :
      (layer : String → ℕ)
      → IsLayered modules layer
      → (mds : List Module) × (sort_modules modules module_order ≡ sorted mds)
  sorted_of_layers layer l = go (sort_modules modules module_order) refl
    where
      go :
          (r : Sorted)
          → sort_modules modules module_order ≡ r
          → (mds : List Module) × (sort_modules modules module_order ≡ sorted mds)
      go (sorted mds) e = (mds, e)
      go (failed x) e = absurd (
          not-Explains modules layer l x
            (sort_modules-Explains modules module_order x reg.registered e))
      go no_fuel e = absurd (sort_modules-ne-no_fuel modules module_order e)

  -- The sort of the registered modules returns an order exactly when every declared dependency has a
  -- name and is registered, and the names can be given numbers that fall along each dependency.
  pub sort_modules_iff :
      ((mds : List Module) × (sort_modules modules module_order ≡ sorted mds))
      ↔ ((layer : String → ℕ) × IsLayered modules layer)
  sort_modules_iff = (
    λ (mds, h). ((λ n. position n (names mds)), layers_of_sorted mds h),
    λ (layer, l). sorted_of_layers layer l,
  )
