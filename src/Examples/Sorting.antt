-- ===== src/Examples/Sorting.antt =====
-- The sort of the modules on test data (modulex.go: sortModules).
use modulex.Prelude.{
  ℕ, String, ◌≡◌, refl, sym, ◌∙◌, ap, subst, ◌↔◌, ◌⊎◌, ◌≢◌, some, List, [], ◌∷◌, In, Assoc, lookup,
  String-cases, arith, inl, inr, trim_space, test_of_ne,
}
use modulex.Errors.{Error}
use modulex.Module.{Module}
use modulex.Topo.{sorted, failed, no_fuel, sort_modules}
use modulex.Topo.Order.{IsKeyed, IsSortOf, sort_modules-IsSortOf, key_of}
use modulex.Topo.Fuel.{sort_modules-ne-no_fuel}
use modulex.Topo.Failures.{Explains, AllListed, sort_modules-Explains}
use modulex.Topo.Acyclic.{IsListed, IsLayered, sort_modules_iff}
use modulex.Examples.{db, api, registered, in_order}

registered-sorts : sort_modules registered in_order ≡ sorted (db ∷ api ∷ [])
unfolding sort_modules trim_space
registered-sorts = refl

names_kept : (key_of db ≡ "db") × (key_of api ≡ "api")
unfolding trim_space
names_kept = (refl, refl)

-- What a lookup in the test data finds.
pub find_registered :
    (k : String) (md : Module)
    → lookup k registered ≡ some md
    → ((k ≡ "api") × (md ≡ api)) ⊎ ((k ≡ "db") × (md ≡ db))
find_registered k md h = elim (String-cases "api" k) [
  | inl e ↦ inl (sym e, some_inj (sym h ∙ found_first k e))
  | inr d ↦ elim (String-cases "db" k) [
    | inl e ↦ inr (sym e, some_inj (sym h ∙ found_second k d e))
    | inr d' ↦ absurd (missed k d d' h)
  ]
]
  where
    some_inj : {a b : Module} → some a ≡ some b → a ≡ b
    some_inj e = cc

    found_first : (k : String) → "api" ≡ k → lookup k registered ≡ some api
    found_first k e = subst (λ n. lookup n registered ≡ some api) e refl

    found_second : (k : String) → "api" ≢ k → "db" ≡ k → lookup k registered ≡ some db
    found_second k d e = subst (λ n. lookup n registered ≡ some db) e refl

    missed : (k : String) → "api" ≢ k → "db" ≢ k → lookup k registered ≢ some md
    missed k d d' h = let e = test_of_ne "api" k d in let e' = test_of_ne "db" k d' in ground arith

registered-IsKeyed : IsKeyed registered
registered-IsKeyed k md h = elim (find_registered k md h) [
  | inl (e, f) ↦ ap key_of f ∙ (names_kept.1 ∙ sym e)
  | inr (e, f) ↦ ap key_of f ∙ (names_kept.0 ∙ sym e)
]

sort_modules-IsSortOf_example : IsSortOf registered in_order (db ∷ api ∷ [])
sort_modules-IsSortOf_example =
    sort_modules-IsSortOf registered in_order (db ∷ api ∷ []) registered-IsKeyed registered-sorts

sort_modules-ne-no_fuel_example : sort_modules registered in_order ≢ no_fuel
sort_modules-ne-no_fuel_example = sort_modules-ne-no_fuel registered in_order

-- Two modules that depend on each other.
abbrev knot : Assoc Module
knot = ("db", record db { depends_on = "api" ∷ [] }) ∷ ("api", api) ∷ []

knot-fails : sort_modules knot in_order ≡ failed (Error.cycle ("api" ∷ "db" ∷ "api" ∷ []))
unfolding sort_modules trim_space
knot-fails = refl

knot-AllListed : AllListed knot in_order
knot-AllListed = ((api, refl), ((record db { depends_on = "api" ∷ [] }, refl), tt))

sort_modules-Explains_example : Explains knot (Error.cycle ("api" ∷ "db" ∷ "api" ∷ []))
sort_modules-Explains_example =
    sort_modules-Explains knot in_order (Error.cycle ("api" ∷ "db" ∷ "api" ∷ [])) knot-AllListed
      knot-fails

registered-IsListed : IsListed registered in_order
registered-IsListed = record {
  listed = λ n md h. elim (find_registered n md h) [
    | inl (e, f) ↦ In.here e
    | inr (e, f) ↦ In.there (In.here e)
  ];
  registered = ((api, refl), ((db, refl), tt));
  keyed = registered-IsKeyed;
  named = λ md h. cc;
}

sort_modules_iff_example :
    ((mds : List Module) × (sort_modules registered in_order ≡ sorted mds))
    ↔ ((layer : String → ℕ) × IsLayered registered layer)
sort_modules_iff_example = sort_modules_iff registered in_order registered-IsListed
