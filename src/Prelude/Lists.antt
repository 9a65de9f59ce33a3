-- ===== src/Prelude/Lists.antt =====
-- Lists measured by the native numbers, membership as a matchable family, and no repetition.
use Prim.Native.Nat.{ℕ, zero, suc, ◌+◌}
use mathlib.Core.Path.{◌≡◌, refl, sym, ap}
use mathlib.Core.Logic.{◌⊎◌, inl, inr}
use mathlib.Core.List.{List, [], ◌∷◌, ◌++◌, map}
use native.Mathlib.Omega.{arith}

module _ {ℓ} {A : Type ℓ} where
  abbrev pub length : List A → ℕ
  length [] = 0
  length (x ∷ xs) = suc (length xs)

  abbrev pub take : ℕ → List A → List A
  take zero xs = []
  take (suc n) [] = []
  take (suc n) (x ∷ xs) = x ∷ take n xs

  -- `xs[:len(xs)-1]`, of a list that is not empty.
  abbrev pub drop_last : List A → List A
  drop_last [] = []
  drop_last (x ∷ []) = []
  drop_last (x ∷ y ∷ xs) = x ∷ drop_last (y ∷ xs)

  -- `append(xs, x)`
  abbrev pub snoc : List A → A → List A
  snoc xs x = xs ++ x ∷ []

  pub length-append : (xs ys : List A) → length (xs ++ ys) ≡ length xs + length ys
  length-append [] ys = omega arith
  length-append (x ∷ xs) ys = omega (arith, length-append xs ys)

  pub drop_last-snoc : (xs : List A) (x : A) → drop_last (snoc xs x) ≡ xs
  drop_last-snoc [] x = refl
  drop_last-snoc (y ∷ []) x = refl
  drop_last-snoc (y ∷ z ∷ xs) x = ap (λ l. y ∷ l) (drop_last-snoc (z ∷ xs) x)

-- Where an element stands in a list.
pub data In {ℓ} {A : Type ℓ} (a : A) : List A → Type ℓ where
  here : {x : A} {xs : List A} → a ≡ x → In a (x ∷ xs)
  there : {x : A} {xs : List A} → In a xs → In a (x ∷ xs)

module _ {ℓ} {A : Type ℓ} {a : A} where
  pub In-append_left : {xs : List A} (ys : List A) → In a xs → In a (xs ++ ys)
  In-append_left ys (In.here e) = In.here e
  In-append_left ys (In.there m) = In.there (In-append_left ys m)

  pub In-append_right : (xs : List A) {ys : List A} → In a ys → In a (xs ++ ys)
  In-append_right [] m = m
  In-append_right (x ∷ xs) m = In.there (In-append_right xs m)

  pub In-append_cases : (xs : List A) {ys : List A} → In a (xs ++ ys) → In a xs ⊎ In a ys
  In-append_cases [] m = inr m
  In-append_cases (x ∷ xs) (In.here e) = inl (In.here e)
  In-append_cases (x ∷ xs) (In.there m) = elim (In-append_cases xs m) [
    | inl l ↦ inl (In.there l)
    | inr r ↦ inr r
  ]

  pub not-In-nil : ¬ In a []
  not-In-nil m = elim m [ ]

pub In-map {ℓ κ} :
    {A : Type ℓ} {B : Type κ} (f : A → B) {a : A} {xs : List A} → In a xs → In (f a) (map f xs)
In-map f (In.here e) = In.here (ap f e)
In-map f (In.there m) = In.there (In-map f m)

-- No element occurs twice.
abbrev pub Nodup {ℓ} : {A : Type ℓ} → List A → Type ℓ
Nodup [] = Unit
Nodup (x ∷ xs) = ¬ In x xs × Nodup xs

pub Nodup-snoc {ℓ} : {A : Type ℓ} (xs : List A) (x : A) → Nodup xs → ¬ In x xs → Nodup (snoc xs x)
Nodup-snoc [] x h new = (not-In-nil, tt)
Nodup-snoc (y ∷ xs) x h new = (
  λ m. elim (In-append_cases xs m) [
    | inl l ↦ h.0 l
    | inr r ↦ elim (sym_in r) [ inl e ↦ new (In.here e) | inr n ↦ absurd (not-In-nil n) ]
  ],
  Nodup-snoc xs x h.1 (λ m. new (In.there m)),
)
  where
    sym_in : In y (x ∷ []) → (x ≡ y) ⊎ In y []
    sym_in (In.here e) = inl (sym e)
    sym_in (In.there m) = inr m

-- Every element satisfies `P`.
abbrev pub All {ℓ κ} : {A : Type ℓ} → (A → Type κ) → List A → Type κ
All P [] = Unit
All P (x ∷ xs) = P x × All P xs

pub All-append {ℓ κ} :
    {A : Type ℓ} (P : A → Type κ) (xs ys : List A) → All P xs → All P ys → All P (xs ++ ys)
All-append P [] ys hx hy = hy
All-append P (x ∷ xs) ys hx hy = (hx.0, All-append P xs ys hx.1 hy)
