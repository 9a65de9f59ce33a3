-- ===== src/Review/Globbing.antt =====
-- The patterns of protected paths (review/protectedpaths.go: matchPathSegments), against a specification.
use modulex.Prelude.{
  String, ◌≡◌, refl, sym, ◌∙◌, subst, ◌≢◌, ◌↔◌, ◌⊎◌, Bool, true, false, ◌==◌, if◌then◌else◌, Option,
  none, some, List, [], ◌∷◌, arith, Bool-cases, inl, inr, test_of_ne, eq_of_test, ne_of_test,
}
use modulex.Review.{is_empty, or_next, any_suffix, and_rest, is_answer, match_path_segments}

-- A name matches a pattern: `**` stands for any number of segments, another segment for one segment that
-- it matches.
pub data Globs (path_match : String → String → Option Bool)
    : List String → List String → Type 0 where
  at_end : Globs path_match [] []
  stars_end : (ps ns : List String) → Globs path_match ps ns → Globs path_match ("**" ∷ ps) ns
  stars_skip :
      (ps : List String) (n : String) (ns : List String)
      → Globs path_match ("**" ∷ ps) ns
      → Globs path_match ("**" ∷ ps) (n ∷ ns)
  segment :
      (p : String) (ps : List String) (n : String) (ns : List String)
      → p ≢ "**"
      → path_match p n ≡ some true
      → Globs path_match ps ns
      → Globs path_match (p ∷ ps) (n ∷ ns)

or_next-cases : (o r : Option Bool) → or_next o r ≡ some true → (o ≡ some true) ⊎ (r ≡ some true)
or_next-cases none r h = ground (arith, h)
or_next-cases (some true) r h = inl refl
or_next-cases (some false) r h = inr h

module _ (path_match : String → String → Option Bool) where
  stars-Globs : (ns : List String) → Globs path_match ("**" ∷ []) ns
  stars-Globs [] = Globs.stars_end [] [] Globs.at_end
  stars-Globs (n ∷ ns) = Globs.stars_skip [] n ns (stars-Globs ns)

  any_suffix-Globs :
      (ps ns : List String)
      → ((ms : List String)
          → match_path_segments path_match ps ms ≡ some true
          → Globs path_match ps ms)
      → any_suffix (match_path_segments path_match ps) ns ≡ some true
      → Globs path_match ("**" ∷ ps) ns
  unfolding any_suffix
  any_suffix-Globs ps [] sound h = Globs.stars_end ps [] (sound [] h)
  any_suffix-Globs ps (n ∷ ns) sound h =
      let f = match_path_segments path_match ps in
      elim (or_next-cases (f (n ∷ ns)) (any_suffix f ns) h) [
        | inl e ↦ Globs.stars_end ps (n ∷ ns) (sound (n ∷ ns) e)
        | inr e ↦ Globs.stars_skip ps n ns (any_suffix-Globs ps ns sound e)
      ]

  -- The part of the match at `**`.
  stars-match :
      (ps ns : List String)
      → ((ms : List String)
          → match_path_segments path_match ps ms ≡ some true
          → Globs path_match ps ms)
      → (if is_empty ps then some true else any_suffix (match_path_segments path_match ps) ns)
        ≡ some true
      → Globs path_match ("**" ∷ ps) ns
  stars-match [] ns sound h = stars-Globs ns
  stars-match (p ∷ ps) ns sound h = any_suffix-Globs (p ∷ ps) ns sound h

  and_rest-both : (o r : Option Bool) → and_rest o r ≡ some true → (o ≡ some true) × (r ≡ some true)
  and_rest-both none r h = ground (arith, h)
  and_rest-both (some false) r h = ground (arith, h)
  and_rest-both (some true) r h = (refl, h)

  match_path_segments-Globs :
      (ps ns : List String)
      → match_path_segments path_match ps ns ≡ some true
      → Globs path_match ps ns
  unfolding match_path_segments
  match_path_segments-Globs [] [] h = Globs.at_end
  match_path_segments-Globs [] (n ∷ ns) h = ground (arith, h)
  match_path_segments-Globs (p ∷ ps) [] h = elim (Bool-cases (p == "**")) [
    | inr o ↦ ground (arith, o, h)
    | inl e ↦
        subst (λ q. Globs path_match (q ∷ ps) []) (sym (eq_of_test p "**" e))
          (stars-match ps [] (match_path_segments-Globs ps) (rw e at h))
  ]
  match_path_segments-Globs (p ∷ ps) (n ∷ ns) h = elim (Bool-cases (p == "**")) [
    | inr o ↦
        let m = and_rest-both (path_match p n) (match_path_segments path_match ps ns) (rw o at h) in
        Globs.segment p ps n ns (ne_of_test p "**" o) m.0 (match_path_segments-Globs ps ns m.1)
    | inl e ↦
        subst (λ q. Globs path_match (q ∷ ps) (n ∷ ns)) (sym (eq_of_test p "**" e))
          (stars-match ps (n ∷ ns) (match_path_segments-Globs ps) (rw e at h))
  ]

  -- No segment of the pattern but `**` is malformed: every name has an answer.
  abbrev pub IsWellFormed : List String → Type 0
  IsWellFormed [] = Unit
  IsWellFormed (p ∷ ps) =
      (p ≢ "**" → (n : String) → is_answer (path_match p n) ≡ true) × IsWellFormed ps

  any_suffix-answer :
      (f : List String → Option Bool) (ns : List String)
      → ((ms : List String) → is_answer (f ms) ≡ true)
      → is_answer (any_suffix f ns) ≡ true
  unfolding any_suffix
  any_suffix-answer f [] total = total []
  any_suffix-answer f (n ∷ ns) total = ground (arith, total (n ∷ ns), any_suffix-answer f ns total)

  match_path_segments-answer :
      (ps ns : List String)
      → IsWellFormed ps
      → is_answer (match_path_segments path_match ps ns) ≡ true
  unfolding match_path_segments
  match_path_segments-answer [] ns w = refl
  match_path_segments-answer (p ∷ ps) [] w = ground (
    arith,
    any_suffix-answer (match_path_segments path_match ps) []
        (λ ms. match_path_segments-answer ps ms w.1),
  )
  match_path_segments-answer (p ∷ ps) (n ∷ ns) w = elim (Bool-cases (p == "**")) [
    | inl e ↦ ground (
      arith,
      e,
      any_suffix-answer (match_path_segments path_match ps) (n ∷ ns)
          (λ ms. match_path_segments-answer ps ms w.1),
    )
    | inr o ↦ ground (arith, o, w.0 (ne_of_test p "**" o) n, match_path_segments-answer ps ns w.1)
  ]

  -- What a match of a pattern that begins with `p` comes from.
  abbrev Finds : List String → List String → Type 0
  Finds ps ns = match_path_segments path_match ps ns ≡ some true

  found_later :
      (f : List String → Option Bool) (n : String) (ns : List String)
      → is_answer (f (n ∷ ns)) ≡ true
      → any_suffix f ns ≡ some true
      → any_suffix f (n ∷ ns) ≡ some true
  unfolding any_suffix
  found_later f n ns a h = ground (arith, a, h)

  found_here :
      (f : List String → Option Bool) (ns : List String)
      → f ns ≡ some true
      → any_suffix f ns ≡ some true
  unfolding any_suffix
  found_here f [] h = h
  found_here f (n ∷ ns) h = ground (arith, h)

  stars-eq :
      (ps ns : List String)
      → match_path_segments path_match ("**" ∷ ps) ns
        ≡ (if is_empty ps then some true else any_suffix (match_path_segments path_match ps) ns)
  unfolding match_path_segments
  stars-eq ps [] = refl
  stars-eq ps (n ∷ ns) = refl

  Globs-Finds : (ps ns : List String) → IsWellFormed ps → Globs path_match ps ns → Finds ps ns
  unfolding match_path_segments
  Globs-Finds ps ns w Globs.at_end = refl
  Globs-Finds ps ns w (Globs.stars_end qs ms g) =
      let f = match_path_segments path_match qs in
      let found = found_here f ns (Globs-Finds qs ns w.1 g) in
      stars-eq qs ns ∙ ground (arith, found)
  Globs-Finds ps ns w (Globs.stars_skip qs m ms g) =
      let f = match_path_segments path_match qs in
      let before = sym (stars-eq qs ms) ∙ Globs-Finds ("**" ∷ qs) ms w g in
      let later = found_later f m ms (match_path_segments-answer qs (m ∷ ms) w.1) in
      elim (Bool-cases (is_empty qs)) [ inl t ↦ rw t | inr o ↦ rw o (later (rw o at before)) ]
  Globs-Finds ps ns w (Globs.segment q qs m ms o e g) =
      rw (test_of_ne q "**" o, e) (Globs-Finds qs ms w.1 g)

  -- matchPathSegments finds a match exactly when the name matches the pattern in the sense of the
  -- specification, for a pattern with no malformed segment: the search over the suffixes misses none.
  pub match_path_segments_iff :
      (ps ns : List String)
      → IsWellFormed ps
      → (match_path_segments path_match ps ns ≡ some true) ↔ Globs path_match ps ns
  match_path_segments_iff ps ns w = (match_path_segments-Globs ps ns, Globs-Finds ps ns w)
