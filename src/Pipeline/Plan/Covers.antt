-- ===== src/Pipeline/Plan/Covers.antt =====
-- `plan_lexical_packs`: every language in exactly one pack, the heaviest first.
use mathlib.Core.List.{append-nil, append_assoc, map-append, Perm}
use mathlib.Core.List.Perm
use lexicon_mcp.Prelude.{
  ℕ, ◌*◌, ◌≤◌, String, true, false, List, [], ◌∷◌, ◌++◌, string_eq, leb, contains, IsDistinct,
  IsDistinct-snoc, sorted, sorted-perm, String-set, sorted_of_perm, sorted-IsSorted, Above,
  IsSorted, ok, value_error, raise_if-eq-ok, >>=-eq-ok, ok-injective, ◌>>◌, ◌≡◌, refl, ap, sym, ◌∙◌,
  subst, arith, Bool-cases, ◌⊎◌, inl, inr, if◌then◌else◌,
}
use lexicon_mcp.Json.{ℤ, pos, negsuc}
use lexicon_mcp.Json.Integers.{int_leb}
use lexicon_mcp.Pipeline.Plan.{
  LanguageSize, PlannedPack, Planning, is_negative, count, size_le, size_ord, languages_of,
  check_sizes, flush, estimate, estimate_compressed, add_individual, add_to_bundle, place,
  place_all, nothing_planned, plan_lexical_packs, has_zero,
}

-- The languages of the packs, one pack behind the other.
abbrev pub served : List PlannedPack → List String
served [] = []
served (p ∷ ps) = p.languages ++ served ps

served-snoc :
    (ps : List PlannedPack) (p : PlannedPack) → served (ps ++ p ∷ []) ≡ served ps ++ p.languages
served-snoc [] p = append-nil p.languages
served-snoc (q ∷ ps) p =
    ap (λ l. q.languages ++ l) (served-snoc ps p)
    ∙ sym (append_assoc q.languages (served ps) p.languages)

-- What is in a pack or in the bundle that is being filled.
abbrev placed : Planning → List String
placed s = served s.packs ++ languages_of s.bundle

abbrev planning : List PlannedPack → List LanguageSize → ℕ → Planning
planning ps b n = record { packs = ps; bundle = b; bundle_bytes = n }

flush-placed_parts :
    (ps : List PlannedPack) (b : List LanguageSize) (n : ℕ)
    → (placed (flush (planning ps b n)) ≡ placed (planning ps b n))
      × ((flush (planning ps b n)).bundle ≡ [])
unfolding flush
flush-placed_parts ps [] n = (refl, refl)
flush-placed_parts ps (x ∷ b) n = (append-nil _ ∙ served-snoc ps _, refl)

flush-placed : (s : Planning) → (placed (flush s) ≡ placed s) × ((flush s).bundle ≡ [])
flush-placed s = flush-placed_parts s.packs s.bundle s.bundle_bytes

mul_mono : (a b k : ℕ) → a ≤ b → a * k ≤ b * k
mul_mono a b k h = grind arith

count_mono : (a b : ℤ) → int_leb a b ≡ true → count a ≤ count b
count_mono (pos a) (pos b) h = ground arith
count_mono (pos a) (negsuc b) h = cc
count_mono (negsuc a) (pos b) h = omega arith
count_mono (negsuc a) (negsuc b) h = omega arith

module _ (threshold target bytes : ℕ) where
  abbrev pub Light : List LanguageSize → Type 0
  Light [] = Unit
  Light (x ∷ xs) = (leb threshold (estimate threshold target bytes x) ≡ false) × Light xs

  estimate_mono :
      (x y : LanguageSize)
      → size_le x y ≡ true
      → estimate threshold target bytes y ≤ estimate threshold target bytes x
  unfolding size_le estimate_compressed
  estimate_mono x y h =
      mul_mono (count y.terms) (count x.terms) bytes (count_mono y.terms x.terms (ground arith))

  Light-of_Above :
      (x : LanguageSize) (xs : List LanguageSize)
      → leb threshold (estimate threshold target bytes x) ≡ false
      → Above x xs
      → Light xs
  Light-of_Above x [] h k = tt
  Light-of_Above x (y ∷ ys) h k = (ground (arith, estimate_mono x y k.0), Light-of_Above x ys h k.1)

  -- The bundle with a further language, closed if it has reached the target.
  abbrev bundled_up : LanguageSize → Planning → Planning
  bundled_up x s =
      let t = add_to_bundle threshold target bytes x s in
      if leb target t.bundle_bytes then flush t else t

  pub place_heavy :
      (x : LanguageSize) (s : Planning)
      → leb threshold (estimate threshold target bytes x) ≡ true
      → place threshold target bytes x s ≡ add_individual threshold target bytes x s
  unfolding place
  place_heavy x s h = rw h

  pub place_light :
      (x : LanguageSize) (s : Planning)
      → leb threshold (estimate threshold target bytes x) ≡ false
      → place threshold target bytes x s ≡ bundled_up x s
  unfolding place
  place_light x s h = rw h

  bundled_up-placed :
      (x : LanguageSize) (s : Planning) → placed (bundled_up x s) ≡ placed s ++ x.language ∷ []
  bundled_up-placed x s =
      let t = add_to_bundle threshold target bytes x s in
      let grown : placed t ≡ placed s ++ x.language ∷ [] =
        ap (λ l. served s.packs ++ l) (map-append _ s.bundle (x ∷ []))
        ∙ sym (append_assoc (served s.packs) (languages_of s.bundle) (x.language ∷ [])) in
      elim (Bool-cases (leb target t.bundle_bytes)) [
        | inl full ↦ rw full ((flush-placed t).0 ∙ grown)
        | inr room ↦ rw room grown
      ]

  add_individual-placed :
      (x : LanguageSize) (s : Planning)
      → s.bundle ≡ []
      → placed (add_individual threshold target bytes x s) ≡ placed s ++ x.language ∷ []
  add_individual-placed x s h =
      ap (λ b. served (add_individual threshold target bytes x s).packs ++ languages_of b) h
      ∙ append-nil _
      ∙ served-snoc s.packs _
      ∙ ap (λ l. l ++ x.language ∷ []) (sym (append-nil (served s.packs)))
      ∙ ap (λ b. (served s.packs ++ languages_of b) ++ x.language ∷ []) (sym h)

  place-placed :
      (x : LanguageSize) (s : Planning)
      → (s.bundle ≡ []) ⊎ (leb threshold (estimate threshold target bytes x) ≡ false)
      → placed (place threshold target bytes x s) ≡ placed s ++ x.language ∷ []
  place-placed x s h = elim (Bool-cases (leb threshold (estimate threshold target bytes x))) [
    | inl heavy ↦ ap placed (place_heavy x s heavy) ∙ add_individual-placed x s (ground arith)
    | inr light ↦ ap placed (place_light x s light) ∙ bundled_up-placed x s
  ]

  -- Nothing that weighs more comes behind a bundle that was begun.
  place-ready :
      (x : LanguageSize) (xs : List LanguageSize) (s : Planning)
      → Above x xs
      → (s.bundle ≡ []) ⊎ Light (x ∷ xs)
      → ((place threshold target bytes x s).bundle ≡ []) ⊎ Light xs
  place-ready x xs s o h = elim (Bool-cases (leb threshold (estimate threshold target bytes x))) [
    | inl heavy ↦ inl (ap (λ t. t.bundle) (place_heavy x s heavy) ∙ ground arith)
    | inr light ↦ inr (Light-of_Above x xs light o)
  ]

  place_all-placed :
      (xs : List LanguageSize) (s : Planning)
      → IsSorted xs
      → (s.bundle ≡ []) ⊎ Light xs
      → placed (place_all threshold target bytes xs s) ≡ placed s ++ languages_of xs
  unfolding place_all
  place_all-placed [] s o h = sym (append-nil (placed s))
  place_all-placed (x ∷ xs) s o h =
      place_all-placed xs (place threshold target bytes x s) o.1 (place-ready x xs s o.0 h)
      ∙ ap (λ l. l ++ languages_of xs) (place-placed x s (ground arith))
      ∙ append_assoc (placed s) (x.language ∷ []) (languages_of xs)

  -- The packs at the end of the plan.
  abbrev pub final : List LanguageSize → Planning
  final sizes = flush (place_all threshold target bytes (sorted sizes) nothing_planned)

  final-served :
      (sizes : List LanguageSize) → served (final sizes).packs ≡ languages_of (sorted sizes)
  final-served sizes =
      let done = flush-placed (place_all threshold target bytes (sorted sizes) nothing_planned) in
      sym (append-nil _)
      ∙ ap (λ b. served (final sizes).packs ++ languages_of b) (sym done.1)
      ∙ done.0
      ∙ place_all-placed (sorted sizes) nothing_planned (sorted-IsSorted sizes) (inl refl)

-- The check passes lists without repeated languages only.
check_sizes-IsDistinct :
    (seen : List String) (xs : List LanguageSize)
    → IsDistinct seen
    → check_sizes seen xs ≡ ok tt
    → IsDistinct (seen ++ languages_of xs)
unfolding check_sizes
check_sizes-IsDistinct seen [] d h = rw append-nil d
check_sizes-IsDistinct seen (x ∷ xs) d h =
    let (_, h1) = raise_if-eq-ok (is_negative x.terms) value_error _ h in
    let (new, h2) = raise_if-eq-ok (contains seen x.language) value_error _ h1 in
    subst IsDistinct (append_assoc seen (x.language ∷ []) (languages_of xs)) (
      check_sizes-IsDistinct (seen ++ x.language ∷ []) xs (IsDistinct-snoc seen x.language d new)
        h2)

-- A plan that was made has passed both checks.
pub plan-checked :
    (sizes : List LanguageSize) (threshold target bytes : ℕ) (ps : List PlannedPack)
    → plan_lexical_packs sizes threshold target bytes ≡ ok ps
    → (has_zero threshold target bytes ≡ false)
      × (check_sizes [] (sorted sizes) ≡ ok tt)
      × ((final threshold target bytes sizes).packs ≡ ps)
unfolding plan_lexical_packs
plan-checked sizes threshold target bytes ps h =
    let (positive, h1) =
      raise_if-eq-ok (has_zero threshold target bytes) value_error
        (check_sizes [] (sorted sizes) >> ok (final threshold target bytes sizes).packs) h in
    let (passed, checked, made) =
      >>=-eq-ok (check_sizes [] (sorted sizes)) (λ _. ok (final threshold target bytes sizes).packs)
        h1 in
    (positive, checked ∙ ap ok (unit_eq passed), ok-injective made)
  where
    unit_eq : (u : Unit {0}) → u ≡ tt
    unit_eq tt = refl

-- A plan that is made serves every language in exactly one pack, and holds the languages by
-- weight, the heaviest first and equal ones by their tags.
pub plan_covers :
    (sizes : List LanguageSize) (threshold target bytes : ℕ) (ps : List PlannedPack)
    → plan_lexical_packs sizes threshold target bytes ≡ ok ps
    → IsDistinct (served ps)
      × Perm (served ps) (languages_of sizes)
      × (served ps ≡ languages_of (sorted sizes))
plan_covers sizes threshold target bytes ps h =
    let (_, checked, at) = plan-checked sizes threshold target bytes ps h in
    let order : served ps ≡ languages_of (sorted sizes) =
      ap served (sym at) ∙ final-served threshold target bytes sizes in
    (
      rw order (check_sizes-IsDistinct [] (sorted sizes) tt checked),
      rw order (Perm.map (λ x. x.language) (sorted-perm sizes)),
      order,
    )

LanguageSize-set : IsSet LanguageSize
LanguageSize-set = hlevel String-set

-- The plan does not depend on the order in which the sizes are given: sizes in another order lead
-- to the same packs, or to the same error.
pub plan_permuted :
    (xs ys : List LanguageSize) (threshold target bytes : ℕ)
    → Perm xs ys
    → plan_lexical_packs xs threshold target bytes ≡ plan_lexical_packs ys threshold target bytes
unfolding plan_lexical_packs
plan_permuted xs ys threshold target bytes p = rw (sorted_of_perm LanguageSize-set xs ys p) refl
