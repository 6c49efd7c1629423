-- ===== src/Service/Diverse/Laws.antt =====
-- What `_target_diverse_relation_rows` keeps, and in what order.
use mathlib.Core.List.{append-nil, append_assoc, map-append, Perm, perm_middle}
use mathlib.Core.List.Perm
use lexicon_mcp.Prelude.{
  true, false, not, ◌&&◌, String, List, [], ◌∷◌, ◌++◌, map, contains, contains-append, IsDistinct,
  IsDistinct-snoc, All, All-snoc, contains-perm, IsDistinct-perm, string_eq, pair_eq, option_eq,
  beq_refl, ◌==◌, contains_eq, ◌≡◌, refl, ap, sym, subst, ◌∙◌, arith, Bool-cases, inl, inr,
}
use lexicon_mcp.Service.Rows.{Row, Identity, relation_identity, target_of}
use lexicon_mcp.Service.Diverse.{unique_rows, split_rows, target_diverse_relation_rows}

identity_beq : (i j : Identity) → ((i == j) ≡ true → i ≡ j) × (i ≡ j → (i == j) ≡ true)
identity_beq i j = pair_eq.beq_iff i j

module _ {A : Type 0} (row : A → Row) where
  abbrev identity_of : A → Identity
  identity_of a = relation_identity (row a)

  abbrev goal_of : A → String × String
  goal_of a = target_of (row a)

  abbrev pub identities : List A → List Identity
  identities = map identity_of

  abbrev pub targets : List A → List (String × String)
  targets = map goal_of

  contains-unique_rows :
      (seen : List Identity) (rows : List A) (i : Identity)
      → contains (identities (unique_rows row seen rows)) i
        ≡ (contains (identities rows) i && not (contains seen i))
  unfolding unique_rows
  contains-unique_rows seen [] i = refl
  contains-unique_rows seen (r ∷ rs) i = elim (Bool-cases (contains seen (identity_of r))) [
    | inl old ↦
        rw (old, unique_rows)
          (ground (
            arith,
            contains-unique_rows seen rs i,
            identity_beq (identity_of r) i,
            contains_eq seen (identity_of r) i,
            old,
          ))
    | inr new ↦
        rw (new, unique_rows)
          (ground (
            arith,
            contains-unique_rows (seen ++ identity_of r ∷ []) rs i,
            contains-append seen (identity_of r ∷ []) i,
            identity_beq (identity_of r) i,
            contains_eq seen (identity_of r) i,
            new,
          ))
  ]

  unique_rows-IsDistinct :
      (seen : List Identity) (rows : List A) → IsDistinct (identities (unique_rows row seen rows))
  unfolding unique_rows
  unique_rows-IsDistinct seen [] = tt
  unique_rows-IsDistinct seen (r ∷ rs) = elim (Bool-cases (contains seen (identity_of r))) [
    | inl old ↦ rw (old, unique_rows) (unique_rows-IsDistinct seen rs)
    | inr new ↦
        let seen' = seen ++ identity_of r ∷ [] in
        rw (new, unique_rows)
          (
            ground (
              arith,
              contains-unique_rows seen' rs (identity_of r),
              contains-append seen (identity_of r ∷ []) (identity_of r),
              beq_refl (identity_of r),
            ),
            unique_rows-IsDistinct seen' rs,
          )
  ]

  -- Each of the variants has a target that a primary row has.
  abbrev pub AllVaried : List A → List A → Type 0
  AllVaried primary = All (λ r. contains (targets primary) (goal_of r) ≡ true)

  targets-snoc : (ps : List A) (r : A) → targets (ps ++ r ∷ []) ≡ targets ps ++ goal_of r ∷ []
  targets-snoc ps r = map-append goal_of ps (r ∷ [])

  AllVaried-snoc : (ps vs : List A) (r : A) → AllVaried ps vs → AllVaried (ps ++ r ∷ []) vs
  AllVaried-snoc ps [] r h = tt
  AllVaried-snoc ps (v ∷ vs) r h = (
    ap (λ l. contains l (goal_of v)) (targets-snoc ps r)
        ∙ contains-append (targets ps) (goal_of r ∷ []) (goal_of v)
        ∙ ground (arith, h.0),
    AllVaried-snoc ps vs r h.1,
  )

  module _ (ts : List (String × String)) (ps vs : List A) (r : A) (rs : List A) where
    split_rows_variant :
        contains ts (goal_of r) ≡ true
        → split_rows row ts ps vs (r ∷ rs) ≡ split_rows row ts ps (vs ++ r ∷ []) rs
    unfolding split_rows
    split_rows_variant h = rw (h, split_rows) refl

    split_rows_first :
        contains ts (goal_of r) ≡ false
        → split_rows row ts ps vs (r ∷ rs)
          ≡ split_rows row (ts ++ goal_of r ∷ []) (ps ++ r ∷ []) vs rs
    unfolding split_rows
    split_rows_first h = rw (h, split_rows) refl

  -- The two lists together hold what the accumulators and the rest held.
  split_rows-perm :
      (ts : List (String × String)) (ps vs rs : List A)
      → Perm ((split_rows row ts ps vs rs).0 ++ (split_rows row ts ps vs rs).1) ((ps ++ vs) ++ rs)
  unfolding split_rows
  split_rows-perm ts ps vs [] = rw (append-nil (ps ++ vs)) Perm.rfl
  split_rows-perm ts ps vs (r ∷ rs) = elim (Bool-cases (contains ts (goal_of r))) [
    | inl variant ↦
        let same : (ps ++ (vs ++ r ∷ [])) ++ rs ≡ (ps ++ vs) ++ r ∷ rs = simp append_assoc in
        rw (split_rows_variant ts ps vs r rs variant)
          (subst (Perm _) same (split_rows-perm ts ps (vs ++ r ∷ []) rs))
    | inr first ↦
        let ahead : ((ps ++ r ∷ []) ++ vs) ++ rs ≡ ps ++ (r ∷ (vs ++ rs)) = simp append_assoc in
        let back : ps ++ (vs ++ r ∷ rs) ≡ (ps ++ vs) ++ r ∷ rs = simp append_assoc in
        rw (split_rows_first ts ps vs r rs first) (
          Perm.trans
            (subst (Perm _) ahead (split_rows-perm (ts ++ goal_of r ∷ []) (ps ++ r ∷ []) vs rs))
            (subst (Perm _) back (Perm.append_left ps (Perm.symm (perm_middle vs rs)))))
  ]

  -- The first rows of their targets, and the others.
  split_rows_lem :
      (ts : List (String × String)) (ps vs rs : List A)
      → ts ≡ targets ps
      → IsDistinct (targets ps)
      → AllVaried ps vs
      → IsDistinct (targets (split_rows row ts ps vs rs).0)
        × AllVaried (split_rows row ts ps vs rs).0 (split_rows row ts ps vs rs).1
  unfolding split_rows
  split_rows_lem ts ps vs [] e d v = (d, v)
  split_rows_lem ts ps vs (r ∷ rs) e d v = elim (Bool-cases (contains ts (goal_of r))) [
    | inl variant ↦ rw (split_rows_variant ts ps vs r rs variant) (
        split_rows_lem ts ps (vs ++ r ∷ []) rs e d
          (All-snoc _ vs r v (ap (λ l. contains l (goal_of r)) (sym e) ∙ variant)))
    | inr first ↦
        let new : contains (targets ps) (goal_of r) ≡ false =
          ap (λ l. contains l (goal_of r)) (sym e) ∙ first in
        rw (split_rows_first ts ps vs r rs first) (
          split_rows_lem (ts ++ goal_of r ∷ []) (ps ++ r ∷ []) vs rs
            (ap (λ l. l ++ goal_of r ∷ []) e ∙ sym (targets-snoc ps r))
            (subst IsDistinct (sym (targets-snoc ps r))
              (IsDistinct-snoc (targets ps) (goal_of r) d new))
            (AllVaried-snoc ps vs r v))
  ]

  pub target_diverse-perm :
      (seen : List Identity) (rows : List A)
      → Perm (target_diverse_relation_rows row seen rows) (unique_rows row seen rows)
  unfolding target_diverse_relation_rows
  target_diverse-perm seen rows = split_rows-perm [] [] [] (unique_rows row seen rows)

  -- Of the identities of the rows those that were not seen before are kept, each once. One row of
  -- each target comes first; what follows are further rows of the same targets.
  pub target_diverse_relation_rows_lem :
      (seen : List Identity) (rows : List A)
      → ((i : Identity)
          → contains (identities (target_diverse_relation_rows row seen rows)) i
            ≡ (contains (identities rows) i && not (contains seen i)))
        × IsDistinct (identities (target_diverse_relation_rows row seen rows))
        × (primary variants : List A) × (target_diverse_relation_rows row seen rows
            ≡ primary ++ variants)
        × IsDistinct (targets primary)
        × AllVaried primary variants
  unfolding target_diverse_relation_rows
  target_diverse_relation_rows_lem seen rows =
      let kept = Perm.map identity_of (target_diverse-perm seen rows) in
      let (once, varied) = split_rows_lem [] [] [] (unique_rows row seen rows) refl tt tt in
      (
        λ i. contains-perm kept i ∙ contains-unique_rows seen rows i,
        IsDistinct-perm (Perm.symm kept) (unique_rows-IsDistinct seen rows),
        _,
        _,
        refl,
        once,
        varied,
      )
