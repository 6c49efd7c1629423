-- ===== src/Service/Diverse/Keeps.antt =====
-- What holds of every row holds of every row that is kept.
use lexicon_mcp.Prelude.{
  String, List, [], ◌∷◌, ◌++◌, contains, All, All-snoc, All-append, string_eq, pair_eq, option_eq,
  Bool-cases, inl, inr,
}
use lexicon_mcp.Service.Rows.{Row, Identity, relation_identity, target_of}
use lexicon_mcp.Service.Diverse.{unique_rows, split_rows, target_diverse_relation_rows}

module _ {κ} {A : Type 0} (row : A → Row) (P : A → Type κ) where
  unique_rows-All :
      (seen : List Identity) (rows : List A) → All P rows → All P (unique_rows row seen rows)
  unfolding unique_rows
  unique_rows-All seen [] h = tt
  unique_rows-All seen (r ∷ rs) h = elim (Bool-cases (contains seen (relation_identity (row r)))) [
    | inl old ↦ rw (old, unique_rows) (unique_rows-All seen rs h.1)
    | inr new ↦
        rw (new, unique_rows) (h.0, unique_rows-All (seen ++ relation_identity (row r) ∷ []) rs h.1)
  ]

  split_rows-All :
      (ts : List (String × String)) (ps vs rs : List A)
      → All P ps
      → All P vs
      → All P rs
      → All P (split_rows row ts ps vs rs).0 × All P (split_rows row ts ps vs rs).1
  unfolding split_rows
  split_rows-All ts ps vs [] h k l = (h, k)
  split_rows-All ts ps vs (r ∷ rs) h k l = elim (Bool-cases (contains ts (target_of (row r)))) [
    | inl variant ↦
        rw (variant, split_rows)
          (split_rows-All ts ps (vs ++ r ∷ []) rs h (All-snoc P vs r k l.0) l.1)
    | inr first ↦
        rw (first, split_rows)
          (split_rows-All (ts ++ target_of (row r) ∷ []) (ps ++ r ∷ []) vs rs
            (All-snoc P ps r h l.0) k l.1)
  ]

  pub target_diverse-All :
      (seen : List Identity) (rows : List A)
      → All P rows
      → All P (target_diverse_relation_rows row seen rows)
  unfolding target_diverse_relation_rows
  target_diverse-All seen rows h =
      let (primary, variants) =
        split_rows-All [] [] [] (unique_rows row seen rows) tt tt (unique_rows-All seen rows h) in
      All-append P _ _ primary variants
