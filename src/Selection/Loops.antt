-- ===== src/Selection/Loops.antt =====
-- The loops of `resolve` as plain recursions over what is asked for.
use lexicon_mcp.Prelude.{
  String, Bool, true, false, ◌≡◌, refl, ap, ◌∙◌, List, [], ◌∷◌, ◌++◌, Option, none, some, string_eq,
  if◌then◌else◌, contains, filter, append_new, sorted, string_ord, Dict, insert, lookup,
  lookup-insert, eq_iff, arith, Option-cases, inl, inr,
}
use mathlib.Core.List.{append_assoc, append-nil}
use lexicon_mcp.Manifest.{Pack, DatasetManifest, pack_for}
use lexicon_mcp.Selection.{Unavailable, Gathered, pack_eq, wanted, reason_for, cover, gather}

abbrev pub is_some : Option Pack → Bool
is_some none = false
is_some (some p) = true

module _ {B : Type 0} (m : DatasetManifest B) where
  -- Some pack serves the language for the capability.
  abbrev pub served : String → String → Bool
  served c l = is_some (pack_for m c l)

  abbrev pub entry_for : String → String → Unavailable
  entry_for c l = record { capability = c; language = l; reason = reason_for m l }

  abbrev pub missing : String → List String → List Unavailable
  missing c [] = []
  missing c (l ∷ ls) = if served c l then missing c ls else entry_for c l ∷ missing c ls

  abbrev pub add_pack : Option Pack → List Pack → List Pack
  add_pack none packs = packs
  add_pack (some p) packs = append_new packs p

  abbrev pub add_packs : String → List String → List Pack → List Pack
  add_packs c [] packs = packs
  add_packs c (l ∷ ls) packs = add_packs c ls (add_pack (pack_for m c l) packs)

  pub cover_lem :
      (c : String) (ls : List String) (packs : List Pack) (un : List Unavailable)
      (covered : List String)
      → cover m c ls packs un covered
        ≡ (add_packs c ls packs, un ++ missing c ls, covered ++ filter (served c) ls)
  unfolding cover
  cover_lem c [] packs un covered = ground (arith, append-nil un, append-nil covered)
  cover_lem c (l ∷ ls) packs un covered = elim (Option-cases (pack_for m c l)) [
    | inl absent ↦
        rw (absent, cover)
          (cover_lem c ls packs (un ++ entry_for c l ∷ []) covered
            ∙ ap (λ u. (add_packs c ls packs, u, covered ++ filter (served c) ls))
                (append_assoc un (entry_for c l ∷ []) (missing c ls)))
    | inr (p, found) ↦
        rw (found, cover)
          (cover_lem c ls (append_new packs p) un (covered ++ l ∷ [])
            ∙ ap (λ u. (add_packs c ls (append_new packs p), un ++ missing c ls, u))
                (append_assoc covered (l ∷ []) (filter (served c) ls)))
  ]

  module _ (requested : Option (List String)) where
    abbrev pub covered_for : String → List String
    covered_for c = sorted (filter (served c) (wanted m requested c))

    abbrev pub all_missing : List String → List Unavailable
    all_missing [] = []
    all_missing (c ∷ cs) = missing c (wanted m requested c) ++ all_missing cs

    abbrev pub all_packs : List String → List Pack → List Pack
    all_packs [] packs = packs
    all_packs (c ∷ cs) packs = all_packs cs (add_packs c (wanted m requested c) packs)

    abbrev pub all_effective : List String → Dict (List String) → Dict (List String)
    all_effective [] d = d
    all_effective (c ∷ cs) d = all_effective cs (insert c (covered_for c) d)

    pub gather_lem :
        (cs : List String) (g : Gathered)
        → gather m requested cs g ≡ record {
          selected = all_packs cs g.selected;
          effective = all_effective cs g.effective;
          unavailable = g.unavailable ++ all_missing cs;
        }
    unfolding gather
    gather_lem [] g = ground (arith, append-nil g.unavailable)
    gather_lem (c ∷ cs) g = rw (cover_lem c (wanted m requested c) g.selected g.unavailable []) (
        gather_lem cs _
        ∙ ap
            (λ u. record {
              selected = all_packs cs (add_packs c (wanted m requested c) g.selected);
              effective = all_effective cs (insert c (covered_for c) g.effective);
              unavailable = u;
            })
            (append_assoc g.unavailable (missing c (wanted m requested c)) (all_missing cs)))

    -- Whatever else was asked for, a requested capability maps to what it covers.
    pub lookup-all_effective :
        (cs : List String) (d : Dict (List String)) (c : String)
        → lookup c (all_effective cs d)
          ≡ (if contains cs c then some (covered_for c) else lookup c d)
    lookup-all_effective [] d c = refl
    lookup-all_effective (b ∷ cs) d c = ground (
      arith,
      lookup-all_effective cs (insert b (covered_for b) d) c,
      lookup-insert b c (covered_for b) d,
      eq_iff b c,
    )
