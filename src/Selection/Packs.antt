-- ===== src/Selection/Packs.antt =====
-- The packs that `resolve` selects: all of the manifest, with their components.
use lexicon_mcp.Prelude.{
  String, Bool, true, ◌≡◌, ◌∙◌, subst, List, [], ◌∷◌, Option, none, some, ◌==◌, string_eq, eq_iff,
  contains, contains-append_new, contains_eq, IsDistinct, beq_refl, filter, find, string_ord, arith,
  Bool-cases, Option-cases, inl, inr,
}
use lexicon_mcp.Manifest.{Pack, DatasetManifest, serves, pack_for}
use lexicon_mcp.Manifest.Claims.{pack_ids}
use lexicon_mcp.Selection.{pack_eq, wanted, pack_names}
use lexicon_mcp.Selection.Loops.{add_pack, add_packs, all_packs}

pub contains-filter :
    (f : Pack → Bool) (ps : List Pack) (p : Pack)
    → contains (filter f ps) p ≡ true
    → contains ps p ≡ true
contains-filter f [] p h = h
contains-filter f (q ∷ ps) p h = ground (arith, contains-filter f ps p)

contains-find :
    (f : Pack → Bool) (ps : List Pack) (p : Pack) → find f ps ≡ some p → contains ps p ≡ true
contains-find f [] p h = cc
contains-find f (q ∷ ps) p h = ground (arith, contains-find f ps p, pack_eq.beq_iff q p)

-- A pack with the id of one in the list is that one, where no id stands twice.
contains-pack_ids :
    (ps : List Pack) (p : Pack) → contains ps p ≡ true → contains (pack_ids ps) p.id ≡ true
contains-pack_ids [] p h = cc
contains-pack_ids (q ∷ ps) p h =
    ground (arith, contains-pack_ids ps p, pack_eq.beq_iff q p, eq_iff q.id p.id)

pub pack_of_id :
    (ps : List Pack) (p q : Pack)
    → IsDistinct (pack_ids ps)
    → contains ps p ≡ true
    → contains ps q ≡ true
    → p.id ≡ q.id
    → p ≡ q
pack_of_id [] p q d h k e = cc
pack_of_id (r ∷ ps) p q d h k e = ground (
  arith,
  pack_eq.beq_iff r p,
  pack_eq.beq_iff r q,
  pack_of_id ps p q d.1,
  contains-pack_ids ps p,
  contains-pack_ids ps q,
  contains_eq (pack_ids ps) r.id p.id,
  contains_eq (pack_ids ps) r.id q.id,
)

module _ {B : Type 0} (m : DatasetManifest B) where
  pub named_pack :
      (ps : List Pack) (i : String)
      → contains (pack_names m ps) i ≡ true
      → (p : Pack) × (contains ps p ≡ true) × (p.id ≡ i)
  named_pack [] i h = absurd (ground arith)
  named_pack (p ∷ ps) i h = elim (Bool-cases (p.id == i)) [
    | inl here ↦ (p, ground (arith, beq_refl p), (eq_iff p.id i).0 here)
    | inr other ↦
        let (q, there, named) = named_pack ps i (ground (arith, other)) in
        (q, ground (arith, there), named)
  ]

  pub name_of_contains :
      (ps : List Pack) (p : Pack) → contains ps p ≡ true → contains (pack_names m ps) p.id ≡ true
  name_of_contains [] p h = cc
  name_of_contains (q ∷ ps) p h =
      ground (arith, name_of_contains ps p, pack_eq.beq_iff q p, eq_iff q.id p.id)

  -- All of the manifest's, if the packs before are.
  add_pack_known :
      (c l : String) (ps : List Pack) (p : Pack)
      → (contains ps p ≡ true → contains m.packs p ≡ true)
      → contains (add_pack m (pack_for m c l) ps) p ≡ true
      → contains m.packs p ≡ true
  unfolding pack_for
  add_pack_known c l ps p k h = elim (Option-cases (pack_for m c l)) [
    | inl absent ↦ k (subst (λ o. contains (add_pack m o ps) p ≡ true) absent h)
    | inr (q, found) ↦ ground (
      arith,
      k,
      contains-append_new ps q p,
      subst (λ o. contains (add_pack m o ps) p ≡ true) found h,
      contains-find (serves c l) m.packs q found,
      pack_eq.beq_iff q p,
    )
  ]

  add_packs_known :
      (c : String) (ls : List String) (ps : List Pack) (p : Pack)
      → (contains ps p ≡ true → contains m.packs p ≡ true)
      → contains (add_packs m c ls ps) p ≡ true
      → contains m.packs p ≡ true
  add_packs_known c [] ps p k h = k h
  add_packs_known c (l ∷ ls) ps p k h =
      add_packs_known c ls (add_pack m (pack_for m c l) ps) p (add_pack_known c l ps p k) h

  pub all_packs_known :
      (requested : Option (List String)) (cs : List String) (ps : List Pack) (p : Pack)
      → (contains ps p ≡ true → contains m.packs p ≡ true)
      → contains (all_packs m requested cs ps) p ≡ true
      → contains m.packs p ≡ true
  all_packs_known requested [] ps p k h = k h
  all_packs_known requested (c ∷ cs) ps p k h =
      all_packs_known requested cs (add_packs m c (wanted m requested c) ps) p
        (add_packs_known c (wanted m requested c) ps p k) h

  -- A pack that was selected stays so.
  add_pack_keeps :
      (o : Option Pack) (ps : List Pack) (p : Pack)
      → contains ps p ≡ true
      → contains (add_pack m o ps) p ≡ true
  add_pack_keeps none ps p h = h
  add_pack_keeps (some q) ps p h = contains-append_new ps q p ∙ ground (arith, h)

  add_packs_keeps :
      (c : String) (ls : List String) (ps : List Pack) (p : Pack)
      → contains ps p ≡ true
      → contains (add_packs m c ls ps) p ≡ true
  add_packs_keeps c [] ps p h = h
  add_packs_keeps c (l ∷ ls) ps p h =
      add_packs_keeps c ls (add_pack m (pack_for m c l) ps) p
        (add_pack_keeps (pack_for m c l) ps p h)

  pub all_packs_keeps :
      (requested : Option (List String)) (cs : List String) (ps : List Pack) (p : Pack)
      → contains ps p ≡ true
      → contains (all_packs m requested cs ps) p ≡ true
  all_packs_keeps requested [] ps p h = h
  all_packs_keeps requested (c ∷ cs) ps p h =
      all_packs_keeps requested cs (add_packs m c (wanted m requested c) ps) p
        (add_packs_keeps c (wanted m requested c) ps p h)
