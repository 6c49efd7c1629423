-- ===== src/Selection/Closed.antt =====
-- A selection is closed: with a pack it holds every component of the pack, and it is not empty.
use lexicon_mcp.Prelude.{
  String, Bool, true, ◌≡◌, refl, ap, sym, ◌∙◌, subst, List, [], ◌∷◌, Option, ◌==◌, string_eq,
  contains, IsDistinct, beq_refl, filter, is_nonempty, string_ord, contains-sorted, arith,
  Bool-cases, inl, inr, ok,
}
use lexicon_mcp.Manifest.{Pack, DatasetManifest, required_packs}
use lexicon_mcp.Manifest.Packs.{has_core}
use lexicon_mcp.Manifest.Claims.{pack_ids, AllOk, PacksOk}
use lexicon_mcp.Selection.{
  Selection, Gathered, pack_eq, gathered, component_ids, pack_names, normalized_request, resolve,
}
use lexicon_mcp.Selection.Loops.{all_packs, gather_lem}
use lexicon_mcp.Selection.Coverage.{finish_lem, resolved_finish}
use lexicon_mcp.Selection.Components.{provides_of_contains, contains-component_ids}
use lexicon_mcp.Selection.Packs.{
  contains-filter, pack_of_id, named_pack, name_of_contains, all_packs_known, all_packs_keeps,
}

contains-filter_of :
    (f : Pack → Bool) (ps : List Pack) (p : Pack)
    → contains ps p ≡ true
    → f p ≡ true
    → contains (filter f ps) p ≡ true
contains-filter_of f [] p h k = cc
contains-filter_of f (q ∷ ps) p h k = elim (Bool-cases (q == p)) [
  | inl same ↦
      let e : f q ≡ true = ap f ((pack_eq.beq_iff q p).0 same) ∙ k in rw e (ground (arith, same))
  | inr other ↦ ground (arith, contains-filter_of f ps p, other)
]

core_pack :
    (ids : List String) (ps : List Pack)
    → AllOk ids ps
    → has_core ps ≡ true
    → (p : Pack) × (contains ps p ≡ true) × (p.required ≡ true) × (is_nonempty p.components ≡ true)
core_pack ids [] a h = absurd (ground (arith, h))
core_pack ids (p ∷ ps) a h = elim (Bool-cases (p.capability == "core")) [
  | inl core ↦ (p, ground (arith, beq_refl p), a.0.required core, a.0.some_component)
  | inr other ↦
      let (q, there, required, nonempty) = core_pack ids ps a.1 (ground (arith, h, other)) in
      (q, ground (arith, there), required, nonempty)
]

pub nonempty_of_contains :
    (xs : List String) (x : String) → contains xs x ≡ true → is_nonempty xs ≡ true
nonempty_of_contains [] x h = h
nonempty_of_contains (y ∷ xs) x h = refl

contains_of_nonempty :
    (xs : List String) → is_nonempty xs ≡ true → (x : String) × (contains xs x ≡ true)
contains_of_nonempty [] h = absurd (ground (arith, h))
contains_of_nonempty (x ∷ xs) h = (x, ground (arith, beq_refl x))

module _ {B : Type 0} (m : DatasetManifest B) where
  module _ (languages requested : Option (List String)) (capabilities : List String) (strict : Bool)
      (s : Selection) (normalized : normalized_request languages ≡ ok requested)
      (resolved : resolve m languages capabilities strict ≡ ok s) where
    chosen : List Pack
    chosen = all_packs m requested capabilities (required_packs m)

    selected_eq : (gathered m requested capabilities).selected ≡ chosen
    unfolding chosen gathered
    selected_eq =
        ap (λ (g : Gathered). g.selected)
          (gather_lem m requested capabilities
            (record { selected = required_packs m; effective = []; unavailable = [] }))

    packs_eq : (i : String) → contains s.packs i ≡ contains (pack_names m chosen) i
    packs_eq i =
        let e =
          finish_lem m _ s
            (resolved_finish m languages requested capabilities strict s normalized resolved) in
        ap (λ l. contains l i) e.1
        ∙ contains-sorted i (pack_names m (gathered m requested capabilities).selected)
        ∙ ap (λ ps. contains (pack_names m ps) i) selected_eq

    components_of_chosen :
        (p : Pack) (i : String)
        → contains chosen p ≡ true
        → contains p.components i ≡ true
        → contains s.components i ≡ true
    components_of_chosen p i h k =
        let e =
          finish_lem m _ s
            (resolved_finish m languages requested capabilities strict s normalized resolved) in
        let ps = (gathered m requested capabilities).selected in
        ap (λ l. contains l i) e.0
        ∙ contains-sorted i (component_ids m ps [])
        ∙ contains-component_ids m ps [] i
        ∙ provides_of_contains ps p i (subst (λ l. contains l p ≡ true) (sym selected_eq) h) k

    -- Where the ids of the packs are distinct, a pack whose id is selected comes with every one
    -- of its components.
    pub resolve-closed :
        (p : Pack) (i : String)
        → IsDistinct (pack_ids m.packs)
        → contains m.packs p ≡ true
        → contains s.packs p.id ≡ true
        → contains p.components i ≡ true
        → contains s.components i ≡ true
    unfolding chosen required_packs
    resolve-closed p i once there named has =
        let (q, picked, same) = named_pack m chosen p.id (sym (packs_eq p.id) ∙ named) in
        let known =
          all_packs_known m requested capabilities (required_packs m) q
            (contains-filter (λ r. r.required) m.packs q) picked in
        components_of_chosen p i
          (subst (λ r. contains chosen r ≡ true) (pack_of_id m.packs q p once known there same)
            picked)
          has

    pub resolve-core :
        (ids : List String)
        → PacksOk ids m.packs
        → (p : Pack) × (contains m.packs p ≡ true)
          × (contains s.packs p.id ≡ true)
          × (is_nonempty s.components ≡ true)
    unfolding chosen required_packs
    resolve-core ids k =
        let (p, there, required, nonempty) = core_pack ids m.packs k.each k.core in
        let (i, has) = contains_of_nonempty p.components nonempty in
        let picked : contains chosen p ≡ true =
          all_packs_keeps m requested capabilities (required_packs m) p
            (contains-filter_of (λ r. r.required) m.packs p there required) in
        (
          p,
          there,
          packs_eq p.id ∙ name_of_contains m chosen p picked,
          nonempty_of_contains s.components i (components_of_chosen p i picked has),
        )
