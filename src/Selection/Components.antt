-- ===== src/Selection/Components.antt =====
-- The components that `resolve` selects, and their sizes.
use lexicon_mcp.Prelude.{
  ℕ, ◌+◌, String, Bool, true, false, ◌||◌, ◌≡◌, refl, ap, sym, ◌∙◌, subst, List, [], ◌∷◌, ◌++◌,
  Option, none, some, ◌==◌, string_eq, contains, append_new, append_all_new,
  contains-append_all_new, append_all_new-IsDistinct, IsDistinct, sorted, string_ord, IsSorted,
  sorted-IsSorted, sorted-IsDistinct, contains-sorted, sum_by, sum_by-sorted, arith, Bool-cases,
  inl, inr, Result, ok, err, Result-cases,
}
use lexicon_mcp.Manifest.{Pack, Component, DatasetManifest, component, pack_for, required_packs}
use lexicon_mcp.Selection.{
  Selection, Gathered, pack_eq, wanted, gathered, sizes, component_ids, finish, normalized_request,
  resolve,
}
use lexicon_mcp.Selection.Loops.{add_pack, add_packs, all_packs, gather_lem}
use lexicon_mcp.Selection.Coverage.{finish_lem, resolved_finish}

-- Some pack of the list has the component.
abbrev pub provides : List Pack → String → Bool
provides [] i = false
provides (p ∷ ps) i = contains p.components i || provides ps i

abbrev pub pack_provides : Option Pack → String → Bool
pack_provides none i = false
pack_provides (some p) i = contains p.components i

provides-append :
    (ps qs : List Pack) (i : String) → provides (ps ++ qs) i ≡ (provides ps i || provides qs i)
provides-append [] qs i = refl
provides-append (p ∷ ps) qs i = ground (arith, provides-append ps qs i)

pub provides_of_contains :
    (ps : List Pack) (p : Pack) (i : String)
    → contains ps p ≡ true
    → contains p.components i ≡ true
    → provides ps i ≡ true
provides_of_contains [] p i h k = cc
provides_of_contains (q ∷ ps) p i h k = elim (Bool-cases (q == p)) [
  | inl same ↦
      let e : q ≡ p = (pack_eq.beq_iff q p).0 same in
      ground (arith, ap (λ (r : Pack). contains r.components i) e)
  | inr other ↦ ground (arith, provides_of_contains ps p i)
]

provides-append_new :
    (ps : List Pack) (p : Pack) (i : String)
    → provides (append_new ps p) i ≡ (provides ps i || contains p.components i)
provides-append_new ps p i = elim (Bool-cases (contains ps p)) [
  | inl old ↦ rw old (ground (arith, provides_of_contains ps p i old))
  | inr new ↦ rw new (provides-append ps (p ∷ []) i ∙ ground arith)
]

module _ {B : Type 0} (m : DatasetManifest B) where
  pub contains-component_ids :
      (ps : List Pack) (ids : List String) (i : String)
      → contains (component_ids m ps ids) i ≡ (contains ids i || provides ps i)
  contains-component_ids [] ids i = ground arith
  contains-component_ids (p ∷ ps) ids i = ground (
    arith,
    contains-component_ids ps (append_all_new ids p.components) i,
    contains-append_all_new p.components ids i,
  )

  component_ids-IsDistinct :
      (ps : List Pack) (ids : List String) → IsDistinct ids → IsDistinct (component_ids m ps ids)
  component_ids-IsDistinct [] ids d = d
  component_ids-IsDistinct (p ∷ ps) ids d =
      component_ids-IsDistinct ps (append_all_new ids p.components)
        (append_all_new-IsDistinct p.components ids d)

  -- Some language of the list is served for the capability by a pack that has the component.
  abbrev pub served_with : String → List String → String → Bool
  served_with c [] i = false
  served_with c (l ∷ ls) i = pack_provides (pack_for m c l) i || served_with c ls i

  abbrev pub asked_with : Option (List String) → List String → String → Bool
  asked_with requested [] i = false
  asked_with requested (c ∷ cs) i =
      served_with c (wanted m requested c) i || asked_with requested cs i

  provides-add_pack :
      (o : Option Pack) (ps : List Pack) (i : String)
      → provides (add_pack m o ps) i ≡ (provides ps i || pack_provides o i)
  provides-add_pack none ps i = ground arith
  provides-add_pack (some p) ps i = provides-append_new ps p i

  provides-add_packs :
      (c : String) (ls : List String) (ps : List Pack) (i : String)
      → provides (add_packs m c ls ps) i ≡ (provides ps i || served_with c ls i)
  provides-add_packs c [] ps i = ground arith
  provides-add_packs c (l ∷ ls) ps i =
      provides-add_packs c ls (add_pack m (pack_for m c l) ps) i
      ∙ ground (arith, provides-add_pack (pack_for m c l) ps i)

  pub provides-all_packs :
      (requested : Option (List String)) (cs : List String) (ps : List Pack) (i : String)
      → provides (all_packs m requested cs ps) i ≡ (provides ps i || asked_with requested cs i)
  provides-all_packs requested [] ps i = ground arith
  provides-all_packs requested (c ∷ cs) ps i =
      provides-all_packs requested cs (add_packs m c (wanted m requested c) ps) i
      ∙ ground (arith, provides-add_packs c (wanted m requested c) ps i)

  abbrev pub size_or : (Component → ℕ) → Result Component → ℕ
  size_or f (ok c) = f c
  size_or f (err e) = 0

  -- The size that the manifest declares for a component.
  abbrev pub installed_of : String → ℕ
  installed_of i = size_or (λ c. c.final_size) (component m i)

  abbrev pub compressed_of : String → ℕ
  compressed_of i = size_or (λ c. c.compressed_size) (component m i)

  sizes_lem :
      (ids : List String) (a b x y : ℕ)
      → sizes m ids a b ≡ ok (x, y)
      → (x ≡ a + sum_by compressed_of ids) × (y ≡ b + sum_by installed_of ids)
  unfolding sizes
  sizes_lem [] a b x y h = ground arith
  sizes_lem (i ∷ is) a b x y h = elim (Result-cases (component m i)) [
    | inl (c, found) ↦ ground (
      arith,
      sizes_lem is (a + c.compressed_size) (b + c.final_size) x y (rw (found, sizes) at h),
      found,
    )
    | inr (e, absent) ↦ absurd (ground (arith, absent))
  ]

  module _ (languages requested : Option (List String)) (capabilities : List String) (strict : Bool)
      (s : Selection) (normalized : normalized_request languages ≡ ok requested)
      (resolved : resolve m languages capabilities strict ≡ ok s) where
    selected_ids : List String
    selected_ids = component_ids m (gathered m requested capabilities).selected []

    resolved_ids : finish m (gathered m requested capabilities) ≡ ok s
    resolved_ids = resolved_finish m languages requested capabilities strict s normalized resolved

    -- The selection holds a component exactly if a required pack has it, or a pack that serves
    -- one of the wanted languages for one of the capabilities; sorted, and each one once.
    pub resolve-components :
        ((i : String)
          → contains s.components i
            ≡ (provides (required_packs m) i || asked_with requested capabilities i))
        × IsSorted s.components
        × IsDistinct s.components
    unfolding selected_ids gathered
    resolve-components =
        let e : s.components ≡ sorted selected_ids = (finish_lem m _ s resolved_ids).0 in
        (
          (λ i.
              ap (λ l. contains l i) e
              ∙ contains-sorted i selected_ids
              ∙ contains-component_ids (gathered m requested capabilities).selected [] i
              ∙ ap (λ (g : Gathered). provides g.selected i) (gather_lem m requested capabilities _)
              ∙ provides-all_packs requested capabilities (required_packs m) i),
          subst IsSorted (sym e) (sorted-IsSorted selected_ids),
          subst IsDistinct (sym e) (
              sorted-IsDistinct selected_ids
                (component_ids-IsDistinct (gathered m requested capabilities).selected [] tt)),
        )

    -- The sizes of the selection are the sums over its components, each counted once.
    pub resolve-sizes :
        (s.compressed_size ≡ sum_by compressed_of s.components)
        × (s.installed_size ≡ sum_by installed_of s.components)
    unfolding selected_ids
    resolve-sizes =
        let (e, _, _, _, counted) = finish_lem m _ s resolved_ids in
        let (x, y) = sizes_lem selected_ids 0 0 s.compressed_size s.installed_size counted in
        (
          x
              ∙ omega (arith, sum_by-sorted compressed_of selected_ids)
              ∙ ap (sum_by compressed_of) (sym e),
          y
              ∙ omega (arith, sum_by-sorted installed_of selected_ids)
              ∙ ap (sum_by installed_of) (sym e),
        )
