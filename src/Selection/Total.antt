-- ===== src/Selection/Total.antt =====
-- On a manifest that the parser accepts, `resolve` fails only by its own tests of the request.
use lexicon_mcp.Prelude.{
  ℕ, ◌+◌, ◌≤◌, String, Bool, true, false, ◌≡◌, refl, ap, List, [], ◌∷◌, Option, ◌==◌, string_eq,
  ltb, all, filter, find, contains, arith, Bool-cases, inl, inr, ok, beq_refl,
}
use lexicon_mcp.Manifest.{
  Pack, Component, DatasetManifest, serves, component_by_id, component, pack_for, required_packs,
}
use lexicon_mcp.Manifest.Checked.{ids_of}
use lexicon_mcp.Manifest.Claims.{AllOk, PacksOk}
use lexicon_mcp.Selection.{
  Selection, wanted, gathered, sizes, component_ids, finish, normalized_request, refused,
  requestable_capabilities, resolve,
}
use lexicon_mcp.Selection.Loops.{gather_lem}
use lexicon_mcp.Selection.Components.{
  provides, pack_provides, served_with, asked_with, contains-component_ids, provides-all_packs,
}
use lexicon_mcp.Selection.Strict.{all-contains}

pub component_by_id_known :
    (cs : List Component) (i : String)
    → contains (ids_of cs) i ≡ true
    → (c : Component) × (component_by_id i cs ≡ ok c)
component_by_id_known [] i h = absurd (ground arith)
component_by_id_known (c ∷ cs) i h = elim (Bool-cases (c.id == i)) [
  | inl here ↦ (c, rw here)
  | inr other ↦
      let (d, found) = component_by_id_known cs i (ground (arith, other)) in (d, rw other found)
]

pub all_of_contains :
    (p : String → Bool) (xs : List String)
    → ((x : String) → contains xs x ≡ true → p x ≡ true)
    → all p xs ≡ true
all_of_contains p [] h = refl
all_of_contains p (x ∷ xs) h =
    ground (arith, h x, beq_refl x, all_of_contains p xs λ y k. h y (ground (arith, k)))

provides-filter :
    (f : Pack → Bool) (ps : List Pack) (i : String)
    → provides (filter f ps) i ≡ true
    → provides ps i ≡ true
provides-filter f [] i h = h
provides-filter f (p ∷ ps) i h = ground (arith, provides-filter f ps i)

provides-find :
    (f : Pack → Bool) (ps : List Pack) (i : String)
    → pack_provides (find f ps) i ≡ true
    → provides ps i ≡ true
provides-find f [] i h = h
provides-find f (p ∷ ps) i h = ground (arith, provides-find f ps i)

known_of_provides :
    (ids : List String) (ps : List Pack) (i : String)
    → AllOk ids ps
    → provides ps i ≡ true
    → contains ids i ≡ true
known_of_provides ids [] i k h = cc
known_of_provides ids (p ∷ ps) i k h = elim (Bool-cases (contains p.components i)) [
  | inl here ↦ all-contains (contains ids) p.components i k.0.resolves here
  | inr there ↦ known_of_provides ids ps i k.1 (ground (arith, there))
]

module _ {B : Type 0} (m : DatasetManifest B) where
  provides_of_served :
      (c : String) (ls : List String) (i : String)
      → served_with m c ls i ≡ true
      → provides m.packs i ≡ true
  unfolding pack_for
  provides_of_served c [] i h = cc
  provides_of_served c (l ∷ ls) i h =
      ground (arith, provides-find (serves c l) m.packs i, provides_of_served c ls i)

  provides_of_asked :
      (requested : Option (List String)) (cs : List String) (i : String)
      → asked_with m requested cs i ≡ true
      → provides m.packs i ≡ true
  provides_of_asked requested [] i h = cc
  provides_of_asked requested (c ∷ cs) i h =
      ground
        (arith, provides_of_served c (wanted m requested c) i, provides_of_asked requested cs i)

  sizes_total :
      (ids : List String) (a b : ℕ)
      → all (contains (ids_of m.components)) ids ≡ true
      → (n : ℕ × ℕ) × (sizes m ids a b ≡ ok n)
  unfolding sizes component
  sizes_total [] a b h = ((a, b), refl)
  sizes_total (i ∷ is) a b h =
      let (c, found) = component_by_id_known m.components i (ground arith) in
      rw (found, sizes) (sizes_total is (a + c.compressed_size) (b + c.final_size) (ground arith))

  module _ (known : PacksOk (ids_of m.components) m.packs) where
    pub provided_known :
        (requested : Option (List String)) (capabilities : List String) (i : String)
        → contains (component_ids m (gathered m requested capabilities).selected []) i ≡ true
        → contains (ids_of m.components) i ≡ true
    unfolding gathered required_packs
    provided_known requested capabilities i h =
        known_of_provides (ids_of m.components) m.packs i known.each (
          ground (
            arith,
            contains-component_ids m (gathered m requested capabilities).selected [] i,
            ap (λ g. provides g.selected i)
                (gather_lem m requested capabilities
                  (record { selected = required_packs m; effective = []; unavailable = [] })),
            provides-all_packs m requested capabilities (required_packs m) i,
            provides-filter (λ p. p.required) m.packs i,
            provides_of_asked requested capabilities i,
          ))

    -- A request that names capabilities that can be requested, well-formed tags and, if strict,
    -- only languages of the dataset is resolved: on an accepted manifest no pack leads nowhere.
    pub resolve_total :
        (languages requested : Option (List String)) (capabilities : List String) (strict : Bool)
        → 2 ≤ m.schema_version
        → all (contains requestable_capabilities) capabilities ≡ true
        → normalized_request languages ≡ ok requested
        → refused strict m.languages requested ≡ false
        → (s : Selection) × (resolve m languages capabilities strict ≡ ok s)
    unfolding resolve finish
    resolve_total languages requested capabilities strict v k n a =
        let ids = component_ids m (gathered m requested capabilities).selected [] in
        let (total, counted) =
          sizes_total ids 0 0 (all_of_contains _ ids (provided_known requested capabilities)) in
        let old : ltb m.schema_version 2 ≡ false = ground arith in
        rw (old, k, n, a, counted) (_, refl)
