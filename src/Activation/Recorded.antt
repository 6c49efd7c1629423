-- ===== src/Activation/Recorded.antt =====
-- What is built from an accepted manifest is a record that can be read back.
use lexicon_mcp.Prelude.{
  String, Bool, true, false, ◌≡◌, refl, ap, ap₂, sym, ◌∙◌, subst, List, [], ◌∷◌, ◌++◌, ◌==◌,
  string_eq, nat_eq, eq_iff, contains, IsDistinct, IsDistinct-apart, beq_refl, filter, map, map_ok,
  arith, Bool-cases, inl, inr, ok, >>=-eq-ok, OnOk,
}
use mathlib.Core.List.{append_assoc}
use lexicon_mcp.Text.{id_re}
use lexicon_mcp.Manifest.{Component, Pack, component_by_id}
use lexicon_mcp.Manifest.Packs.{capabilities}
use lexicon_mcp.Manifest.Checked.{ComponentOk, AllComponents, ids_of}
use lexicon_mcp.Manifest.Claims.{AllOk}
use lexicon_mcp.Selection.{pack_eq}
use lexicon_mcp.Selection.Strict.{all-contains}
use lexicon_mcp.Activation.Build.{activation_component, activation_pack}
use lexicon_mcp.Activation.Parse.{component_ids}
use lexicon_mcp.Activation.RoundTrip.{AreRecorded, AreKnown, ArePacks}

-- What is found under an id has that id, and is as the parser has accepted it.
component_by_id_found :
    (sources : List String) (cs : List Component) (i : String) (c : Component)
    → AllComponents sources cs
    → component_by_id i cs ≡ ok c
    → (c.id ≡ i) × ComponentOk sources c
component_by_id_found sources [] i c a h = cc
component_by_id_found sources (d ∷ cs) i c a h = elim (Bool-cases (d.id == i)) [
  | inl here ↦
      let e : ok d ≡ ok c = ground (arith, h, here) in
      subst (OnOk (λ b. (b.id ≡ i) × ComponentOk sources b)) e ((eq_iff d.id i).0 here, a.0)
  | inr other ↦ component_by_id_found sources cs i c a.1 (ground (arith, h, other))
]

pub found_ids :
    (sources : List String) (cs : List Component) (is : List String) (found : List Component)
    → AllComponents sources cs
    → map_ok (λ i. component_by_id i cs) is ≡ ok found
    → (ids_of found ≡ is) × AllComponents sources found
found_ids sources cs [] found a h =
    subst (OnOk (λ f. (ids_of f ≡ []) × AllComponents sources f)) h (refl, tt)
found_ids sources cs (i ∷ is) found a h =
    let (c, at, h1) = >>=-eq-ok (component_by_id i cs) _ h in
    let (rest, more, h2) = >>=-eq-ok (map_ok (λ i. component_by_id i cs) is) _ h1 in
    let (named, good) = component_by_id_found sources cs i c a at in
    let (same, all_good) = found_ids sources cs is rest a more in
    subst (OnOk (λ f. (ids_of f ≡ i ∷ is) × AllComponents sources f)) h2
      (ap₂ (λ x xs. x ∷ xs) named same, (good, all_good))

not_seen :
    (seen : List String) (i : String) (is : List String)
    → IsDistinct (seen ++ i ∷ is)
    → contains seen i ≡ false
not_seen seen i is d = elim (Bool-cases (contains seen i)) [
  | inr new ↦ new
  | inl old ↦ absurd (ground (arith, IsDistinct-apart seen (i ∷ is) i d old, beq_refl i))
]

pub components_recorded :
    (sources seen : List String) (cs : List Component)
    → AllComponents sources cs
    → IsDistinct (seen ++ ids_of cs)
    → AreRecorded seen (map activation_component cs)
components_recorded sources seen [] a d = tt
components_recorded sources seen (c ∷ cs) a d = (
  a.0.id_safe,
  not_seen seen c.id (ids_of cs) d,
  a.0.final_digest,
  a.0.path_named,
  components_recorded sources (seen ++ c.id ∷ []) cs a.1
      (subst IsDistinct (sym (append_assoc seen (c.id ∷ []) (ids_of cs))) d),
)

pub recorded_ids : (cs : List Component) → component_ids (map activation_component cs) ≡ ids_of cs
recorded_ids [] = refl
recorded_ids (c ∷ cs) = ap (λ is. c.id ∷ is) (recorded_ids cs)

known_safe :
    (sources : List String) (cs : List Component) (i : String)
    → AllComponents sources cs
    → contains (ids_of cs) i ≡ true
    → id_re i ≡ true
known_safe sources [] i a h = cc
known_safe sources (c ∷ cs) i a h = elim (Bool-cases (c.id == i)) [
  | inl here ↦ ap id_re (sym ((eq_iff c.id i).0 here)) ∙ a.0.id_safe
  | inr other ↦ known_safe sources cs i a.1 (ground (arith, h, other))
]

references_known :
    (ids : List String) (is : List String)
    → ((i : String) → contains is i ≡ true → (id_re i ≡ true) × (contains ids i ≡ true))
    → AreKnown ids is
references_known ids [] h = tt
references_known ids (i ∷ is) h =
    let (safe, known) = h i (ground (arith, beq_refl i)) in
    (safe, known, references_known ids is (λ j k. h j (ground (arith, k))))

capability_named : (c : String) → contains capabilities c ≡ true → (c == "") ≡ false
capability_named c h = elim (Bool-cases (c == "")) [
  | inr named ↦ named
  | inl empty ↦
      absurd (not_known (subst (λ d. contains capabilities d ≡ true) ((eq_iff c "").0 empty) h))
]
  where
    not_known : contains capabilities "" ≡ true → ⊥
    not_known k = cc

-- What every recorded pack needs to know of the components beside it.
pub packs_recorded :
    (sources ids known : List String) (cs : List Component) (f : Pack → Bool) (ps : List Pack)
    → known ≡ ids_of cs
    → AllComponents sources cs
    → AllOk known ps
    → ((p : Pack) (i : String)
        → contains ps p ≡ true
        → f p ≡ true
        → contains p.components i ≡ true
        → contains ids i ≡ true)
    → ArePacks ids (map activation_pack (filter f ps))
packs_recorded sources ids known cs f [] e a k h = tt
packs_recorded sources ids known cs f (p ∷ ps) e a k h = elim (Bool-cases (f p)) [
  | inr dropped ↦ rw dropped (
      packs_recorded sources ids known cs f ps e a k.1 (λ q i there. h q i (ground (arith, there))))
  | inl kept ↦ rw kept (
    record {
      id_safe = k.0.id_safe;
      capability_named = capability_named p.capability k.0.known;
      languages_normal = k.0.tags;
      components_known = references_known ids p.components (λ i has. (
        known_safe sources cs i a (
            subst (λ l. contains l i ≡ true) e
              (all-contains (contains known) p.components i k.0.resolves has)),
        h p i (ground (arith, pack_eq.beq_iff p p)) kept has,
      ));
      some_component = k.0.some_component;
    },
    packs_recorded sources ids known cs f ps e a k.1 (λ q i there. h q i (ground (arith, there))),
  )
]
