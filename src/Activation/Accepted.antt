-- ===== src/Activation/Accepted.antt =====
-- From the bytes of a manifest to an activation record, without a failure in between.
use lexicon_mcp.Prelude.{
  ◌≤◌, String, Bool, true, false, ◌≡◌, refl, ap, sym, ◌∙◌, subst, List, [], ◌∷◌, Option, ◌==◌,
  string_eq, string_ord, nat_eq, eq_iff, contains, IsDistinct, filter, beq_refl, contains-sorted,
  all, is_nonempty, map, map_ok, arith, Bool-cases, inl, inr, ok, >>=-eq-ok, OnOk,
}
use lexicon_mcp.Codec.{Codec}
use lexicon_mcp.Text.{id_re, sha256_re}
use lexicon_mcp.Manifest.{Component, Pack, DatasetManifest, component}
use lexicon_mcp.Manifest.Checked.{ids_of}
use lexicon_mcp.Manifest.Parse.{parse_manifest}
use lexicon_mcp.Manifest.Accepted.{ManifestOk, parse_manifest-ManifestOk}
use lexicon_mcp.Manifest.Origins.{source_ids_of}
use lexicon_mcp.Selection.{
  Selection, pack_eq, normalized_request, refused, requestable_capabilities, resolve,
}
use lexicon_mcp.Selection.Coverage.{resolve-Resolved, finish_lem}
use lexicon_mcp.Selection.Components.{resolve-components}
use lexicon_mcp.Selection.Closed.{resolve-closed, resolve-core}
use lexicon_mcp.Selection.Total.{component_by_id_known, provided_known, resolve_total}
use lexicon_mcp.Activation.Build.{to_dict}
use lexicon_mcp.Activation.Parse.{parse_activation}
use lexicon_mcp.Activation.{Activation}
use lexicon_mcp.Activation.Build.{activation_component, activation_pack, build_activation}
use lexicon_mcp.Activation.RoundTrip.{IsRecord, ArePacks, read_back, parse_activation-to_dict}
use lexicon_mcp.Activation.Named.{compute_activation_id-id_re}
use lexicon_mcp.Activation.Recorded.{found_ids, components_recorded, recorded_ids, packs_recorded}

safe_nonempty : (s : String) → id_re s ≡ true → (s == "") ≡ false
unfolding id_re
safe_nonempty s h = elim (Bool-cases (s == "")) [
  | inr named ↦ named
  | inl empty ↦ absurd (not_safe (subst (λ t. id_re t ≡ true) ((eq_iff s "").0 empty) h))
]
  where
    not_safe : id_re "" ≡ true → ⊥
    not_safe k = cc

some_filtered :
    (f : Pack → Bool) (ps : List Pack) (p : Pack)
    → contains ps p ≡ true
    → f p ≡ true
    → is_nonempty (map activation_pack (filter f ps)) ≡ true
some_filtered f [] p h k = cc
some_filtered f (q ∷ ps) p h k = elim (Bool-cases (q == p)) [
  | inl same ↦ let e : f q ≡ true = ap f ((pack_eq.beq_iff q p).0 same) ∙ k in rw e refl
  | inr other ↦ ground (arith, some_filtered f ps p, h, other, k)
]

some_mapped :
    (cs : List Component) (is : List String)
    → ids_of cs ≡ is
    → is_nonempty is ≡ true
    → is_nonempty (map activation_component cs) ≡ true
some_mapped [] is e h = ground (arith, e, h)
some_mapped (c ∷ cs) is e h = refl

module _ (K : Codec) where
  open K use {Bytes}

  -- What `build_activation` makes of a selection of an accepted manifest, in schema 2.
  pub built_IsRecord :
      (m : DatasetManifest Bytes) (languages : Option (List String)) (wanted : List String)
      (strict : Bool) (s : Selection) (created_at : String) (a : Activation)
      → ManifestOk K m
      → (m.schema_version == 1) ≡ false
      → resolve m languages wanted strict ≡ ok s
      → build_activation K m s languages wanted created_at ≡ ok a
      → (created_at == "") ≡ false
      → IsRecord a
  unfolding build_activation component
  built_IsRecord m languages wanted strict s created_at a good new resolved h created =
      let (cs, found, e) = >>=-eq-ok (map_ok (component m) s.components) _ h in
      let r = resolve-Resolved m languages wanted strict s resolved in
      let packs = good.packs new in
      let sources = source_ids_of m.sources in
      let (named, all_good) =
        found_ids sources m.components s.components cs good.components.each found in
      let (_, _, once) =
        resolve-components m languages r.requested wanted strict s r.normalized resolved in
      let (core, there, picked, nonempty) =
        resolve-core m languages r.requested wanted strict s r.normalized resolved
          (ids_of m.components) packs in
      let ids_eq = recorded_ids cs ∙ named in
      subst (OnOk IsRecord) e (record {
        schema = refl;
        id_safe = compute_activation_id-id_re K m.dataset_version m.sha256 _;
        version_named = safe_nonempty m.dataset_version good.version_safe;
        digest = ap sha256_re good.digest ∙ K.sha256-digest m.raw;
        created = created;
        some_component = some_mapped cs s.components named nonempty;
        components = components_recorded sources [] cs all_good (subst IsDistinct (sym named) once);
        some_pack = some_filtered (λ p. contains s.packs p.id) m.packs core there picked;
        packs =
            subst
              (λ is.
                ArePacks is (map activation_pack (filter (λ p. contains s.packs p.id) m.packs)))
              (sym ids_eq)
              (packs_recorded sources s.components (ids_of m.components) m.components
                (λ p. contains s.packs p.id) m.packs refl good.components.each packs.each
                (λ p i known chosen has.
                  resolve-closed m languages r.requested wanted strict s r.normalized resolved p i
                    packs.ids_once known chosen has));
      })

  found_all :
      (m : DatasetManifest Bytes) (is : List String)
      → ((i : String) → contains is i ≡ true → contains (ids_of m.components) i ≡ true)
      → (cs : List Component) × (map_ok (component m) is ≡ ok cs)
  unfolding component
  found_all m [] h = ([], refl)
  found_all m (i ∷ is) h =
      let (c, at) = component_by_id_known m.components i (h i (ground (arith, beq_refl i))) in
      let (cs, rest) = found_all m is (λ j k. h j (ground (arith, k))) in
      (c ∷ cs, rw (at, rest, component) refl)

  pub built_total :
      (m : DatasetManifest Bytes) (languages : Option (List String)) (wanted : List String)
      (strict : Bool) (s : Selection) (created_at : String)
      → ManifestOk K m
      → (m.schema_version == 1) ≡ false
      → resolve m languages wanted strict ≡ ok s
      → (a : Activation) × (build_activation K m s languages wanted created_at ≡ ok a)
  unfolding build_activation
  built_total m languages wanted strict s created_at good new resolved =
      let r = resolve-Resolved m languages wanted strict s resolved in
      let e = (finish_lem m _ s r.finished).0 in
      let (cs, found) = found_all m s.components (λ i has.
        provided_known m (good.packs new) r.requested wanted i
          (sym (contains-sorted i _) ∙ ap (λ l. contains l i) (sym e) ∙ has)) in
      rw (found, build_activation) (_, refl)

  schema_two :
      (m : DatasetManifest Bytes)
      → ManifestOk K m
      → (m.schema_version == 1) ≡ false
      → 2 ≤ m.schema_version
  schema_two m good new = ground (arith, good.schema, new)

  -- On a manifest of schema 2 that the parser accepts, a request for capabilities that can be
  -- requested, of well-formed tags and, if strict, for languages of the dataset leads to a
  -- selection and from there to an activation; its record is read back as it was written, with
  -- the keys of each object in order.
  pub accepted_activation :
      (raw : Bytes) (m : DatasetManifest Bytes) (languages requested : Option (List String))
      (wanted : List String) (strict : Bool) (created_at : String)
      → parse_manifest K raw ≡ ok m
      → (m.schema_version == 1) ≡ false
      → all (contains requestable_capabilities) wanted ≡ true
      → normalized_request languages ≡ ok requested
      → refused strict m.languages requested ≡ false
      → (created_at == "") ≡ false
      → (s : Selection) × (a : Activation) × (resolve m languages wanted strict ≡ ok s)
        × (build_activation K m s languages wanted created_at ≡ ok a)
        × (parse_activation K (K.dumps (to_dict a)) ≡ ok (read_back a))
  accepted_activation raw m languages requested wanted strict created_at h new known normalized
        accepted created =
      let good = parse_manifest-ManifestOk K raw m h in
      let (s, resolved) =
        resolve_total m (good.packs new) languages requested wanted strict (schema_two m good new)
          known normalized accepted in
      let (a, built) = built_total m languages wanted strict s created_at good new resolved in
      (
        s,
        a,
        resolved,
        built,
        parse_activation-to_dict K a (
            built_IsRecord m languages wanted strict s created_at a good new resolved built
              created),
      )
