-- ===== src/Activation/RoundTrip.antt =====
-- A record that was written is read back as it was.
use lexicon_mcp.Prelude.{
  String, true, false, List, [], ◌∷◌, ◌++◌, Option, none, some, ◌≡◌, refl, ap, string_le, ◌==◌,
  string_eq, nat_eq, contains, map, map_ok, is_nonempty, Dict, ok, activation_error,
}
use lexicon_mcp.Json.{Value, str, arr, items, values, object, entries, as_nonempty}
use lexicon_mcp.Text.{id_re, sha256_re}
use lexicon_mcp.Json.{sort_keys}
use lexicon_mcp.Codec.{Codec}
use lexicon_mcp.Activation.Sorted.{
  sort_keys-map, sort_keys_strs, sort_keys-text_object, sort_keys-fields_of, sort_keys-texts,
  sorted_items_idem,
}
use lexicon_mcp.Manifest.Scalars.{safe_identifier, is_sha256, normalize_language}
use lexicon_mcp.Manifest.Tags.{AreNormal}
use lexicon_mcp.Activation.{ActivationComponent, ActivationPack, Activation}
use lexicon_mcp.Activation.Build.{
  texts, text_object, optional_texts, component_dict, pack_dict, sorted_items, to_dict,
}
use lexicon_mcp.Activation.Parse.{
  string_value, size_value, digest_value, parse_component, parse_components, parse_reference,
  parse_pack, component_ids, to_text, parse_effective, text_entries, parse_unavailable,
  parse_requested, parse_record, parse_activation,
}

-- What the parser asks of the components, with the ids seen before.
abbrev pub AreRecorded : List String → List ActivationComponent → Type 0
AreRecorded seen [] = Unit
AreRecorded seen (c ∷ cs) =
    (id_re c.id ≡ true)
    × (contains seen c.id ≡ false)
    × (sha256_re c.sha256 ≡ true)
    × ((c.path == "") ≡ false)
    × AreRecorded (seen ++ c.id ∷ []) cs

abbrev pub AreKnown : List String → List String → Type 0
AreKnown ids [] = Unit
AreKnown ids (i ∷ is) = (id_re i ≡ true) × (contains ids i ≡ true) × AreKnown ids is

pub record IsPack (ids : List String) (p : ActivationPack) : Type 0 where
  pub id_safe : id_re p.id ≡ true
  pub capability_named : (p.capability == "") ≡ false
  pub languages_normal : AreNormal p.languages
  pub components_known : AreKnown ids p.components
  pub some_component : is_nonempty p.components ≡ true

abbrev pub ArePacks : List String → List ActivationPack → Type 0
ArePacks ids [] = Unit
ArePacks ids (p ∷ ps) = IsPack ids p × ArePacks ids ps

-- What the parser asks of a record.
pub record IsRecord (a : Activation) : Type 0 where
  pub schema : a.schema_version ≡ 2
  pub id_safe : id_re a.activation_id ≡ true
  pub version_named : (a.dataset_version == "") ≡ false
  pub digest : sha256_re a.manifest_sha256 ≡ true
  pub created : (a.created_at == "") ≡ false
  pub some_component : is_nonempty a.components ≡ true
  pub components : AreRecorded [] a.components
  pub some_pack : is_nonempty a.packs ≡ true
  pub packs : ArePacks (component_ids a.components) a.packs

-- A record as it is read back: the keys of each object in order.
abbrev pub read_back : Activation → Activation
read_back a = record a {
  effective = sorted_items a.effective;
  unavailable = map sorted_items a.unavailable;
}

values-items : (vs : List Value) → values (items vs) ≡ vs
values-items [] = refl
values-items (v ∷ vs) = ap (◌∷◌ v) (values-items vs)

entries-object : (d : Dict Value) → entries (object d) ≡ d
entries-object [] = refl
entries-object ((k, v) ∷ d) = ap (◌∷◌ (k, v)) (entries-object d)

as_nonempty-items :
    {A : Type 0} (f : A → Value) (xs : List A)
    → is_nonempty xs ≡ true
    → as_nonempty activation_error (arr (items (map f xs))) ≡ ok (map f xs)
as_nonempty-items f [] h = cc
as_nonempty-items f (x ∷ xs) h = ap (λ vs. ok (f x ∷ vs)) (values-items (map f xs))

parse_component-dict :
    (seen : List String) (c : ActivationComponent)
    → id_re c.id ≡ true
    → contains seen c.id ≡ false
    → sha256_re c.sha256 ≡ true
    → (c.path == "") ≡ false
    → parse_component seen (sort_keys (component_dict c)) ≡ ok c
unfolding parse_component sort_keys string_le safe_identifier digest_value is_sha256 size_value
    string_value
parse_component-dict seen c h i j k = rw (h, i, j, k)

parse_components-dicts :
    (seen : List String) (cs : List ActivationComponent)
    → AreRecorded seen cs
    → parse_components seen (map (λ c. sort_keys (component_dict c)) cs) ≡ ok cs
unfolding parse_components
parse_components-dicts seen [] h = refl
parse_components-dicts seen (c ∷ cs) h =
    rw (
      parse_component-dict seen c h.0 h.1 h.2 h.3,
      parse_components-dicts (seen ++ c.id ∷ []) cs h.4,
    )

parse_references-texts :
    (ids is : List String) → AreKnown ids is → map_ok (parse_reference ids) (map str is) ≡ ok is
unfolding parse_reference safe_identifier
parse_references-texts ids [] h = refl
parse_references-texts ids (i ∷ is) h = rw (h.0, h.1, parse_references-texts ids is h.2)

normalize-texts : (ls : List String) → AreNormal ls → map_ok normalize_language (map str ls) ≡ ok ls
normalize-texts [] h = refl
normalize-texts (l ∷ ls) h = rw (h.0, normalize-texts ls h.1)

parse_pack-dict :
    (ids : List String) (p : ActivationPack)
    → IsPack ids p
    → parse_pack ids (sort_keys (pack_dict p)) ≡ ok p
unfolding parse_pack sort_keys string_le safe_identifier string_value
parse_pack-dict ids p h = rw (
  sort_keys_strs p.components,
  sort_keys_strs p.languages,
  as_nonempty-items str p.components h.some_component,
  parse_references-texts ids p.components h.components_known,
  values-items (map str p.languages),
  h.id_safe,
  h.capability_named,
  normalize-texts p.languages h.languages_normal,
)

parse_packs-dicts :
    (ids : List String) (ps : List ActivationPack)
    → ArePacks ids ps
    → map_ok (parse_pack ids) (map (λ p. sort_keys (pack_dict p)) ps) ≡ ok ps
parse_packs-dicts ids [] h = refl
parse_packs-dicts ids (p ∷ ps) h = rw (parse_pack-dict ids p h.0, parse_packs-dicts ids ps h.1)

module _ (K : Codec) where
  to_text-str : (ss : List String) → map (to_text K) (map str ss) ≡ ss
  to_text-str [] = refl
  to_text-str (s ∷ ss) = ap (◌∷◌ s) (to_text-str ss)

  parse_effective-items :
      (d : Dict (List String)) → parse_effective K (map (λ (c, ls). (c, texts ls)) d) ≡ ok d
  parse_effective-items [] = refl
  parse_effective-items ((c, ls) ∷ d) =
      rw (values-items (map str ls), to_text-str ls, parse_effective-items d)

  text_entries-object :
      (d : Dict String) → text_entries K (object (map (λ (k, v). (k, str v)) d)) ≡ d
  text_entries-object [] = refl
  text_entries-object ((k, v) ∷ d) = ap (◌∷◌ (k, v)) (text_entries-object d)

  parse_unavailable-objects :
      (us : List (Dict String))
      → parse_unavailable K (map (λ u. sort_keys (text_object u)) us) ≡ map sorted_items us
  parse_unavailable-objects [] = refl
  parse_unavailable-objects (u ∷ us) =
      rw (
        sort_keys-text_object u,
        text_entries-object (sorted_items u),
        parse_unavailable-objects us,
      )

  parse_requested-texts :
      (o : Option (List String)) → parse_requested K (sort_keys (optional_texts o)) ≡ ok o
  unfolding sort_keys
  parse_requested-texts none = refl
  parse_requested-texts (some ss) =
      rw (sort_keys_strs ss, values-items (map str ss), to_text-str ss)

  parse_record-to_dict :
      (a : Activation) → IsRecord a → parse_record K (sort_keys (to_dict a)) ≡ ok (read_back a)
  unfolding parse_record to_dict sort_keys string_le safe_identifier string_value digest_value
      is_sha256
  parse_record-to_dict a h = rw (
    h.schema,
    sort_keys-map component_dict a.components,
    as_nonempty-items (λ c. sort_keys (component_dict c)) a.components h.some_component,
    parse_components-dicts [] a.components h.components,
    sort_keys-map pack_dict a.packs,
    as_nonempty-items (λ p. sort_keys (pack_dict p)) a.packs h.some_pack,
    parse_packs-dicts (component_ids a.components) a.packs h.packs,
    parse_requested-texts a.requested_languages,
    sort_keys_strs a.requested_capabilities,
    values-items (map str a.requested_capabilities),
    sort_keys-map text_object a.unavailable,
    values-items (map (λ u. sort_keys (text_object u)) a.unavailable),
    h.id_safe,
    h.version_named,
    h.created,
    sort_keys-fields_of texts (sorted_items a.effective) sort_keys-texts,
    sorted_items_idem a.effective,
    entries-object (map (λ (c, ls). (c, texts ls)) (sorted_items a.effective)),
    parse_effective-items (sorted_items a.effective),
    h.digest,
    to_text-str a.requested_capabilities,
    parse_unavailable-objects a.unavailable,
  )

  -- The parser reads back what was written of a record that meets the parser's demands: every
  -- field as it was, and the keys of each object in order.
  pub parse_activation-to_dict :
      (a : Activation) → IsRecord a → parse_activation K (K.dumps (to_dict a)) ≡ ok (read_back a)
  unfolding parse_activation
  parse_activation-to_dict a h =
      rw (K.loads-dumps (to_dict a), parse_activation) (parse_record-to_dict a h)
