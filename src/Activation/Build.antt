-- ===== src/Activation/Build.antt =====
-- `compute_activation_id`, `build_activation` and `Activation.to_dict` of data/activation.py.
use Prim.Native.String.{◌++◌ as ◌<>◌}
use lexicon_mcp.Prelude.{
  ℕ, String, List, [], ◌∷◌, Option, none, some, string_eq, filter, contains, distinct, sorted,
  string_ord, string_le, map, map_ok, Dict, Result, ok, if◌then◌else◌, ◌>>=◌,
}
use lexicon_mcp.Json.{Value, pos, null, int, str, arr, obj, items, object}
use lexicon_mcp.Codec.{Codec}
use lexicon_mcp.Text.{take_chars}
use lexicon_mcp.Manifest.{Component, Pack, DatasetManifest, component}
use lexicon_mcp.Manifest.Paths.{path_text}
use lexicon_mcp.Selection.{Selection, Unavailable, Reason}
use lexicon_mcp.Activation.{ActivationComponent, ActivationPack, Activation}

-- What the digest is fed with, behind the manifest's digest.
abbrev pub joined : List String → String
joined [] = ""
joined (d ∷ ds) = "\0" <> (d <> joined ds)

abbrev pub activation_component : Component → ActivationComponent
activation_component c = record {
  id = c.id;
  sha256 = c.final_sha256;
  path = path_text c.path;
  size = c.final_size;
}

abbrev pub activation_pack : Pack → ActivationPack
activation_pack p = record {
  id = p.id;
  capability = p.capability;
  languages = p.languages;
  components = p.components;
}

abbrev pub reason_text : Reason → String
reason_text Reason.language_not_in_dataset = "language_not_in_dataset"
reason_text Reason.capability_not_available_for_language = "capability_not_available_for_language"

-- `Unavailable.as_dict`
abbrev pub unavailable_dict : Unavailable → Dict String
unavailable_dict u =
    ("capability", u.capability) ∷ ("language", u.language) ∷ ("reason", reason_text u.reason) ∷ []

-- `sorted(d.items())`; the keys of a dict differ, so the values are never compared
abbrev pub insert_item {ℓ} : {V : Type ℓ} → String → V → Dict V → Dict V
insert_item k v [] = (k, v) ∷ []
insert_item k v ((j, w) ∷ d) =
    if string_le k j then (k, v) ∷ (j, w) ∷ d else (j, w) ∷ insert_item k v d

abbrev pub sorted_items {ℓ} : {V : Type ℓ} → Dict V → Dict V
sorted_items [] = []
sorted_items ((k, v) ∷ d) = insert_item k v (sorted_items d)

-- JSON arrays and objects of texts.
abbrev pub texts : List String → Value
texts ss = arr (items (map str ss))

abbrev pub text_object : Dict String → Value
text_object d = obj (object (map (λ (k, v). (k, str v)) d))

abbrev pub nat : ℕ → Value
nat n = int (pos n)

abbrev pub component_dict : ActivationComponent → Value
component_dict c = obj (
    object (
      ("id", str c.id)
      ∷ ("sha256", str c.sha256)
      ∷ ("path", str c.path)
      ∷ ("size", nat c.size)
      ∷ []))

abbrev pub pack_dict : ActivationPack → Value
pack_dict p = obj (
    object (
      ("id", str p.id)
      ∷ ("capability", str p.capability)
      ∷ ("languages", texts p.languages)
      ∷ ("components", texts p.components)
      ∷ []))

abbrev pub optional_texts : Option (List String) → Value
optional_texts none = null
optional_texts (some ss) = texts ss

abbrev pub requested_dict : Activation → Value
requested_dict a = obj (
    object (
      ("languages", optional_texts a.requested_languages)
      ∷ ("capabilities", texts a.requested_capabilities)
      ∷ []))

abbrev pub effective_dict : Dict (List String) → Value
effective_dict d = obj (object (map (λ (c, ls). (c, texts ls)) (sorted_items d)))

unfoldable pub to_dict : Activation → Value
to_dict a = obj (
    object (
      ("schema_version", nat a.schema_version)
      ∷ ("activation_id", str a.activation_id)
      ∷ ("dataset_version", str a.dataset_version)
      ∷ ("manifest_sha256", str a.manifest_sha256)
      ∷ ("created_at", str a.created_at)
      ∷ ("requested", requested_dict a)
      ∷ ("effective", effective_dict a.effective)
      ∷ ("unavailable", arr (items (map text_object a.unavailable)))
      ∷ ("components", arr (items (map component_dict a.components)))
      ∷ ("packs", arr (items (map pack_dict a.packs)))
      ∷ []))

module _ (K : Codec) where
  open K use {Bytes, encode, sha256}

  unfoldable pub compute_activation_id : String → String → List String → String
  compute_activation_id dataset_version manifest_sha256 component_digests = take_chars 32 (
      sha256 (
        encode (
          dataset_version
          <> ("\0" <> (manifest_sha256 <> joined (sorted (distinct component_digests)))))))

  -- A selected id that the manifest lacks raises a KeyError.
  unfoldable pub build_activation :
      DatasetManifest Bytes
      → Selection
      → Option (List String)
      → List String
      → String
      → Result Activation
  build_activation m s requested_languages requested_capabilities created_at = do
    cs ← map_ok (component m) s.components
    let components = map activation_component cs
    ok (record {
      schema_version = 2;
      activation_id =
          compute_activation_id m.dataset_version m.sha256 (map (λ c. c.sha256) components);
      dataset_version = m.dataset_version;
      manifest_sha256 = m.sha256;
      created_at = created_at;
      requested_languages = requested_languages;
      requested_capabilities = requested_capabilities;
      effective = s.effective;
      unavailable = map unavailable_dict s.unavailable;
      components = components;
      packs = map activation_pack (filter (λ p. contains s.packs p.id) m.packs);
    })
