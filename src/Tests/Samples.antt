-- ===== src/Tests/Samples.antt =====
-- A codec whose bytes are JSON values, a manifest, and what is read from it.
use lexicon_mcp.Prelude.{
  ℕ, String, true, false, List, [], ◌∷◌, Option, none, some, ◌≡◌, refl, Result, ok, if◌then◌else◌,
  Bool-cases, inl, inr,
}
use lexicon_mcp.Json.{
  Value, pos, null, bool, int, float, str, arr, obj, end, items, object, sort_keys,
}
use lexicon_mcp.Json.Equality.{value_beq, value_beq_iff}
use lexicon_mcp.Text.{sha256_re}
use lexicon_mcp.Codec.{Codec}
use lexicon_mcp.Manifest.{Source, Component, Pack, DatasetManifest}
use lexicon_mcp.Selection.{Selection, Unavailable, Reason}
use lexicon_mcp.Activation.{Activation}
use lexicon_mcp.Store.{Entry, regular}
use lexicon_mcp.Install.{Root}
use lexicon_mcp.Install.Write.{InstallReport, report_of, install}

abbrev pub zeros : String
zeros = "0000000000000000000000000000000000000000000000000000000000000000"

abbrev pub ones : String
ones = "1111111111111111111111111111111111111111111111111111111111111111"

abbrev pub twos : String
twos = "2222222222222222222222222222222222222222222222222222222222222222"

-- A text that is a digest is its own digest.
abbrev pub sample_sha256 : Value → String
sample_sha256 (str s) = if sha256_re s then s else zeros
sample_sha256 _ = zeros

pub zeros_valid : sha256_re zeros ≡ true
unfolding sha256_re
zeros_valid = refl

digest_or_zeros : (s : String) → sha256_re (if sha256_re s then s else zeros) ≡ true
digest_or_zeros s = elim (Bool-cases (sha256_re s)) [
  | inl good ↦ rw good good
  | inr bad ↦ rw bad zeros_valid
]

pub sample_digest : (v : Value) → sha256_re (sample_sha256 v) ≡ true
sample_digest (str s) = digest_or_zeros s
sample_digest null = zeros_valid
sample_digest (bool b) = zeros_valid
sample_digest (int n) = zeros_valid
sample_digest (float x) = zeros_valid
sample_digest (arr vs) = zeros_valid
sample_digest (obj fs) = zeros_valid

abbrev pub sample_codec : Codec
sample_codec = record {
  Bytes = Value;
  encode = str;
  loads = λ v. some (sort_keys v);
  dumps = λ v. v;
  sha256 = sample_sha256;
  text_of = λ v. "";
  size = λ v. 0;
  same_bytes = value_beq;
  loads-dumps = λ v. refl;
  sha256-digest = sample_digest;
  same_bytes_iff = value_beq_iff;
}

abbrev pub nat : ℕ → Value
nat n = int (pos n)

abbrev pub component_json : String → String → String → Value
component_json id path digest = obj (
    object (
      ("id", str id)
      ∷ ("path", str path)
      ∷ ("compression", str "none")
      ∷ ("compressed_size", nat 7)
      ∷ ("compressed_sha256", str digest)
      ∷ ("final_size", nat 7)
      ∷ ("final_sha256", str digest)
      ∷ (
        "parts",
        arr (
            items (
              obj (object (("name", str path) ∷ ("size", nat 7) ∷ ("sha256", str digest) ∷ []))
              ∷ [])),
      )
      ∷ ("sources", arr (items (str "wordnet" ∷ [])))
      ∷ ("artifact_type", str "sqlite")
      ∷ []))

abbrev pub manifest_json : Value
manifest_json = obj (
    object (
      ("schema_version", nat 2)
      ∷ ("dataset_version", str "v1")
      ∷ (
        "release",
        obj (
            object (
              ("repository", str "owner/lexicon")
              ∷ ("tag", str "v1")
              ∷ ("immutable", bool true)
              ∷ [])),
      )
      ∷ (
        "sources",
        arr (
            items (
              obj (
                object (
                  ("id", str "wordnet")
                  ∷ ("name", str "WordNet")
                  ∷ ("url", str "https://example.org")
                  ∷ ("revision", str "3")
                  ∷ ("retrieved_at", str "2025")
                  ∷ ("sha256", str zeros)
                  ∷ ("size", nat 1)
                  ∷ ("license", str "MIT")
                  ∷ []))
              ∷ [])),
      )
      ∷ (
        "components",
        arr (
            items (
              component_json "base" "base.sqlite" ones
              ∷ component_json "words" "words/en.sqlite" twos
              ∷ [])),
      )
      ∷ ("transformation_commit", str "0123456789012345678901234567890123456789")
      ∷ (
        "packs",
        arr (
            items (
              obj (
                object (
                  ("id", str "core") ∷ ("capability", str "core") ∷ ("component", str "base") ∷ []))
              ∷ obj (
                  object (
                    ("id", str "english")
                    ∷ ("capability", str "lexical")
                    ∷ ("component", str "words")
                    ∷ ("languages", arr (items (str "EN" ∷ [])))
                    ∷ []))
              ∷ [])),
      )
      ∷ ("created_at", str "2025")
      ∷ []))

abbrev pub sample_component : String → List String → String → String → Component
sample_component id path name digest = record {
  id = id;
  artifact_type = "sqlite";
  path = path;
  compression = "none";
  compressed_size = 7;
  compressed_sha256 = digest;
  final_size = 7;
  final_sha256 = digest;
  parts = record { name = some name; url = none; size = 7; sha256 = digest; offset = 0 } ∷ [];
  sources = "wordnet" ∷ [];
  integrity = end;
}

abbrev pub core_pack : Pack
core_pack = record {
  id = "core";
  capability = "core";
  languages = [];
  components = "base" ∷ [];
  required = true;
}

abbrev pub english_pack : Pack
english_pack = record {
  id = "english";
  capability = "lexical";
  languages = "en" ∷ [];
  components = "words" ∷ [];
  required = false;
}

abbrev pub sample_source : Source
sample_source = record {
  id = "wordnet";
  name = "WordNet";
  url = "https://example.org";
  revision = "3";
  retrieved_at = "2025";
  sha256 = zeros;
  size = 1;
  row_count = none;
  row_digest = none;
  license = "MIT";
  license_url = none;
}

abbrev pub sample_manifest : DatasetManifest Value
sample_manifest = record {
  schema_version = 2;
  dataset_version = "v1";
  profile = "components";
  languages = "en" ∷ [];
  release = record { repository = "owner/lexicon"; tag = "v1"; immutable = true; base_url = none };
  created_at = "2025";
  transformation_commit = "0123456789012345678901234567890123456789";
  sources = sample_source ∷ [];
  components =
      sample_component "base" ("base.sqlite" ∷ []) "base.sqlite" ones
      ∷ sample_component "words" ("words" ∷ "en.sqlite" ∷ []) "words/en.sqlite" twos
      ∷ [];
  raw = manifest_json;
  sha256 = zeros;
  packs = core_pack ∷ english_pack ∷ [];
  source_dataset = none;
}

-- What a lenient request for English and French, words and vectors, is resolved to.
abbrev pub sample_unavailable : List Unavailable
sample_unavailable =
    record { capability = "lexical"; language = "fr"; reason = Reason.language_not_in_dataset }
    ∷ record {
      capability = "semantic";
      language = "en";
      reason = Reason.capability_not_available_for_language;
    }
    ∷ record { capability = "semantic"; language = "fr"; reason = Reason.language_not_in_dataset }
    ∷ []

abbrev pub sample_selection : Selection
sample_selection = record {
  components = "base" ∷ "words" ∷ [];
  packs = "core" ∷ "english" ∷ [];
  effective = ("lexical", "en" ∷ []) ∷ ("semantic", []) ∷ [];
  unavailable = sample_unavailable;
  compressed_size = 14;
  installed_size = 14;
}

-- The selection of a strict request for English words, and the record that is built of it.
abbrev pub words_selection : Selection
words_selection = record {
  components = "base" ∷ "words" ∷ [];
  packs = "core" ∷ "english" ∷ [];
  effective = ("lexical", "en" ∷ []) ∷ [];
  unavailable = [];
  compressed_size = 14;
  installed_size = 14;
}

abbrev pub words_id : String
words_id = "00000000000000000000000000000000"

abbrev pub words_activation : String → Activation
words_activation now = record {
  schema_version = 2;
  activation_id = words_id;
  dataset_version = "v1";
  manifest_sha256 = zeros;
  created_at = now;
  requested_languages = some ("EN" ∷ []);
  requested_capabilities = "lexical" ∷ [];
  effective = ("lexical", "en" ∷ []) ∷ [];
  unavailable = [];
  components =
      record { id = "base"; sha256 = ones; path = "base.sqlite"; size = 7 }
      ∷ record { id = "words"; sha256 = twos; path = "words/en.sqlite"; size = 7 }
      ∷ [];
  packs =
      record { id = "core"; capability = "core"; languages = []; components = "base" ∷ [] }
      ∷ record {
        id = "english";
        capability = "lexical";
        languages = "en" ∷ [];
        components = "words" ∷ [];
      }
      ∷ [];
}

-- An empty root, and a download that stages each file with the digest of its component.
abbrev pub empty_root : Root Value
empty_root = record {
  pointer = none;
  activation_files = [];
  manifests = [];
  store = record { objects = [] };
  locked = false;
  free = some 1000000000;
  writable = λ f. true;
}

abbrev pub sample_file : String → Entry Value
sample_file digest = regular (record { content = str digest; readable = true; deletable = true })

abbrev pub sample_fetch : Component → Result (Option (Entry Value))
sample_fetch c = ok (some (sample_file c.final_sha256))

abbrev pub words_report : Option String → List String → InstallReport
words_report previous fetched =
    report_of sample_codec sample_fetch (words_activation "2025") previous fetched

-- What an install of English words leaves of an empty root.
abbrev pub words_root : Root Value
words_root =
    (install sample_codec sample_fetch sample_manifest (some ("EN" ∷ [])) ("lexical" ∷ []) true
      "2025" "2026" empty_root).1
