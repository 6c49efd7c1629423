-- ===== src/Activation/Identity.antt =====
-- The id of an activation is made of the dataset and the set of its digests, and of nothing else.
use lexicon_mcp.Prelude.{
  String, List, Option, ◌≡◌, refl, ap, sym, ◌∙◌, SameMembers, sorted-distinct, string_eq,
  string_ord, map, ok, >>=-eq-ok, map_ok, subst, OnOk,
}
use Prim.Native.String.{◌++◌ as ◌<>◌}
use lexicon_mcp.Text.{take_chars}
use lexicon_mcp.Codec.{Codec}
use lexicon_mcp.Manifest.{DatasetManifest, component}
use lexicon_mcp.Selection.{Selection}
use lexicon_mcp.Activation.{Activation}
use lexicon_mcp.Activation.Build.{joined, compute_activation_id, build_activation}

abbrev pub digest_list : Activation → List String
digest_list a = map (λ c. c.sha256) a.components

module _ (K : Codec) where
  -- Neither the order of the digests nor their repetition changes the id.
  pub compute_activation_id-SameMembers :
      (version manifest_sha256 : String) (xs ys : List String)
      → SameMembers xs ys
      → compute_activation_id K version manifest_sha256 xs
        ≡ compute_activation_id K version manifest_sha256 ys
  unfolding compute_activation_id
  compute_activation_id-SameMembers version manifest_sha256 xs ys m =
      ap
        (λ ds.
          take_chars 32 (K.sha256 (K.encode (version <> ("\0" <> (manifest_sha256 <> joined ds))))))
        (sorted-distinct xs ys m)

  pub built_id :
      (m : DatasetManifest K.Bytes) (s : Selection) (languages : Option (List String))
      (capabilities : List String) (now : String) (a : Activation)
      → build_activation K m s languages capabilities now ≡ ok a
      → a.activation_id ≡ compute_activation_id K m.dataset_version m.sha256 (digest_list a)
  unfolding build_activation
  built_id m s languages capabilities now a h =
      let (cs, _, e) = >>=-eq-ok (map_ok (component m) s.components) _ h in
      subst
        (OnOk
          λ b. b.activation_id ≡ compute_activation_id K m.dataset_version m.sha256 (digest_list b))
        e refl

  -- Two activations of one manifest that hold the same digests have the same id, whatever was
  -- requested, when, and whatever packs and languages they serve.
  pub build_activation_same_id :
      (m : DatasetManifest K.Bytes) (s t : Selection) (ls ms : Option (List String))
      (cs ds : List String) (now later : String) (a b : Activation)
      → build_activation K m s ls cs now ≡ ok a
      → build_activation K m t ms ds later ≡ ok b
      → SameMembers (digest_list a) (digest_list b)
      → a.activation_id ≡ b.activation_id
  build_activation_same_id m s t ls ms cs ds now later a b h k same =
      built_id m s ls cs now a h
      ∙ compute_activation_id-SameMembers m.dataset_version m.sha256 _ _ same
      ∙ sym (built_id m t ms ds later b k)
