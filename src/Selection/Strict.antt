-- ===== src/Selection/Strict.antt =====
-- The strict mode of `resolve`, in which a language that the dataset lacks is an error.
use lexicon_mcp.Prelude.{
  String, Bool, true, ◌≡◌, List, [], ◌∷◌, some, all, contains, arith, ok, string_eq,
}
use lexicon_mcp.Manifest.{DatasetManifest}
use lexicon_mcp.Selection.{
  Unavailable, Reason, Selection, reason_eq, unavailable_eq, wanted, normalized_request, resolve,
}
use lexicon_mcp.Selection.Coverage.{resolve-unavailable, resolved_accepted}

pub all-contains :
    (p : String → Bool) (xs : List String) (x : String)
    → all p xs ≡ true
    → contains xs x ≡ true
    → p x ≡ true
all-contains p [] x h k = cc
all-contains p (y ∷ ys) x h k = ground (arith, string_eq.beq_iff y x, all-contains p ys x, cong y x)
  where
    cong : (a b : String) → a ≡ b → p a ≡ p b
    cong a b e = cc

module _ {B : Type 0} (m : DatasetManifest B) where
  -- A strict request for named languages that succeeds reports no language as absent from the
  -- dataset: what it lacks it lacks for a capability only.
  pub resolve_strict :
      (languages requested capabilities : List String) (s : Selection) (u : Unavailable)
      → normalized_request (some languages) ≡ ok (some requested)
      → resolve m (some languages) capabilities true ≡ ok s
      → contains s.unavailable u ≡ true
      → u.reason ≡ Reason.capability_not_available_for_language
  unfolding wanted
  resolve_strict languages requested capabilities s u normalized resolved listed = ground (
    arith,
    resolve-unavailable m (some languages) (some requested) capabilities true s normalized resolved
        u,
    resolved_accepted m (some languages) (some requested) capabilities true s normalized resolved,
    all-contains (contains m.languages) requested u.language,
    reason_eq.beq_iff (Reason.capability_not_available_for_language) u.reason,
  )
