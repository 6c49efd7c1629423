-- ===== src/Manifest/Claims.antt =====
-- What `_parse_packs` guarantees of the packs that it accepts.
use lexicon_mcp.Prelude.{
  String, Bool, true, false, ◌&&◌, ◌≡◌, refl, ap, sym, ◌∙◌, subst, List, [], ◌∷◌, ◌++◌, ◌==◌,
  string_eq, bool_eq, pair_eq, all, ok, Error, manifest_error, is_nonempty, is_nonempty-snoc,
  contains, IsDistinct, IsDistinct-snoc, OnOk, >>=-eq-ok, require-eq-ok, raise_if-eq-ok, arith,
}
use mathlib.Core.List.{append_assoc, append-nil}
use lexicon_mcp.Json.{
  Value, null, bool, int, float, str, obj, nil, cons, get, as_object, as_nonempty, Fields,
}
use lexicon_mcp.Text.{id_re}
use lexicon_mcp.Manifest.{Pack}
use lexicon_mcp.Manifest.Scalars.{safe_identifier, string_value}
use lexicon_mcp.Manifest.Tags.{AreNormal, safe_identifier-eq-ok, parse_pack_languages-AreNormal}
use lexicon_mcp.Manifest.Packs.{
  capabilities, resolve_components, parse_pack_components, parse_required, parse_pack_languages,
  Claims, claim_languages, PackState, parse_pack, parse_pack_list, has_core, parse_packs,
}

abbrev pub claims_of_pack : String → List String → Claims
claims_of_pack capability [] = []
claims_of_pack capability (l ∷ ls) = (capability, l) ∷ claims_of_pack capability ls

-- Every (capability, language) pair that the packs serve.
abbrev pub claims_of : List Pack → Claims
claims_of [] = []
claims_of (p ∷ ps) = claims_of_pack p.capability p.languages ++ claims_of ps

abbrev pub pack_ids : List Pack → List String
pack_ids [] = []
pack_ids (p ∷ ps) = p.id ∷ pack_ids ps

pub record PackOk (component_ids : List String) (p : Pack) : Type 0 where
  pub id_safe : id_re p.id ≡ true
  pub known : contains capabilities p.capability ≡ true
  pub resolves : all (contains component_ids) p.components ≡ true
  pub once : IsDistinct p.components
  pub some_component : is_nonempty p.components ≡ true
  pub tags : AreNormal p.languages
  pub required : (p.capability == "core") ≡ true → p.required ≡ true

abbrev pub AllOk : List String → List Pack → Type 0
AllOk component_ids [] = Unit
AllOk component_ids (p ∷ ps) = PackOk component_ids p × AllOk component_ids ps

pub record PacksOk (component_ids : List String) (packs : List Pack) : Type 0 where
  pub each : AllOk component_ids packs
  pub ids_once : IsDistinct (pack_ids packs)
  pub claims_once : IsDistinct (claims_of packs)
  pub core : has_core packs ≡ true

pub all-append :
    {A : Type 0} (p : A → Bool) (xs ys : List A) → all p (xs ++ ys) ≡ (all p xs && all p ys)
all-append p [] ys = refl
all-append p (x ∷ xs) ys = ground (arith, all-append p xs ys)

-- The components that a pack lists are known and stand once.
resolve_components_lem :
    (ids : List String) (vs : List Value) (acc out : List String)
    → all (contains ids) acc ≡ true
    → IsDistinct acc
    → resolve_components ids vs acc ≡ ok out
    → (all (contains ids) out ≡ true) × IsDistinct out
unfolding resolve_components
resolve_components_lem ids [] acc out k d h = ground arith
resolve_components_lem ids (v ∷ vs) acc out k d h =
    let (c, _, h1) = >>=-eq-ok (safe_identifier v) _ h in
    let (known, h2) = require-eq-ok (contains ids c) manifest_error _ h1 in
    let (new, h3) = raise_if-eq-ok (contains acc c) manifest_error _ h2 in
    resolve_components_lem ids vs (acc ++ c ∷ []) out
      (all-append (contains ids) acc (c ∷ []) ∙ ground arith) (IsDistinct-snoc acc c d new) h3

-- A list that has been read as one that is not empty is not.
as_nonempty-some :
    (e : Error) (v : Value) (vs : List Value) → as_nonempty e v ≡ ok vs → is_nonempty vs ≡ true
as_nonempty-some e (Value.arr (cons v ws)) vs h = ground arith
as_nonempty-some e (Value.arr nil) vs h = cc
as_nonempty-some e null vs h = cc
as_nonempty-some e (bool b) vs h = cc
as_nonempty-some e (int n) vs h = cc
as_nonempty-some e (float x) vs h = cc
as_nonempty-some e (str s) vs h = cc
as_nonempty-some e (obj fs) vs h = cc

resolve_components_longer :
    (ids : List String) (vs : List Value) (acc out : List String)
    → is_nonempty acc ≡ true
    → resolve_components ids vs acc ≡ ok out
    → is_nonempty out ≡ true
unfolding resolve_components
resolve_components_longer ids [] acc out k h = ground arith
resolve_components_longer ids (v ∷ vs) acc out k h =
    let (c, _, h1) = >>=-eq-ok (safe_identifier v) _ h in
    let (_, h2) = require-eq-ok (contains ids c) manifest_error _ h1 in
    let (_, h3) = raise_if-eq-ok (contains acc c) manifest_error _ h2 in
    resolve_components_longer ids vs (acc ++ c ∷ []) out (is_nonempty-snoc acc c) h3

resolve_components_some :
    (ids : List String) (vs : List Value) (out : List String)
    → is_nonempty vs ≡ true
    → resolve_components ids vs [] ≡ ok out
    → is_nonempty out ≡ true
unfolding resolve_components
resolve_components_some ids [] out k h = cc
resolve_components_some ids (v ∷ vs) out k h =
    let (c, _, h1) = >>=-eq-ok (safe_identifier v) _ h in
    let (_, h2) = require-eq-ok (contains ids c) manifest_error _ h1 in
    resolve_components_longer ids vs (c ∷ []) out refl h2

claim_languages_lem :
    (capability : String) (ls : List String) (claimed out : Claims)
    → IsDistinct claimed
    → claim_languages capability ls claimed ≡ ok out
    → (out ≡ claimed ++ claims_of_pack capability ls) × IsDistinct out
unfolding claim_languages
claim_languages_lem capability [] claimed out d h = ground (arith, append-nil claimed)
claim_languages_lem capability (l ∷ ls) claimed out d h =
    let (new, h1) = raise_if-eq-ok (contains claimed (capability, l)) manifest_error _ h in
    let (e, f) =
      claim_languages_lem capability ls (claimed ++ (capability, l) ∷ []) out
        (IsDistinct-snoc claimed (capability, l) d new) h1 in
    (e ∙ append_assoc claimed ((capability, l) ∷ []) (claims_of_pack capability ls), f)

-- The loop of `_parse_packs`: what it has gathered agrees with the packs that it has parsed.
record Parsed (component_ids : List String) (s : PackState) : Type 0 where
  each : AllOk component_ids s.parsed
  seen : s.seen_ids ≡ pack_ids s.parsed
  ids_once : IsDistinct s.seen_ids
  claims : s.claimed ≡ claims_of s.parsed
  claims_once : IsDistinct s.claimed

AllOk-snoc :
    {ids : List String} (ps : List Pack) (p : Pack)
    → AllOk ids ps
    → PackOk ids p
    → AllOk ids (ps ++ p ∷ [])
AllOk-snoc [] p a k = (k, tt)
AllOk-snoc (q ∷ ps) p a k = (a.0, AllOk-snoc ps p a.1 k)

pack_ids-snoc : (ps : List Pack) (p : Pack) → pack_ids (ps ++ p ∷ []) ≡ pack_ids ps ++ p.id ∷ []
pack_ids-snoc [] p = refl
pack_ids-snoc (q ∷ ps) p = ap (◌∷◌ q.id) (pack_ids-snoc ps p)

claims_of-append : (ps qs : List Pack) → claims_of (ps ++ qs) ≡ claims_of ps ++ claims_of qs
claims_of-append [] qs = refl
claims_of-append (p ∷ ps) qs =
    ap (λ c. claims_of_pack p.capability p.languages ++ c) (claims_of-append ps qs)
    ∙ sym (append_assoc (claims_of_pack p.capability p.languages) (claims_of ps) (claims_of qs))

parse_pack_components_lem :
    (item : Fields) (ids out : List String)
    → parse_pack_components item ids ≡ ok out
    → (all (contains ids) out ≡ true) × IsDistinct out × (is_nonempty out ≡ true)
unfolding parse_pack_components
parse_pack_components_lem item ids out h =
    let (_, h1) = raise_if-eq-ok _ manifest_error _ h in
    let (raw, read, h2) = >>=-eq-ok _ (λ raw. resolve_components ids raw []) h1 in
    let (known, once) = resolve_components_lem ids raw [] out refl tt h2 in
    (
      known,
      once,
      resolve_components_some ids raw out (as_nonempty-some manifest_error _ raw read) h2,
    )

-- A core pack passes the parser only if it is required.
parse_pack_languages_core :
    (item : Fields) (is_core required : Bool) {out : List String}
    → parse_pack_languages item is_core required ≡ ok out
    → is_core ≡ true
    → required ≡ true
unfolding parse_pack_languages
parse_pack_languages_core item is_core true h c = refl
parse_pack_languages_core item is_core false h c = ground arith

Parsed-snoc :
    {ids : List String} (s : PackState) (p : Pack) (claimed : Claims)
    → Parsed ids s
    → PackOk ids p
    → contains s.seen_ids p.id ≡ false
    → (claimed ≡ s.claimed ++ claims_of_pack p.capability p.languages) × IsDistinct claimed
    → Parsed ids (record {
      parsed = s.parsed ++ p ∷ [];
      seen_ids = s.seen_ids ++ p.id ∷ [];
      claimed = claimed;
    })
Parsed-snoc s p claimed h k new (e, d) = record {
  each = AllOk-snoc s.parsed p h.each k;
  seen = ap (λ l. l ++ p.id ∷ []) h.seen ∙ sym (pack_ids-snoc s.parsed p);
  ids_once = IsDistinct-snoc s.seen_ids p.id h.ids_once new;
  claims =
      e
      ∙ ap (λ l. l ++ claims_of_pack p.capability p.languages) h.claims
      ∙ ap (λ l. claims_of s.parsed ++ l)
          (sym (append-nil (claims_of_pack p.capability p.languages)))
      ∙ sym (claims_of-append s.parsed (p ∷ []));
  claims_once = d;
}

parse_pack-Parsed :
    (ids : List String) (v : Value) (s t : PackState)
    → Parsed ids s
    → parse_pack ids v s ≡ ok t
    → Parsed ids t
unfolding parse_pack
parse_pack-Parsed ids v s t h e =
    let (item, _, e1) = >>=-eq-ok (as_object manifest_error v) _ e in
    let (pack_id, safe, e2) = >>=-eq-ok (safe_identifier (get "id" item)) _ e1 in
    let (new, e3) = raise_if-eq-ok (contains s.seen_ids pack_id) manifest_error _ e2 in
    let (capability, _, e4) = >>=-eq-ok (string_value (get "capability" item)) _ e3 in
    let (known, e5) = require-eq-ok (contains capabilities capability) manifest_error _ e4 in
    let (components, resolved, e6) = >>=-eq-ok (parse_pack_components item ids) _ e5 in
    let (required, _, e7) = >>=-eq-ok (parse_required item (capability == "core")) _ e6 in
    let (languages, tags, e8) =
      >>=-eq-ok (parse_pack_languages item (capability == "core") required) _ e7 in
    let (claimed, claims, e9) = >>=-eq-ok (claim_languages capability languages s.claimed) _ e8 in
    let (all_known, once, some_one) = parse_pack_components_lem item ids components resolved in
    subst (OnOk (Parsed ids)) e9 (
      Parsed-snoc s
        (record {
          id = pack_id;
          capability = capability;
          languages = languages;
          components = components;
          required = required;
        })
        claimed h
        (record {
          known = known;
          resolves = all_known;
          once = once;
          id_safe = (safe_identifier-eq-ok (get "id" item) pack_id safe).1;
          some_component = some_one;
          tags = parse_pack_languages-AreNormal item (capability == "core") required languages tags;
          required = parse_pack_languages_core item (capability == "core") required tags;
        })
        new (claim_languages_lem capability languages s.claimed claimed h.claims_once claims))

parse_pack_list-Parsed :
    (ids : List String) (vs : List Value) (s t : PackState)
    → Parsed ids s
    → parse_pack_list ids vs s ≡ ok t
    → Parsed ids t
unfolding parse_pack_list
parse_pack_list-Parsed ids [] s t h e = subst (OnOk (Parsed ids)) e h
parse_pack_list-Parsed ids (v ∷ vs) s t h e =
    let (u, step, e1) = >>=-eq-ok (parse_pack ids v s) _ e in
    parse_pack_list-Parsed ids vs u t (parse_pack-Parsed ids v s u h step) e1

-- The packs that the parser accepts have distinct ids and list known components, each once; no
-- (capability, language) pair is served twice, core packs are required, and there is one.
pub parse_packs-PacksOk :
    (v : Value) (ids : List String) (packs : List Pack)
    → parse_packs v ids ≡ ok packs
    → PacksOk ids packs
unfolding parse_packs
parse_packs-PacksOk v ids packs e =
    let (vs, _, e1) = >>=-eq-ok (as_nonempty manifest_error v) _ e in
    let (s, run, e2) = >>=-eq-ok (parse_pack_list ids vs _) _ e1 in
    let (core, e3) = require-eq-ok (has_core s.parsed) manifest_error _ e2 in
    let h =
      parse_pack_list-Parsed ids vs _ s
        (record { each = tt; seen = refl; ids_once = tt; claims = refl; claims_once = tt }) run in
    subst (OnOk (PacksOk ids)) e3 (record {
      each = h.each;
      ids_once = subst IsDistinct h.seen h.ids_once;
      claims_once = subst IsDistinct h.claims h.claims_once;
      core = core;
    })
