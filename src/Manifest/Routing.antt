-- ===== src/Manifest/Routing.antt =====
-- `pack_for` on the packs that the parser accepts: the first match is the only one.
use lexicon_mcp.Prelude.{
  String, true, ◌&&◌, ◌||◌, ◌≡◌, ap, ◌∙◌, List, [], ◌∷◌, ◌++◌, ◌==◌, string_eq, pair_eq, some, find,
  contains, IsDistinct, IsDistinct-apart, contains-append, arith, Bool-cases, inl, inr,
}
use lexicon_mcp.Manifest.{Pack, serves}
use lexicon_mcp.Manifest.Packs.{Claims}
use lexicon_mcp.Manifest.Claims.{claims_of_pack, claims_of, PacksOk}

contains-claims_of_pack :
    (c d l : String) (ls : List String)
    → contains (claims_of_pack c ls) (d, l) ≡ (c == d && contains ls l)
contains-claims_of_pack c d l [] = ground arith
contains-claims_of_pack c d l (m ∷ ls) = ground (arith, contains-claims_of_pack c d l ls)

-- A pair is claimed exactly if some pack serves it.
contains-claims_of :
    (c l : String) (p : Pack) (ps : List Pack)
    → contains (claims_of (p ∷ ps)) (c, l) ≡ (serves c l p || contains (claims_of ps) (c, l))
contains-claims_of c l p ps =
    contains-append (claims_of_pack p.capability p.languages) (claims_of ps) (c, l)
    ∙ ap (λ b. b || contains (claims_of ps) (c, l))
        (contains-claims_of_pack p.capability c l p.languages)

claimed_of_serves :
    (c l : String) (before after : List Pack) (p : Pack)
    → serves c l p ≡ true
    → contains (claims_of (before ++ p ∷ after)) (c, l) ≡ true
claimed_of_serves c l [] after p h = contains-claims_of c l p after ∙ ground arith
claimed_of_serves c l (q ∷ before) after p h =
    contains-claims_of c l q (before ++ p ∷ after)
    ∙ ground (arith, claimed_of_serves c l before after p h)

IsDistinct-right : (xs ys : Claims) → IsDistinct (xs ++ ys) → IsDistinct ys
IsDistinct-right [] ys d = d
IsDistinct-right (x ∷ xs) ys d = IsDistinct-right xs ys d.1

find_only :
    (c l : String) (before after : List Pack) (p : Pack)
    → IsDistinct (claims_of (before ++ p ∷ after))
    → serves c l p ≡ true
    → find (serves c l) (before ++ p ∷ after) ≡ some p
find_only c l [] after p d h = ground arith
find_only c l (q ∷ before) after p d h =
    let ours = claims_of_pack q.capability q.languages in
    let rest = claims_of (before ++ p ∷ after) in
    let claimed : contains rest (c, l) ≡ true = claimed_of_serves c l before after p h in
    elim (Bool-cases (serves c l q)) [
      | inl both ↦ ground (
        arith,
        IsDistinct-apart ours rest (c, l) d,
        contains-claims_of_pack q.capability c l q.languages,
      )
      | inr other ↦ rw other (find_only c l before after p (IsDistinct-right ours rest d) h)
    ]

-- Wherever a pack stands among accepted packs, it is the one that `pack_for` finds for each
-- capability and language that it serves.
pub find-serves :
    (ids : List String) (before after : List Pack) (p : Pack) (c l : String)
    → PacksOk ids (before ++ p ∷ after)
    → serves c l p ≡ true
    → find (serves c l) (before ++ p ∷ after) ≡ some p
find-serves ids before after p c l h s = find_only c l before after p h.claims_once s
