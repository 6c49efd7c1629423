-- ===== src/Pipeline/Plan.antt =====
-- pipeline/packs.py: which languages share a lexical pack. The thresholds are natural numbers: one
-- below 1 is refused as 0 is.
pub mod Covers
pub mod Bounds
use Prim.Native.String.{◌++◌ as ◌<>◌}
use lexicon_mcp.Prelude.{
  ℕ, ◌+◌, ◌*◌, String, Bool, true, false, ◌||◌, List, [], ◌∷◌, ◌++◌, map, Eq, ◌==◌, nat_eq,
  string_eq, string_le, ltb, leb, length, contains, is_nonempty, sum_by, filter, sorted, Ord,
  distinct, string_ord, Result, ok, err, value_error, if◌then◌else◌, ◌>>=◌, ◌>>◌, raise_if,
}
use lexicon_mcp.Prelude.{
  ◌⊎◌, inl, inr, ◌≡◌, refl, arith, string_le_total, string_le_antisym, string_le_trans,
}
use lexicon_mcp.Json.{ℤ, pos, negsuc}
use lexicon_mcp.Json.Integers.{int_leb, int_leb_total, int_leb_antisym, int_leb_trans}
use lexicon_mcp.Pipeline.Numbers.{three_digits}

pub record LanguageSize : Type 0 where
  pub language : String
  pub terms : ℤ

pub record PlannedPack : Type 0 where
  pub id : String
  pub capability : String
  pub languages : List String
  pub estimated_compressed : ℕ

unfoldable pub bundled : PlannedPack → Bool
bundled p = ltb 1 (length p.languages)

abbrev pub is_negative : ℤ → Bool
is_negative (pos n) = false
is_negative (negsuc n) = true

-- The number of terms, where it is not negative.
abbrev pub count : ℤ → ℕ
count (pos n) = n
count (negsuc n) = 0

-- The order by (-terms, language).
unfoldable pub size_le : LanguageSize → LanguageSize → Bool
size_le a b =
    if int_leb b.terms a.terms
    then if int_leb a.terms b.terms then string_le a.language b.language else true
    else false

-- The languages of the sizes, in order.
abbrev pub languages_of : List LanguageSize → List String
languages_of = map (λ x. x.language)

-- The loop that refuses a negative count and a language that stands twice.
unfoldable pub check_sizes : List String → List LanguageSize → Result (Unit {0})
check_sizes seen [] = ok tt
check_sizes seen (x ∷ xs) = do
  raise_if (is_negative x.terms) value_error
  raise_if (contains seen x.language) value_error
  check_sizes (seen ++ x.language ∷ []) xs

unfoldable pub estimate_compressed : ℕ → ℕ → ℕ
estimate_compressed terms bytes_per_term = terms * bytes_per_term

-- `packs`, `bundle` and `bundle_bytes`
pub record Planning : Type 0 where
  pub packs : List PlannedPack
  pub bundle : List LanguageSize
  pub bundle_bytes : ℕ

unfoldable pub bundle_id : List PlannedPack → String
unfolding bundled three_digits
bundle_id packs = "lexical-bundle-" <> three_digits (length (filter bundled packs) + 1)

-- The pack of the bundle.
abbrev pub bundle_pack : Planning → PlannedPack
bundle_pack s = record {
  id = bundle_id s.packs;
  capability = "lexical";
  languages = languages_of s.bundle;
  estimated_compressed = s.bundle_bytes;
}

unfoldable pub flush : Planning → Planning
flush s =
    if is_nonempty s.bundle
    then record { packs = s.packs ++ bundle_pack s ∷ []; bundle = []; bundle_bytes = 0 }
    else s

module _ (individual_threshold bundle_target bytes_per_term : ℕ) where
  abbrev pub estimate : LanguageSize → ℕ
  unfolding estimate_compressed
  estimate x = estimate_compressed (count x.terms) bytes_per_term

  abbrev pub add_individual : LanguageSize → Planning → Planning
  add_individual x s = record s {
    packs =
        s.packs
        ++ record {
          id = "lexical-" <> x.language;
          capability = "lexical";
          languages = x.language ∷ [];
          estimated_compressed = estimate x;
        }
          ∷ [];
  }

  abbrev pub add_to_bundle : LanguageSize → Planning → Planning
  add_to_bundle x s = record s {
    bundle = s.bundle ++ x ∷ [];
    bundle_bytes = s.bundle_bytes + estimate x;
  }

  -- One round of the loop over the ordered sizes.
  unfoldable pub place : LanguageSize → Planning → Planning
  unfolding estimate_compressed
  place x s =
      if leb individual_threshold (estimate x)
      then add_individual x s
      else let t = add_to_bundle x s in if leb bundle_target t.bundle_bytes then flush t else t

  unfoldable pub place_all : List LanguageSize → Planning → Planning
  place_all [] s = s
  place_all (x ∷ xs) s = place_all xs (place x s)

pub size_le_total : (a b : LanguageSize) → (size_le a b ≡ true) ⊎ (size_le b a ≡ true)
unfolding size_le
size_le_total a b =
    ground (arith, int_leb_total a.terms b.terms, string_le_total a.language b.language)

pub size_le_antisym : (a b : LanguageSize) → size_le a b ≡ true → size_le b a ≡ true → a ≡ b
unfolding size_le
size_le_antisym a b h k =
    ground (arith, int_leb_antisym a.terms b.terms, string_le_antisym a.language b.language)

pub size_le_trans :
    (a b c : LanguageSize) → size_le a b ≡ true → size_le b c ≡ true → size_le a c ≡ true
unfolding size_le
size_le_trans a b c h k = ground (
  arith,
  int_leb_trans c.terms b.terms a.terms,
  int_leb_trans a.terms b.terms c.terms,
  int_leb_trans b.terms c.terms a.terms,
  int_leb_trans b.terms a.terms c.terms,
  int_leb_trans a.terms c.terms b.terms,
  int_leb_trans c.terms a.terms b.terms,
  string_le_trans a.language b.language c.language,
)

instance abbrev pub size_ord : Ord LanguageSize
size_ord = record {
  le = size_le;
  le_total = size_le_total;
  le_antisym = size_le_antisym;
  le_trans = size_le_trans;
}

abbrev pub nothing_planned : Planning
nothing_planned = record { packs = []; bundle = []; bundle_bytes = 0 }

abbrev pub has_zero : ℕ → ℕ → ℕ → Bool
has_zero individual_threshold bundle_target bytes_per_term =
    ltb individual_threshold 1 || (ltb bundle_target 1 || ltb bytes_per_term 1)

unfoldable pub plan_lexical_packs : List LanguageSize → ℕ → ℕ → ℕ → Result (List PlannedPack)
unfolding check_sizes place_all
plan_lexical_packs sizes individual_threshold bundle_target bytes_per_term = do
  raise_if (has_zero individual_threshold bundle_target bytes_per_term) value_error
  check_sizes [] (sorted sizes)
  ok
      (flush (
        place_all individual_threshold bundle_target bytes_per_term (sorted sizes)
          nothing_planned)).packs

abbrev pub capability_pack : String → String → PlannedPack
capability_pack capability language = record {
  id = capability <> ("-" <> language);
  capability = capability;
  languages = language ∷ [];
  estimated_compressed = 0;
}

unfoldable pub plan_capability_packs : String → List String → List PlannedPack
plan_capability_packs capability languages =
    map (capability_pack capability) (sorted (distinct languages))
