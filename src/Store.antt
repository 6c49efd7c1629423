-- ===== src/Store.antt =====
-- data/store.py: components kept under their digests. The entry of a digest is what its path
-- names: a file, a link with what it leads to, or a directory; a link or a directory may stand
-- where the store would put a component.
pub mod Adopt
pub mod Prune
use lexicon_mcp.Prelude.{
  ℕ, ◌+◌, String, Bool, true, false, not, ◌&&◌, List, [], ◌∷◌, ◌++◌, Option, none, some, ◌==◌,
  string_eq, contains, all, sorted, string_ord, sum_by, Dict, keys, lookup, insert, erase, Result,
  ok, err, store_error, os_error, if◌then◌else◌, ◌>>=◌, ◌>>◌, require, raise_if,
}
use lexicon_mcp.Text.{sha256_re}
use lexicon_mcp.Codec.{Codec}

-- A file that cannot be read or deleted is one that the system refuses.
pub record File (B : Type 0) : Type 0 where
  pub content : B
  pub readable : Bool
  pub deletable : Bool

pub data Entry (B : Type 0) : Type 0 where
  regular : File B → Entry B
  symlink : Option (File B) → Entry B
  directory : Entry B

pub record Store (B : Type 0) : Type 0 where
  pub objects : Dict (Entry B)

-- The path is named by the digest, so the digest stands for it.
unfoldable pub path_for : String → Result String
path_for digest = if sha256_re digest then ok digest else err store_error

module _ {B : Type 0} where
  -- `path.is_file()`, which follows a link
  abbrev pub is_file : Option (Entry B) → Bool
  is_file (some (Entry.regular f)) = true
  is_file (some (Entry.symlink (some f))) = true
  is_file _ = false

  -- `path.is_file() and not path.is_symlink()`
  abbrev pub is_regular : Option (Entry B) → Bool
  is_regular (some (Entry.regular f)) = true
  is_regular _ = false

  unfoldable pub store_contains : Store B → String → Result Bool
  store_contains s digest = do d ← path_for digest; ok (is_regular (lookup d s.objects))

  unfoldable pub open_path : Store B → String → Result String
  open_path s digest = do
    d ← path_for digest
    require (is_regular (lookup d s.objects)) store_error
    ok d

  -- Python's walk of the prefix directories yields the names in order.
  abbrev pub regular_names : Dict (Entry B) → List String
  regular_names [] = []
  regular_names ((k, e) ∷ d) =
      if is_regular (some e) && sha256_re k then k ∷ regular_names d else regular_names d

  unfoldable pub iter_digests : Store B → List String
  iter_digests s = sorted (regular_names s.objects)

  abbrev pub can_delete : Option (Entry B) → Bool
  can_delete (some (Entry.regular f)) = f.deletable
  can_delete _ = false

  -- The loop of `prune` over the digests that were listed: what was removed, or an error, and the
  -- store as it then is.
  unfoldable pub prune_each :
      List String → List String → List String → Store B → Result (List String) × Store B
  prune_each keep [] removed s = (ok removed, s)
  prune_each keep (d ∷ ds) removed s =
      let kept = prune_each keep ds removed s in
      let dropped =
        prune_each keep ds (removed ++ d ∷ []) (record s { objects = erase d s.objects }) in
      if contains keep d
      then kept
      else if can_delete (lookup d s.objects)
      then dropped
      else (err store_error, s)

  -- Empty prefix directories, which prune removes too, are not part of the state.
  unfoldable pub prune : List String → Store B → Result (List String) × Store B
  prune keep s =
      if all sha256_re keep then prune_each keep (iter_digests s) [] s else (err store_error, s)

module _ (K : Codec) where
  open K use {Bytes, sha256, size}

  -- `sha256_file`
  unfoldable pub file_digest : Entry Bytes → Result String
  file_digest (Entry.regular f) = if f.readable then ok (sha256 f.content) else err os_error
  file_digest (Entry.symlink (some f)) = if f.readable then ok (sha256 f.content) else err os_error
  file_digest _ = err os_error

  -- An error while hashing reads as false.
  abbrev pub hashes_to : String → Option (Entry Bytes) → Bool
  hashes_to digest (some (Entry.regular f)) = f.readable && sha256 f.content == digest
  hashes_to digest _ = false

  unfoldable pub verify : Store Bytes → String → Result Bool
  verify s digest = do d ← path_for digest; ok (hashes_to d (lookup d s.objects))

  abbrev pub is_directory : Option (Entry Bytes) → Bool
  is_directory (some Entry.directory) = true
  is_directory _ = false

  -- `staged` is what stands at the staged path. A failed call leaves the store as it was.
  abbrev pub admit : Store Bytes → Entry Bytes → String → Result (Store Bytes)
  admit s staged digest =
      if is_file (lookup digest s.objects)
      then ok s
      else if is_directory (lookup digest s.objects)
      then err os_error
      else ok (record s { objects = insert digest staged s.objects })

  unfoldable pub adopt : Store Bytes → Option (Entry Bytes) → String → Result (Store Bytes)
  adopt s (some (Entry.regular f)) digest = do
    d ← path_for digest
    actual ← file_digest (Entry.regular f)
    require (actual == d) store_error
    admit s (Entry.regular f) d
  adopt s _ digest = do d ← path_for digest; err store_error

  abbrev pub size_of : Option (Entry Bytes) → ℕ
  size_of (some (Entry.regular f)) = size f.content
  size_of _ = 0

  unfoldable pub total_bytes : Store Bytes → ℕ
  total_bytes s = sum_by (λ d. size_of (lookup d s.objects)) (iter_digests s)
