-- ===== src/Store/Adopt.antt =====
-- What `ComponentStore.adopt` admits, and what it leaves in place.
use lexicon_mcp.Prelude.{
  String, true, false, Option, none, some, ◌≡◌, refl, ap, ◌==◌, string_eq, lookup, insert,
  lookup-insert, ok, eq_iff, arith, beq_refl, subst, ◌∙◌,
}
use lexicon_mcp.Text.{sha256_re}
use lexicon_mcp.Codec.{Codec}
use lexicon_mcp.Store.{
  File, Entry, Store, regular, symlink, directory, is_file, path_for, file_digest, verify, admit,
  adopt,
}

module _ (K : Codec) where
  open K use {Bytes, sha256}

  -- Every regular file stands under its own digest.
  pub record IsIntact (s : Store Bytes) : Type 0 where
    pub at :
        (d : String) (f : File Bytes) → lookup d s.objects ≡ some (regular f) → sha256 f.content ≡ d

  -- What a successful call has checked.
  pub record Adopted (s : Store Bytes) (staged : Option (Entry Bytes)) (d : String)
      (t : Store Bytes) : Type 0 where
    pub file : File Bytes
    pub given : staged ≡ some (regular file)
    pub valid : sha256_re d ≡ true
    pub readable : file.readable ≡ true
    pub hashed : sha256 file.content ≡ d
    pub admitted : admit K s (regular file) d ≡ ok t

  -- Nothing enters the store but a readable regular file that hashes to the digest.
  pub adopt-Adopted :
      (s : Store Bytes) (staged : Option (Entry Bytes)) (d : String) (t : Store Bytes)
      → adopt K s staged d ≡ ok t
      → Adopted s staged d t
  unfolding adopt path_for file_digest
  adopt-Adopted s none d t h = absurd (ground arith)
  adopt-Adopted s (some (symlink f)) d t h = absurd (ground arith)
  adopt-Adopted s (some directory) d t h = absurd (ground arith)
  adopt-Adopted s (some (regular f)) d t h = record {
    file = f;
    given = refl;
    valid = ground arith;
    readable = ground arith;
    hashed = ground (arith, eq_iff (sha256 f.content) d);
    admitted = ground (arith, eq_iff (sha256 f.content) d);
  }

  -- A component that was not there is there afterwards and verifies; no other entry changes.
  pub adopt_new :
      (s : Store Bytes) (staged : Option (Entry Bytes)) (d : String) (t : Store Bytes)
      → is_file (lookup d s.objects) ≡ false
      → adopt K s staged d ≡ ok t
      → (verify K t d ≡ ok true)
        × ((j : String) → (d == j) ≡ false → lookup j t.objects ≡ lookup j s.objects)
  unfolding verify path_for
  adopt_new s staged d t absent h =
      let a = adopt-Adopted s staged d t h in
      let e : record s { objects = insert d (regular a.file) s.objects } ≡ t =
        ground (arith, a.admitted) in
      subst
        (λ u.
          (verify K u d ≡ ok true)
          × ((j : String) → (d == j) ≡ false → lookup j u.objects ≡ lookup j s.objects))
        e
        (
          ground (
            arith,
            lookup-insert d d (regular a.file) s.objects,
            eq_iff (sha256 a.file.content) d,
            a.valid,
            a.hashed,
            a.readable,
            beq_refl d,
          ),
          λ j other. lookup-insert d j (regular a.file) s.objects ∙ rw other,
        )

  -- A file that stands in the store stays as it is, whatever it holds.
  pub adopt-file :
      (s : Store Bytes) (staged : Option (Entry Bytes)) (d j : String) (t : Store Bytes)
      → is_file (lookup j s.objects) ≡ true
      → adopt K s staged d ≡ ok t
      → lookup j t.objects ≡ lookup j s.objects
  adopt-file s staged d j t present h =
      let a = adopt-Adopted s staged d t h in
      ground (
        arith,
        a.admitted,
        present,
        lookup-insert d j (regular a.file) s.objects,
        eq_iff d j,
        ap (λ k. is_file (lookup k s.objects)),
      )

  -- Adoption keeps every regular file under its own digest.
  pub adopt-IsIntact :
      (s : Store Bytes) (staged : Option (Entry Bytes)) (d : String) (t : Store Bytes)
      → IsIntact s
      → adopt K s staged d ≡ ok t
      → IsIntact t
  adopt-IsIntact s staged d t intact h =
      let a = adopt-Adopted s staged d t h in
      record {
        at = λ j f found. ground (
          arith,
          a.admitted,
          a.hashed,
          intact.at j f,
          lookup-insert d j (regular a.file) s.objects,
          eq_iff d j,
        );
      }
