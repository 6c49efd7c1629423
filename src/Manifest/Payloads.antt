-- ===== src/Manifest/Payloads.antt =====
-- What the payload of a component is like: its parts, and its two sizes and digests.
use lexicon_mcp.Prelude.{
  ℕ, ◌+◌, true, ◌&&◌, ◌==◌, bool_eq, nat_eq, string_eq, list_eq, eq_iff, List, [], ◌∷◌, ◌++◌,
  contains, ok, manifest_error, if◌then◌else◌, ◌≡◌, refl, ap, sym, ◌∙◌, subst, OnOk, >>=-eq-ok,
  require-eq-ok, raise_if-eq-ok, arith,
}
use lexicon_mcp.Json.{Value, Fields, pos, int, get, has_key, as_object, as_nonempty, is_null}
use lexicon_mcp.Text.{sha256_re}
use lexicon_mcp.Manifest.{Part}
use lexicon_mcp.Manifest.Scalars.{string_value, size_value, sha256_value}
use lexicon_mcp.Manifest.Tags.{sha256_value-eq-ok}
use lexicon_mcp.Manifest.Components.{
  optional, path_value, http_value, parse_part, parse_parts, compressions, Payload, is_consistent,
  parse_payload,
}

-- Each part begins where the one before it has ended, the first at `start` and so on to `end`.
abbrev pub Contiguous : ℕ → List Part → ℕ → Type 0
Contiguous start [] end = start ≡ end
Contiguous start (p ∷ ps) end = (p.offset ≡ start) × Contiguous (start + p.size) ps end

Contiguous-snoc :
    (start end : ℕ) (ps : List Part) (p : Part)
    → Contiguous start ps end
    → p.offset ≡ end
    → Contiguous start (ps ++ p ∷ []) (end + p.size)
Contiguous-snoc start end [] p h k = (k ∙ sym h, ap (λ n. n + p.size) h)
Contiguous-snoc start end (q ∷ ps) p h k = (h.0, Contiguous-snoc (start + q.size) end ps p h.1 k)

parse_part-offset : (next : ℕ) (v : Value) (p : Part) → parse_part next v ≡ ok p → p.offset ≡ next
unfolding parse_part
parse_part-offset next v p h =
    let (part, _, h1) = >>=-eq-ok (as_object manifest_error v) _ h in
    let (_, h2) =
      raise_if-eq-ok (is_null (get "name" part) && is_null (get "url" part)) manifest_error _ h1 in
    let (_, _, h3) = >>=-eq-ok (optional path_value (get "name" part)) _ h2 in
    let (_, _, h4) = >>=-eq-ok (optional http_value (get "url" part)) _ h3 in
    let (_, _, h5) = >>=-eq-ok (size_value (get "size" part)) _ h4 in
    let (offset, _, h6) =
      >>=-eq-ok (size_value (if has_key "offset" part then get "offset" part else int (pos next))) _
        h5 in
    let (same, h7) = require-eq-ok (offset == next) manifest_error _ h6 in
    let (_, _, h8) = >>=-eq-ok (sha256_value (get "sha256" part)) _ h7 in
    subst (OnOk (λ (q : Part). q.offset ≡ next)) h8 (ground (arith, same))

parse_parts-Contiguous :
    (vs : List Value) (next end : ℕ) (acc out : List Part)
    → Contiguous 0 acc next
    → parse_parts vs next acc ≡ ok (out, end)
    → Contiguous 0 out end
unfolding parse_parts
parse_parts-Contiguous [] next end acc out k h =
    subst (OnOk (λ (q : List Part × ℕ). Contiguous 0 q.0 q.1)) h k
parse_parts-Contiguous (v ∷ vs) next end acc out k h =
    let (p, read, h1) = >>=-eq-ok (parse_part next v) _ h in
    parse_parts-Contiguous vs (next + p.size) end (acc ++ p ∷ []) out
      (Contiguous-snoc 0 next acc p k (parse_part-offset next v p read)) h1

pub record PayloadOk (p : Payload) : Type 0 where
  pub known : contains compressions p.compression ≡ true
  pub compressed_digest : sha256_re p.compressed_sha256 ≡ true
  pub final_digest : sha256_re p.final_sha256 ≡ true
  pub contiguous : Contiguous 0 p.parts p.compressed_size
  pub uncompressed :
      (p.compression == "none") ≡ true
      → (p.compressed_size ≡ p.final_size) × (p.compressed_sha256 ≡ p.final_sha256)

is_consistent_lem :
    (p : Payload)
    → is_consistent p ≡ true
    → (p.compression == "none") ≡ true
    → (p.compressed_size ≡ p.final_size) × (p.compressed_sha256 ≡ p.final_sha256)
is_consistent_lem p h plain = ground (arith, h, plain, eq_iff p.compressed_sha256 p.final_sha256)

pub parse_payload-PayloadOk :
    (item : Fields) (p : Payload) → parse_payload item ≡ ok p → PayloadOk p
unfolding parse_payload
parse_payload-PayloadOk item p h =
    let (compression, _, h1) = >>=-eq-ok (string_value (get "compression" item)) _ h in
    let (known, h2) = require-eq-ok (contains compressions compression) manifest_error _ h1 in
    let (compressed_size, _, h3) = >>=-eq-ok (size_value (get "compressed_size" item)) _ h2 in
    let (compressed_sha, digest, h4) =
      >>=-eq-ok (sha256_value (get "compressed_sha256" item)) _ h3 in
    let (final_size, _, h5) = >>=-eq-ok (size_value (get "final_size" item)) _ h4 in
    let (final_sha, final, h6) = >>=-eq-ok (sha256_value (get "final_sha256" item)) _ h5 in
    let (raw_parts, _, h7) = >>=-eq-ok (as_nonempty manifest_error (get "parts" item)) _ h6 in
    let (parts, split, h8) = >>=-eq-ok (parse_parts raw_parts 0 []) _ h7 in
    let (filled, h9) = require-eq-ok (parts.1 == compressed_size) manifest_error _ h8 in
    let q : Payload = record {
      compression = compression;
      compressed_size = compressed_size;
      compressed_sha256 = compressed_sha;
      final_size = final_size;
      final_sha256 = final_sha;
      parts = parts.0;
    } in
    let (consistent, h10) = require-eq-ok (is_consistent q) manifest_error _ h9 in
    subst (OnOk PayloadOk) h10 (record {
      known = known;
      compressed_digest = sha256_value-eq-ok (get "compressed_sha256" item) compressed_sha digest;
      final_digest = sha256_value-eq-ok (get "final_sha256" item) final_sha final;
      contiguous =
          subst (Contiguous 0 parts.0) (ground (arith, filled))
            (parse_parts-Contiguous raw_parts 0 parts.1 [] parts.0 refl split);
      uncompressed = is_consistent_lem q consistent;
    })
