-- ===== src/Service/Weave/Buckets.antt =====
-- What `setdefault(key, []).append(row)` builds up: a bucket for each key, with the rows of that
-- key in their order.
use mathlib.Core.List.{append-nil, append_assoc}
use lexicon_mcp.Prelude.{
  ℕ, ◌+◌, true, false, List, [], ◌∷◌, ◌++◌, map, length, length-append, sum_by, filter, contains,
  IsDistinct, All, All-imp, Eq, ◌==◌, beq_refl, if◌then◌else◌, ◌≡◌, refl, ap, sym, ◌∙◌, arith,
  Bool-cases, inl, inr,
}
use lexicon_mcp.Service.Weave.{add_to_bucket, fill_buckets}

module _ {K : Type 0} ⦃e : Eq K⦄ where
  key_same : (j k : K) → ((j == k) ≡ true → j ≡ k) × (j ≡ k → (j == k) ≡ true)
  key_same j k = e.beq_iff j k

module _ {K : Type 0} ⦃e : Eq K⦄ {A : Type 0} where
  abbrev pub bucket_keys : List (K × List A) → List K
  bucket_keys = map (λ b. b.0)

  -- The rows under a key.
  abbrev pub bucket : K → List (K × List A) → List A
  bucket k [] = []
  bucket k ((j, b) ∷ bs) = if j == k then b else bucket k bs

  bucket-add_to_bucket :
      (k j : K) (r : A) (bs : List (K × List A))
      → bucket k (add_to_bucket j r bs) ≡ (if j == k then bucket k bs ++ r ∷ [] else bucket k bs)
  unfolding add_to_bucket
  bucket-add_to_bucket k j r [] = ground arith
  bucket-add_to_bucket k j r ((i, b) ∷ bs) =
      ground (arith, bucket-add_to_bucket k j r bs, key_same i j, key_same i k, key_same j k)

  contains-add_to_bucket :
      (k j : K) (r : A) (bs : List (K × List A))
      → contains (bucket_keys (add_to_bucket j r bs)) k
        ≡ (if j == k then true else contains (bucket_keys bs) k)
  unfolding add_to_bucket
  contains-add_to_bucket k j r [] = ground arith
  contains-add_to_bucket k j r ((i, b) ∷ bs) =
      ground (arith, contains-add_to_bucket k j r bs, key_same i j, key_same i k, key_same j k)

  add_to_bucket-IsDistinct :
      (j : K) (r : A) (bs : List (K × List A))
      → IsDistinct (bucket_keys bs)
      → IsDistinct (bucket_keys (add_to_bucket j r bs))
  unfolding add_to_bucket
  add_to_bucket-IsDistinct j r [] d = (refl, tt)
  add_to_bucket-IsDistinct j r ((i, b) ∷ bs) d = elim (Bool-cases (i == j)) [
    | inl same ↦ rw (same, add_to_bucket) d
    | inr other ↦
        rw (other, add_to_bucket)
          (
            contains-add_to_bucket i j r bs
                ∙ ground (arith, other, key_same i j, key_same j i, d.0),
            add_to_bucket-IsDistinct j r bs d.1,
          )
  ]

  -- How many rows the buckets hold.
  abbrev pub held : List (K × List A) → ℕ
  held = sum_by (λ b. length b.1)

  held-add_to_bucket :
      (j : K) (r : A) (bs : List (K × List A)) → held (add_to_bucket j r bs) ≡ held bs + 1
  unfolding add_to_bucket
  held-add_to_bucket j r [] = omega arith
  held-add_to_bucket j r ((i, b) ∷ bs) =
      ground (arith, held-add_to_bucket j r bs, length-append b (r ∷ []))

  -- Each bucket is the one that is found under its key.
  skipped :
      (k : K) (b : List A) (bs rest : List (K × List A))
      → contains (bucket_keys rest) k ≡ false
      → All (λ c. bucket c.0 bs ≡ c.1) rest
      → All (λ c. bucket c.0 ((k, b) ∷ bs) ≡ c.1) rest
  skipped k b bs [] h a = tt
  skipped k b bs ((j, c) ∷ rest) h a = (
    ground (arith, a.0, h, key_same j k, key_same k j),
    skipped k b bs rest (ground (arith, h)) a.1,
  )

  found : (bs : List (K × List A)) → IsDistinct (bucket_keys bs) → All (λ c. bucket c.0 bs ≡ c.1) bs
  found [] d = tt
  found ((k, b) ∷ bs) d = (rw (beq_refl k) refl, skipped k b bs bs d.0 (found bs d.1))

  module _ (key : A → K) where
    pub bucket-fill_buckets :
        (k : K) (bs : List (K × List A)) (rs : List A)
        → bucket k (fill_buckets key bs rs) ≡ bucket k bs ++ filter (λ r. key r == k) rs
    unfolding fill_buckets
    bucket-fill_buckets k bs [] = sym (append-nil (bucket k bs))
    bucket-fill_buckets k bs (r ∷ rs) =
        bucket-fill_buckets k (add_to_bucket (key r) r bs) rs
        ∙ ap (λ b. b ++ filter (λ r. key r == k) rs) (bucket-add_to_bucket k (key r) r bs)
        ∙ elim (Bool-cases (key r == k)) [
          | inl same ↦ rw same (append_assoc (bucket k bs) (r ∷ []) _)
          | inr other ↦ rw other refl
        ]

    pub contains-fill_buckets :
        (k : K) (bs : List (K × List A)) (rs : List A)
        → contains (bucket_keys (fill_buckets key bs rs)) k
          ≡ (if contains (bucket_keys bs) k then true else contains (map key rs) k)
    unfolding fill_buckets
    contains-fill_buckets k bs [] = ground arith
    contains-fill_buckets k bs (r ∷ rs) = ground (
      arith,
      contains-fill_buckets k (add_to_bucket (key r) r bs) rs,
      contains-add_to_bucket k (key r) r bs,
    )

    pub fill_buckets-IsDistinct :
        (bs : List (K × List A)) (rs : List A)
        → IsDistinct (bucket_keys bs)
        → IsDistinct (bucket_keys (fill_buckets key bs rs))
    unfolding fill_buckets
    fill_buckets-IsDistinct bs [] d = d
    fill_buckets-IsDistinct bs (r ∷ rs) d =
        fill_buckets-IsDistinct (add_to_bucket (key r) r bs) rs
          (add_to_bucket-IsDistinct (key r) r bs d)

    pub held-fill_buckets :
        (bs : List (K × List A)) (rs : List A) → held (fill_buckets key bs rs) ≡ held bs + length rs
    unfolding fill_buckets
    held-fill_buckets bs [] = omega arith
    held-fill_buckets bs (r ∷ rs) =
        omega (
          arith,
          held-fill_buckets (add_to_bucket (key r) r bs) rs,
          held-add_to_bucket (key r) r bs,
        )

    -- Each bucket holds the rows of its key, in their order.
    pub fill_buckets-All :
        (rs : List A) → All (λ b. b.1 ≡ filter (λ r. key r == b.0) rs) (fill_buckets key [] rs)
    fill_buckets-All rs =
        All-imp (λ b. bucket b.0 (fill_buckets key [] rs) ≡ b.1)
          (λ b. b.1 ≡ filter (λ r. key r == b.0) rs)
          (λ b same. sym same ∙ bucket-fill_buckets b.0 [] rs) (fill_buckets key [] rs)
          (found (fill_buckets key [] rs) (fill_buckets-IsDistinct [] rs tt))
