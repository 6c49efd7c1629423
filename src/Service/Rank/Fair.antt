-- ===== src/Service/Rank/Fair.antt =====
-- What `_rank_oriented_relation_rows` returns: the buckets, and the rows in turn from each of them.
use mathlib.Core.List.{Perm}
use lexicon_mcp.Prelude.{
  ℕ, min, List, [], ◌∷◌, map, some, length, take, length-take, sum_by, filter, contains,
  contains-sorted, IsDistinct, sorted, sorted-IsDistinct, IsSorted, All, All-imp, All-map, ◌==◌,
  ◌≡◌, refl, ap, sym, subst, ◌∙◌, arith,
}
use lexicon_mcp.Keys.{Key, key_eq, key_ord, sorted_by}
use lexicon_mcp.Keys.Sorted.{
  map-sorted_by, sorted_by-IsSorted, sorted_by-perm, sorted_by-All, sum_by-sorted_by,
  length-sorted_by,
}
use lexicon_mcp.Service.Rows.{Row, relation_row_rank_key}
use lexicon_mcp.Service.Weave.{fill_buckets}
use lexicon_mcp.Service.Weave.Laws.{columns, weave_lem, AllWithin}
use lexicon_mcp.Service.Weave.Counts.{length-columns_all, AllWithin-sum}
use lexicon_mcp.Service.Weave.Buckets.{
  fill_buckets-All, contains-fill_buckets, fill_buckets-IsDistinct, held, held-fill_buckets,
}
use lexicon_mcp.Service.Rank.{
  orientation_key, rank_bucket, bucket_key, bucket_rows, ranked_buckets,
  rank_oriented_relation_rows,
}

-- The rows of a key, best first.
abbrev pub IsRanked : List Row → Key × List Row → Type 0
IsRanked oriented b =
    IsSorted (map relation_row_rank_key b.1)
    × Perm b.1 (filter (λ r. orientation_key r == b.0) oriented)

-- A bucket for each key among the rows, in the order of the keys.
pub record Buckets (oriented : List Row) (bs : List (Key × List Row)) : Type 0 where
  pub ascending : IsSorted (map bucket_key bs)
  pub distinct_keys : IsDistinct (map bucket_key bs)
  pub complete :
      (k : Key) → contains (map bucket_key bs) k ≡ contains (map orientation_key oriented) k
  pub ranked : All (IsRanked oriented) bs

filled : List Row → List (Key × List Row)
filled oriented = fill_buckets orientation_key [] oriented

keys_same : (bs : List (Key × List Row)) → map bucket_key (map rank_bucket bs) ≡ map bucket_key bs
keys_same [] = refl
keys_same (b ∷ bs) = ap (◌∷◌ b.0) (keys_same bs)

keys-ranked_buckets :
    (oriented : List Row)
    → map bucket_key (ranked_buckets oriented) ≡ sorted (map bucket_key (filled oriented))
unfolding ranked_buckets filled
keys-ranked_buckets oriented =
    map-sorted_by bucket_key (map rank_bucket (filled oriented))
    ∙ ap sorted (keys_same (filled oriented))

filled-IsDistinct : (oriented : List Row) → IsDistinct (map bucket_key (filled oriented))
unfolding filled
filled-IsDistinct oriented = fill_buckets-IsDistinct orientation_key [] oriented tt

ranked_buckets-Buckets : (oriented : List Row) → Buckets oriented (ranked_buckets oriented)
unfolding ranked_buckets filled
ranked_buckets-Buckets oriented = record {
  ascending = sorted_by-IsSorted bucket_key (map rank_bucket (filled oriented));
  distinct_keys =
      subst IsDistinct (sym (keys-ranked_buckets oriented))
        (sorted-IsDistinct _ (filled-IsDistinct oriented));
  complete = λ k.
      ap (λ ks. contains ks k) (keys-ranked_buckets oriented)
      ∙ contains-sorted k (map bucket_key (filled oriented))
      ∙ contains-fill_buckets orientation_key k [] oriented;
  ranked = sorted_by-All bucket_key (IsRanked oriented) (map rank_bucket (filled oriented)) (
      All-map (IsRanked oriented) rank_bucket (filled oriented) (
        All-imp (λ b. b.1 ≡ filter (λ r. orientation_key r == b.0) oriented)
          (λ b. IsRanked oriented (rank_bucket b))
          (λ b e. (
            sorted_by-IsSorted relation_row_rank_key b.1,
            subst (Perm (sorted_by relation_row_rank_key b.1)) e
                (sorted_by-perm relation_row_rank_key b.1),
          ))
          (filled oriented) (fill_buckets-All orientation_key oriented)));
}

sum-bucket_rows : (bs : List (Key × List Row)) → sum_by length (map bucket_rows bs) ≡ held bs
sum-bucket_rows [] = refl
sum-bucket_rows (b ∷ bs) = omega (arith, sum-bucket_rows bs)

held-rank_bucket : (bs : List (Key × List Row)) → held (map rank_bucket bs) ≡ held bs
held-rank_bucket [] = refl
held-rank_bucket (b ∷ bs) =
    omega (arith, held-rank_bucket bs, length-sorted_by relation_row_rank_key b.1)

sum-ranked_buckets :
    (oriented : List Row)
    → sum_by length (map bucket_rows (ranked_buckets oriented)) ≡ length oriented
unfolding ranked_buckets filled
sum-ranked_buckets oriented =
    sum-bucket_rows (ranked_buckets oriented)
    ∙ sum_by-sorted_by bucket_key (λ b. length b.1) (map rank_bucket (filled oriented))
    ∙ held-rank_bucket (filled oriented)
    ∙ omega (arith, held-fill_buckets orientation_key [] oriented)

-- The ranking returns as many rows as the limit allows, or all. They come in turn from the buckets
-- of the rows of one source and orientation, in the order of those keys, and from each the best
-- first: all the best ones, then all the second ones, and so on.
pub rank_oriented_relation_rows_lem :
    (limit : ℕ) (oriented : List Row)
    → (bs : List (Key × List Row)) × (ranked : List Row) × (rank_oriented_relation_rows limit
          oriented
        ≡ some ranked)
      × Buckets oriented bs
      × (ranked ≡ take limit (columns (length oriented) 0 (map bucket_rows bs)))
      × (length ranked ≡ min limit (length oriented))
unfolding rank_oriented_relation_rows
rank_oriented_relation_rows_lem limit oriented =
    let bs = ranked_buckets oriented in
    let rows = columns (length oriented) 0 (map bucket_rows bs) in
    let within : AllWithin (length oriented) (map bucket_rows bs) =
      subst (λ n. AllWithin n (map bucket_rows bs)) (sum-ranked_buckets oriented)
        (AllWithin-sum (map bucket_rows bs)) in
    (
      bs,
      take limit rows,
      weave_lem limit (length oriented) [] (map bucket_rows bs) (omega arith) within,
      ranked_buckets-Buckets oriented,
      refl,
      length-take limit rows
          ∙ ap (min limit) (
              length-columns_all (length oriented) (map bucket_rows bs) within
              ∙ sum-ranked_buckets oriented),
    )
