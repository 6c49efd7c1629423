-- ===== src/Service/Frontier/Laws.antt =====
-- The edges that are followed are edges that were given, and not more than the budget.
use lexicon_mcp.Prelude.{
  ℕ, ◌≤◌, Bool, not, List, [], ◌∷◌, ◌++◌, map, some, length, take, length-take-le, sum_by, filter,
  All, All-map, All-filter, All-append, All-take, All-snoc, ◌==◌, ◌≡◌, arith, Bool-cases, inl, inr,
}
use lexicon_mcp.Keys.{Key, key_eq, sorted_by}
use lexicon_mcp.Keys.Sorted.{sorted_by-All}
use lexicon_mcp.Service.Rows.{Row}
use lexicon_mcp.Service.Diverse.Keeps.{target_diverse-All}
use lexicon_mcp.Service.Weave.{add_to_bucket, fill_buckets, weave}
use lexicon_mcp.Service.Weave.Laws.{columns, weave_lem}
use lexicon_mcp.Service.Weave.Counts.{AllWithin-sum, columns-All}
use lexicon_mcp.Service.Rank.{bucket_key, bucket_rows}
use lexicon_mcp.Service.Frontier.{
  same_row, direction_first, frontier_key, scope_key, sort_bucket, is_corroborated, is_selected,
  diverse_rows, frontier_buckets, take_frontier, transitive_frontier_rows,
}

module _ {κ} (P : Row → Type κ) where
  abbrev Kept : Key × List Row → Type κ
  Kept b = All P b.1

  add_to_bucket-All :
      (k : Key) (r : Row) (bs : List (Key × List Row))
      → P r
      → All Kept bs
      → All Kept (add_to_bucket k r bs)
  unfolding add_to_bucket
  add_to_bucket-All k r [] p h = ((p, tt), tt)
  add_to_bucket-All k r ((j, b) ∷ bs) p h = elim (Bool-cases (j == k)) [
    | inl same ↦ rw (same, add_to_bucket) (All-snoc P b r h.0 p, h.1)
    | inr other ↦ rw (other, add_to_bucket) (h.0, add_to_bucket-All k r bs p h.1)
  ]

  fill_buckets-keeps :
      (key : Row → Key) (bs : List (Key × List Row)) (rs : List Row)
      → All Kept bs
      → All P rs
      → All Kept (fill_buckets key bs rs)
  unfolding fill_buckets
  fill_buckets-keeps key bs [] h k = h
  fill_buckets-keeps key bs (r ∷ rs) h k =
      fill_buckets-keeps key (add_to_bucket (key r) r bs) rs (add_to_bucket-All (key r) r bs k.0 h)
        k.1

  sort_bucket-keeps :
      (rows : List Row) (bs : List (Key × List Row))
      → All Kept bs
      → All Kept (map (sort_bucket rows) bs)
  sort_bucket-keeps rows [] h = tt
  sort_bucket-keeps rows (b ∷ bs) h =
      (sorted_by-All (frontier_key rows) P b.1 h.0, sort_bucket-keeps rows bs h.1)

  diverse_rows-All : (code : ℕ) (rows : List Row) → All P rows → All P (diverse_rows code rows)
  unfolding diverse_rows
  diverse_rows-All code rows h =
      target_diverse-All same_row P [] (sorted_by (direction_first code) rows)
        (sorted_by-All (direction_first code) P rows h)

  frontier_buckets-All : (rows : List Row) → All P rows → All (All P) (frontier_buckets rows)
  unfolding frontier_buckets
  frontier_buckets-All rows h = All-map (All P) bucket_rows _ (
      sorted_by-All bucket_key Kept (map (sort_bucket rows) (fill_buckets scope_key [] rows)) (
        sort_bucket-keeps rows (fill_buckets scope_key [] rows)
          (fill_buckets-keeps scope_key [] rows tt h)))

  filters-All :
      (p : Row → Bool) (bs : List (List Row)) → All (All P) bs → All (All P) (map (filter p) bs)
  filters-All p [] h = tt
  filters-All p (b ∷ bs) h = (All-filter P p b h.0, filters-All p bs h.1)

  -- A round: some rows of the buckets behind those that were there, up to the budget.
  weave-All :
      (budget : ℕ) (out : List Row) (bs : List (List Row))
      → length out ≤ budget
      → All P out
      → All (All P) bs
      → (taken : List Row) × (weave budget out bs ≡ some taken)
        × (length taken ≤ budget)
        × All P taken
  weave-All budget out bs within h k =
      let rows = columns (sum_by length bs) 0 bs in
      (
        take budget (out ++ rows),
        weave_lem budget (sum_by length bs) out bs within (AllWithin-sum bs),
        length-take-le budget (out ++ rows),
        All-take P budget (out ++ rows)
            (All-append P out rows h (columns-All P (sum_by length bs) 0 bs k)),
      )

  take_frontier-All :
      (budget : ℕ) (rows : List Row) (bs : List (List Row))
      → All (All P) bs
      → (taken : List Row) × (take_frontier budget rows bs ≡ some taken)
        × (length taken ≤ budget)
        × All P taken
  unfolding take_frontier
  take_frontier-All budget rows bs h =
      let (first, run, few, kept) =
        weave-All budget [] (map (filter (is_corroborated rows)) bs) (omega arith) tt
          (filters-All (is_corroborated rows) bs h) in
      let (taken, run', few', kept') =
        weave-All budget first (map (filter (λ r. not (is_selected first r))) bs) few kept
          (filters-All (λ r. not (is_selected first r)) bs h) in
      (taken, rw (run, take_frontier) run', few', kept')

  -- The selection ends; it takes some of the given edges, and not more than the budget.
  pub transitive_frontier_rows_lem :
      (code budget : ℕ) (rows : List Row)
      → All P rows
      → (taken : List Row) × (transitive_frontier_rows code budget rows ≡ some taken)
        × (length taken ≤ budget)
        × All P taken
  unfolding transitive_frontier_rows
  transitive_frontier_rows_lem code budget rows h =
      take_frontier-All budget (diverse_rows code rows) (frontier_buckets (diverse_rows code rows))
        (frontier_buckets-All (diverse_rows code rows) (diverse_rows-All code rows h))
