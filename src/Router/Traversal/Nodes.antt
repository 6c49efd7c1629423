-- ===== src/Router/Traversal/Nodes.antt =====
-- The members of buckets: grouping by a key, keeping some of the keys and ordering the buckets
-- loses none of the items under those keys.
use mathlib.Core.List.{append_assoc, Perm, perm_middle, perm_append_comm}
use mathlib.Core.List.Perm
use lexicon_mcp.Prelude.{
  Bool, true, false, List, [], ◌∷◌, ◌++◌, filter, Eq, ◌==◌, ◌≡◌, ap, sym, subst, Bool-cases, inl,
  inr, if◌then◌else◌,
}
use lexicon_mcp.Keys.{Key, key_le, insert_by, sorted_by}
use lexicon_mcp.Service.Weave.{add_to_bucket, fill_buckets}

pub swap_parts : {A : Type 0} (xs ys zs : List A) → Perm (xs ++ (ys ++ zs)) (ys ++ (xs ++ zs))
swap_parts xs ys zs =
    subst (λ l. Perm l (ys ++ (xs ++ zs))) (append_assoc xs ys zs)
      (subst (Perm ((xs ++ ys) ++ zs)) (append_assoc ys xs zs)
        (Perm.append_right zs (perm_append_comm xs ys)))

module _ {K : Type 0} {A : Type 0} (p : K → Bool) where
  abbrev pub part : K × List A → List A
  part b = if p b.0 then b.1 else []

  -- The members of the buckets whose key passes.
  abbrev pub kept : List (K × List A) → List A
  kept [] = []
  kept (b ∷ bs) = part b ++ kept bs

  kept-insert_by :
      (key : K × List A → Key) (b : K × List A) (bs : List (K × List A))
      → Perm (kept (insert_by key b bs)) (part b ++ kept bs)
  unfolding insert_by
  kept-insert_by key b [] = Perm.rfl
  kept-insert_by key b (c ∷ bs) = elim (Bool-cases (key_le (key b) (key c))) [
    | inl below ↦ rw below Perm.rfl
    | inr above ↦ rw above (
        Perm.trans (Perm.append_left (part c) (kept-insert_by key b bs))
          (swap_parts (part c) (part b) (kept bs)))
  ]

  pub kept-sorted_by :
      (key : K × List A → Key) (bs : List (K × List A)) → Perm (kept (sorted_by key bs)) (kept bs)
  unfolding sorted_by
  kept-sorted_by key [] = Perm.rfl
  kept-sorted_by key (b ∷ bs) =
      Perm.trans (kept-insert_by key b (sorted_by key bs))
        (Perm.append_left (part b) (kept-sorted_by key bs))

add_here :
    {A : Type 0} (old new : Bool)
    → old ≡ new
    → (b : List A) (r : A) (l : List A)
    → Perm
        ((if old then b ++ r ∷ [] else []) ++ l)
        ((if new then r ∷ [] else []) ++ ((if old then b else []) ++ l))
add_here true true same b r l =
    subst (λ m. Perm m (r ∷ (b ++ l))) (sym (append_assoc b (r ∷ []) l)) (perm_middle b l)
add_here false false same b r l = Perm.rfl
add_here true false same b r l = cc
add_here false true same b r l = cc

module _ {K : Type 0} ⦃e : Eq K⦄ {A : Type 0} (p : K → Bool) where
  kept-add_to_bucket :
      (k : K) (r : A) (bs : List (K × List A))
      → Perm (kept p (add_to_bucket k r bs)) ((if p k then r ∷ [] else []) ++ kept p bs)
  unfolding add_to_bucket
  kept-add_to_bucket k r [] = Perm.rfl
  kept-add_to_bucket k r ((j, b) ∷ bs) = elim (Bool-cases (j == k)) [
    | inl same ↦
        rw (same, add_to_bucket)
          (add_here (p j) (p k) (ap p ((e.beq_iff j k).0 same)) b r (kept p bs))
    | inr other ↦
        rw (other, add_to_bucket)
          (Perm.trans (Perm.append_left (part p (j, b)) (kept-add_to_bucket k r bs))
            (swap_parts (part p (j, b)) (if p k then r ∷ [] else []) (kept p bs)))
  ]

  pub kept-fill_buckets :
      (key : A → K) (bs : List (K × List A)) (rs : List A)
      → Perm (kept p (fill_buckets key bs rs)) (filter (λ r. p (key r)) rs ++ kept p bs)
  unfolding fill_buckets
  kept-fill_buckets key bs [] = Perm.rfl
  kept-fill_buckets key bs (r ∷ rs) =
      let chosen = if p (key r) then r ∷ [] else [] in
      let later = filter (λ x. p (key x)) rs in
      let step : Perm (kept p (fill_buckets key bs (r ∷ rs))) (chosen ++ (later ++ kept p bs)) =
        Perm.trans (kept-fill_buckets key (add_to_bucket (key r) r bs) rs) (
          Perm.trans (Perm.append_left later (kept-add_to_bucket (key r) r bs))
            (swap_parts later chosen (kept p bs))) in
      elim (Bool-cases (p (key r))) [
        | inl passes ↦ rw passes (rw passes at step)
        | inr fails ↦ rw fails (rw fails at step)
      ]
