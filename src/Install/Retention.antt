-- ===== src/Install/Retention.antt =====
-- Pruning, forgetting and activating: what they keep of the selections that are recorded.
use lexicon_mcp.Prelude.{
  ℕ, String, Bool, true, false, List, [], ◌∷◌, ◌++◌, map, none, ◌≡◌, refl, ap, sym, ◌∙◌, subst,
  lookup, length, Result, ok, err, lock_busy, arith, string_eq, beq_refl, contains, append_all_new,
  contains-append_all_new, if◌then◌else◌,
}
use lexicon_mcp.Codec.{Codec}
use lexicon_mcp.Activation.{ActivationComponent, Activation, digests}
use lexicon_mcp.Store.{Store, path_for, store_contains, verify, prune, iter_digests}
use lexicon_mcp.Store.Prune.{prune_kept, prune_removed, unreferenced}
use lexicon_mcp.Install.{Root, activations, verify_components}
use lexicon_mcp.Install.Write.{all_digests, prune_store, prune_root}
use lexicon_mcp.Install.Exec.{Exec, continue, pure, ◌>>=◌, continue-eq-ok, unlocked}
use lexicon_mcp.Install.Atomic.{SameActive}

module _ (K : Codec) where
  open K use {Bytes}

  store_contains_frame :
      (s t : Store Bytes) (d : String)
      → lookup d t.objects ≡ lookup d s.objects
      → store_contains t d ≡ store_contains s d
  unfolding store_contains path_for
  store_contains_frame s t d h = ground (arith, h)

  verify_frame :
      (s t : Store Bytes) (d : String)
      → lookup d t.objects ≡ lookup d s.objects
      → verify K t d ≡ verify K s d
  unfolding verify path_for
  verify_frame s t d h = ground (arith, h)

  verify_components_frame :
      (s t : Store Bytes) (cs : List ActivationComponent)
      → ((d : String)
          → contains (map (λ c. c.sha256) cs) d ≡ true
          → lookup d t.objects ≡ lookup d s.objects)
      → verify_components K t cs ≡ verify_components K s cs
  unfolding verify_components
  verify_components_frame s t [] h = refl
  verify_components_frame s t (c ∷ cs) h =
      let here = h c.sha256 (rw (beq_refl c.sha256) refl) in
      let rest = verify_components_frame s t cs (λ d k. h d (ground (arith, k))) in
      rw (store_contains_frame s t c.sha256 here, verify_frame s t c.sha256 here, rest)

  all_digests-keep :
      (all : List Activation) (keep : List String) (d : String)
      → contains keep d ≡ true
      → contains (all_digests all keep) d ≡ true
  all_digests-keep [] keep d h = h
  all_digests-keep (a ∷ all) keep d h =
      all_digests-keep all (append_all_new keep (digests a)) d
        (contains-append_all_new (digests a) keep d ∙ rw h)

  all_digests-contains :
      (before after : List Activation) (a : Activation) (keep : List String) (d : String)
      → contains (map (λ c. c.sha256) a.components) d ≡ true
      → contains (all_digests (before ++ a ∷ after) keep) d ≡ true
  unfolding digests
  all_digests-contains [] after a keep d h =
      all_digests-keep after (append_all_new keep (digests a)) d (
        contains-append_all_new (digests a) keep d
        ∙ ground (arith, contains-append_all_new (map (λ c. c.sha256) a.components) [] d))
  all_digests-contains (b ∷ before) after a keep d h =
      all_digests-contains before after a (append_all_new keep (digests b)) d h

  -- A block under the lock keeps what holds of the state, if its body does.
  with_lock_keeps :
      {A : Type 0} (P : Root Bytes → Type 0) (busy : Bool) (r : Root Bytes)
      (body : Result A × Root Bytes)
      → P r
      → P body.1
      → P (if busy then (err lock_busy, r) else body).1
  with_lock_keeps P true r body h k = h
  with_lock_keeps P false r body h k = k

  continue-pure_state :
      {A B : Type 0} (x : Result A) (f : A → B) (r : Root Bytes)
      → (continue x (λ a. pure (f a)) r).1 ≡ r
  continue-pure_state (ok a) f r = refl
  continue-pure_state (err e) f r = refl

  prune_root_keeps :
      (P : Root Bytes → Type 0) (r : Root Bytes) (all : List Activation)
      → activations K r ≡ ok all
      → P r
      → P (record r { store = (prune (all_digests all []) r.store).1 })
      → P (prune_root K r).1
  unfolding prune_root
  prune_root_keeps P r all h k l =
      let keep = all_digests all [] in
      let (out, s) = prune keep r.store in
      let rest : List Activation → Exec (Root Bytes) (List String × ℕ) = λ l.
        prune_store K (all_digests l []) >>= λ removed. pure (removed, length (all_digests l [])) in
      with_lock_keeps P r.locked r _ k (
        subst (λ x. P (continue x rest r).1) (sym h)
          (subst P
            (sym (
              continue-pure_state {B = List String × ℕ} out (λ o. (o, length keep))
                (record r { store = s })))
            l))

  -- Whether pruning succeeds or fails, where the records can be listed the pointer and the records
  -- stay, and for every record that is listed a verification of its components says what it said.
  pub prune_root_safe :
      (r : Root Bytes) (before after : List Activation) (a : Activation)
      → activations K r ≡ ok (before ++ a ∷ after)
      → SameActive r (prune_root K r).1
        × (verify_components K (prune_root K r).1.store a.components
            ≡ verify_components K r.store a.components)
  prune_root_safe r before after a h =
      let keep = all_digests (before ++ a ∷ after) [] in
      prune_root_keeps
        (λ t.
          SameActive r t
          × (verify_components K t.store a.components ≡ verify_components K r.store a.components))
        r (before ++ a ∷ after) h (record { pointer = refl; records = refl }, refl)
        (
          record { pointer = refl; records = refl },
          verify_components_frame r.store (prune keep r.store).1 a.components
              (λ d k. prune_kept keep r.store d (all_digests-contains before after a [] d k)),
        )

  -- A successful pruning reports, in order, the stored digests that no record names, and how many
  -- the records name; they are gone, and every other entry is as it was.
  pub prune_root_removes :
      (r t : Root Bytes) (removed : List String) (kept : ℕ)
      → prune_root K r ≡ (ok (removed, kept), t)
      → (all : List Activation) × (activations K r ≡ ok all)
        × (removed ≡ unreferenced (all_digests all []) (iter_digests r.store))
        × (kept ≡ length (all_digests all []))
        × ((j : String)
            → lookup j t.store.objects
              ≡ (if contains removed j then none else lookup j r.store.objects))
  unfolding prune_root
  prune_root_removes r t removed kept h =
      let (all, listed, h1) = continue-eq-ok (activations K r) _ r (unlocked r.locked r t _ h) in
      let keep = all_digests all [] in
      let (out, pruned, h2) = continue-eq-ok (prune keep r.store).0 _ _ h1 in
      let (gone, rest) = prune_removed keep out r.store pruned in
      let reported : out ≡ removed = ground (arith, h2) in
      (
        all,
        listed,
        sym reported ∙ gone,
        ground (arith, h2),
        λ j.
            ap (λ q. lookup j q.1.store.objects) (sym h2)
            ∙ rest j
            ∙ ap (λ l. if contains l j then none else lookup j r.store.objects) reported,
      )
