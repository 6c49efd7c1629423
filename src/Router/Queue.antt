-- ===== src/Router/Queue.antt =====
-- The queue of open connections: what closing the oldest and moving one to the end keep.
use lexicon_mcp.Prelude.{
  ℕ, suc, ◌≤◌, String, true, false, List, [], ◌∷◌, ◌++◌, none, some, ◌==◌, string_eq, nat_eq,
  eq_iff, ltb, length, length-append, Dict, keys, lookup, erase, contains, contains-append,
  beq_refl, IsDistinct, IsDistinct-snoc, if◌then◌else◌, ◌≡◌, refl, ap, sym, ◌∙◌, subst, arith,
  Bool-cases, inl, inr,
}
use mathlib.Core.List.{append_assoc}
use lexicon_mcp.Router.{Connections, evict, move_to_end}

abbrev pub handles_of : Dict ℕ → List ℕ
handles_of [] = []
handles_of ((k, h) ∷ os) = h ∷ handles_of os

pub handles_of-append : (os ps : Dict ℕ) → handles_of (os ++ ps) ≡ handles_of os ++ handles_of ps
handles_of-append [] ps = refl
handles_of-append ((k, h) ∷ os) ps = ap (◌∷◌ h) (handles_of-append os ps)

pub keys-append : (os ps : Dict ℕ) → keys (os ++ ps) ≡ keys os ++ keys ps
keys-append [] ps = refl
keys-append ((k, h) ∷ os) ps = ap (◌∷◌ k) (keys-append os ps)

pub evict_fits : (n : ℕ) (os : Dict ℕ) (cl : List ℕ) → length os ≤ n → evict n os cl ≡ (os, cl)
unfolding evict
evict_fits n [] cl l = refl
evict_fits n ((k, h) ∷ os) cl l = ground (arith, l)

pub evict_bounded : (n : ℕ) (os : Dict ℕ) (cl : List ℕ) → length (evict n os cl).0 ≤ n
unfolding evict
evict_bounded n [] cl = omega arith
evict_bounded n ((k, h) ∷ os) cl = ground (arith, evict_bounded n os (cl ++ h ∷ []))

-- What is closed and what is open are together what they were, in their order.
pub evict_all :
    (n : ℕ) (os : Dict ℕ) (cl : List ℕ)
    → (evict n os cl).1 ++ handles_of (evict n os cl).0 ≡ cl ++ handles_of os
unfolding evict
evict_all n [] cl = refl
evict_all n ((k, h) ∷ os) cl = elim (Bool-cases (ltb n (suc (length os)))) [
  | inl over ↦ rw over (evict_all n os (cl ++ h ∷ []) ∙ append_assoc cl (h ∷ []) (handles_of os))
  | inr fits ↦ rw fits refl
]

pub evict-keys :
    (n : ℕ) (os : Dict ℕ) (cl : List ℕ) → IsDistinct (keys os) → IsDistinct (keys (evict n os cl).0)
unfolding evict
evict-keys n [] cl d = tt
evict-keys n ((k, h) ∷ os) cl d = elim (Bool-cases (ltb n (suc (length os)))) [
  | inl over ↦ rw over (evict-keys n os (cl ++ h ∷ []) d.1)
  | inr fits ↦ rw fits d
]

pub lookup-snoc :
    (os : Dict ℕ) (k : String) (h : ℕ) → lookup k os ≡ none → lookup k (os ++ (k, h) ∷ []) ≡ some h
lookup-snoc [] k h e = ground (arith, beq_refl k)
lookup-snoc ((j, g) ∷ os) k h e = ground (arith, lookup-snoc os k h, e)

-- The newest connection stays.
pub evict_last :
    (n : ℕ) (os : Dict ℕ) (cl : List ℕ) (k : String) (h : ℕ)
    → 1 ≤ n
    → lookup k os ≡ none
    → lookup k (evict n (os ++ (k, h) ∷ []) cl).0 ≡ some h
unfolding evict
evict_last n [] cl k h l e = ground (arith, l, beq_refl k)
evict_last n ((j, g) ∷ os) cl k h l e =
    ground (arith, evict_last n os (cl ++ g ∷ []) k h l, lookup-snoc os k h, eq_iff j k)

-- What the router maintains: at most `limit` connections are open, each of a pack of its own, and
-- none of them is closed; each number was given once.
pub record IsSound (limit : ℕ) (s : Connections) : Type 0 where
  pub bounded : length s.opened ≤ limit
  pub packs_once : IsDistinct (keys s.opened)
  pub handles_once : IsDistinct (s.closed ++ handles_of s.opened)
  pub handles_made :
      (h : ℕ) → contains (s.closed ++ handles_of s.opened) h ≡ true → ltb h s.made ≡ true

pub contains-keys-none :
    (os : Dict ℕ) (k : String) → lookup k os ≡ none → contains (keys os) k ≡ false
contains-keys-none [] k e = refl
contains-keys-none ((j, h) ∷ os) k e = ground (arith, e, contains-keys-none os k)

pub contains-handles :
    (os : Dict ℕ) (k : String) (h : ℕ) → lookup k os ≡ some h → contains (handles_of os) h ≡ true
contains-handles [] k h e = cc
contains-handles ((j, g) ∷ os) k h e = ground (arith, e, contains-handles os k h, beq_refl h)

pub length-erase-le : (os : Dict ℕ) (k : String) → length (erase k os) ≤ length os
unfolding erase
length-erase-le [] k = omega arith
length-erase-le ((j, g) ∷ os) k = ground (arith, length-erase-le os k)

length-erase :
    (os : Dict ℕ) (k : String) (h : ℕ)
    → lookup k os ≡ some h
    → suc (length (erase k os)) ≤ length os
unfolding erase
length-erase [] k h e = absurd (ground (arith, e))
length-erase ((j, g) ∷ os) k h e = ground (arith, e, length-erase os k h, length-erase-le os k)

contains-keys-erase :
    (os : Dict ℕ) (k j : String)
    → contains (keys (erase k os)) j ≡ (if k == j then false else contains (keys os) j)
unfolding erase
contains-keys-erase [] k j = ground arith
contains-keys-erase ((i, g) ∷ os) k j =
    ground (arith, contains-keys-erase os k j, eq_iff i k, eq_iff i j, eq_iff k j)

erase-keys_once : (os : Dict ℕ) (k : String) → IsDistinct (keys os) → IsDistinct (keys (erase k os))
unfolding erase
erase-keys_once [] k d = tt
erase-keys_once ((j, g) ∷ os) k d = elim (Bool-cases (j == k)) [
  | inl same ↦ rw same (erase-keys_once os k d.1)
  | inr other ↦
      rw other ((contains-keys-erase os k j ∙ ground (arith, d.0)), erase-keys_once os k d.1)
]

-- A key that is not there has nothing to erase.
pub erase_absent : (os : Dict ℕ) (k : String) → contains (keys os) k ≡ false → erase k os ≡ os
unfolding erase
erase_absent [] k h = refl
erase_absent ((j, g) ∷ os) k h = ground (arith, h, erase_absent os k)

-- The same connections are open after the move.
contains-moved :
    (os : Dict ℕ) (k : String) (h x : ℕ)
    → IsDistinct (keys os)
    → lookup k os ≡ some h
    → contains (handles_of (erase k os) ++ h ∷ []) x ≡ contains (handles_of os) x
unfolding erase
contains-moved [] k h x d e = absurd (ground (arith, e))
contains-moved ((j, g) ∷ os) k h x d e = elim (Bool-cases (j == k)) [
  | inl same ↦
      let gone : erase k os ≡ os =
        erase_absent os k (ap (contains (keys os)) (sym ((eq_iff j k).0 same)) ∙ d.0) in
      rw same (
        ap (λ l. contains (handles_of l ++ h ∷ []) x) gone
        ∙ contains-append (handles_of os) (h ∷ []) x
        ∙ ground (arith, e, same))
  | inr other ↦ rw other (ground (arith, contains-moved os k h x d.1, e, other))
]

moved-handles_once :
    (os : Dict ℕ) (k : String) (h : ℕ)
    → IsDistinct (keys os)
    → IsDistinct (handles_of os)
    → lookup k os ≡ some h
    → IsDistinct (handles_of (erase k os) ++ h ∷ [])
unfolding erase
moved-handles_once [] k h d n e = absurd (ground (arith, e))
moved-handles_once ((j, g) ∷ os) k h d n e = elim (Bool-cases (j == k)) [
  | inl same ↦
      let gone : erase k os ≡ os =
        erase_absent os k (ap (contains (keys os)) (sym ((eq_iff j k).0 same)) ∙ d.0) in
      let at : g ≡ h = ground (arith, e, same) in
      rw same (
        subst (λ l. IsDistinct (handles_of l ++ h ∷ [])) (sym gone)
          (IsDistinct-snoc (handles_of os) h n.1 (ap (contains (handles_of os)) (sym at) ∙ n.0)))
  | inr other ↦
      let there : lookup k os ≡ some h = ground (arith, e, other) in
      rw other (contains-moved os k h g d.1 there ∙ n.0, moved-handles_once os k h d.1 n.1 there)
]

prefixed_once :
    (cl xs ys : List ℕ)
    → ((x : ℕ) → contains ys x ≡ contains xs x)
    → IsDistinct ys
    → IsDistinct (cl ++ xs)
    → IsDistinct (cl ++ ys)
prefixed_once [] xs ys m n d = n
prefixed_once (c ∷ cl) xs ys m n d = (
  ground (arith, d.0, contains-append cl xs c, contains-append cl ys c, m c),
  prefixed_once cl xs ys m n d.1,
)

suffix_once : (cl xs : List ℕ) → IsDistinct (cl ++ xs) → IsDistinct xs
suffix_once [] xs d = d
suffix_once (c ∷ cl) xs d = suffix_once cl xs d.1

pub move_to_end-IsSound :
    (limit : ℕ) (k : String) (h : ℕ) (s : Connections)
    → IsSound limit s
    → lookup k s.opened ≡ some h
    → IsSound limit (record s { opened = move_to_end k h s.opened })
move_to_end-IsSound limit k h s v e =
    let os = s.opened in
    let split : handles_of (move_to_end k h os) ≡ handles_of (erase k os) ++ h ∷ [] =
      handles_of-append (erase k os) ((k, h) ∷ []) in
    let same : (x : ℕ) → contains (handles_of (move_to_end k h os)) x ≡ contains (handles_of os) x =
      λ x. ap (λ l. contains l x) split ∙ contains-moved os k h x v.packs_once e in
    record {
      bounded =
          omega (arith, v.bounded, length-erase os k h e, length-append (erase k os) ((k, h) ∷ []));
      packs_once = subst IsDistinct (sym (keys-append (erase k os) ((k, h) ∷ []))) (
          IsDistinct-snoc (keys (erase k os)) k (erase-keys_once os k v.packs_once)
            (contains-keys-erase os k k ∙ rw (beq_refl k) refl));
      handles_once =
          prefixed_once s.closed (handles_of os) (handles_of (move_to_end k h os)) same
            (subst IsDistinct (sym split) (
              moved-handles_once os k h v.packs_once
                (suffix_once s.closed (handles_of os) v.handles_once) e))
            v.handles_once;
      handles_made = λ x m. v.handles_made x (
          ground (
            arith,
            m,
            same x,
            contains-append s.closed (handles_of os) x,
            contains-append s.closed (handles_of (move_to_end k h os)) x,
          ));
    }
