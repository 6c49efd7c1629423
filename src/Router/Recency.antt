-- ===== src/Router/Recency.antt =====
-- `_connect` over a history of calls: the packs that are open are those that were used last.
use mathlib.Core.List.{append-nil}
use lexicon_mcp.Prelude.{
  ℕ, ◌-◌, zero, suc, if◌then◌else◌, ◌≤◌, String, Bool, true, false, not, List, [], ◌∷◌, ◌++◌, map,
  Option, none, some, ◌==◌, string_eq, eq_iff, ltb, length, length-append, take, take_all, filter,
  Dict, lookup, erase, contains, beq_refl, IsDistinct, Result, ok, ◌≡◌, refl, ap, sym, ◌∙◌, subst,
  arith, Bool-cases, Option-cases, contains-append, inl, inr,
}
use lexicon_mcp.Activation.{ActivationComponent, Activation}
use lexicon_mcp.Store.{Store, open_path}
use lexicon_mcp.Install.Exec.{Exec, pure, ◌>>=◌, >>=-eq-ok, continue-eq-ok}
use lexicon_mcp.Router.{Connections, LanguageCoverage, evict, keep_open, connect}

abbrev is_some : Option ℕ → Bool
is_some none = false
is_some (some h) = true

abbrev pub without_one : String → List String → List String
without_one k = filter (λ x. not (x == k))

-- The items of a list, each at the first place where it stands.
abbrev pub first_uses : List String → List String
first_uses [] = []
first_uses (u ∷ us) = u ∷ without_one u (first_uses us)

contains-without_one :
    (k : String) (xs : List String) (x : String)
    → contains (without_one k xs) x ≡ (if x == k then false else contains xs x)
contains-without_one k [] x = ground arith
contains-without_one k (y ∷ ys) x =
    ground (arith, contains-without_one k ys x, eq_iff y k, eq_iff x k, eq_iff y x)

without_one-IsDistinct :
    (k : String) (xs : List String) → IsDistinct xs → IsDistinct (without_one k xs)
without_one-IsDistinct k [] d = tt
without_one-IsDistinct k (x ∷ xs) d = elim (Bool-cases (x == k)) [
  | inl same ↦ rw (same, filter) (without_one-IsDistinct k xs d.1)
  | inr other ↦
      rw (other, filter)
        (contains-without_one k xs x ∙ rw other d.0, without_one-IsDistinct k xs d.1)
]

first_uses-IsDistinct : (us : List String) → IsDistinct (first_uses us)
first_uses-IsDistinct [] = tt
first_uses-IsDistinct (u ∷ us) = (
  contains-without_one u (first_uses us) u ∙ rw (beq_refl u) refl,
  without_one-IsDistinct u (first_uses us) (first_uses-IsDistinct us),
)

without_absent : (k : String) (xs : List String) → contains xs k ≡ false → without_one k xs ≡ xs
without_absent k [] h = refl
without_absent k (x ∷ xs) h = ground (arith, h, without_absent k xs)

contains-take :
    (n : ℕ) (k : String) (xs : List String) → contains xs k ≡ false → contains (take n xs) k ≡ false
contains-take zero k xs h = refl
contains-take (suc n) k [] h = refl
contains-take (suc n) k (x ∷ xs) h = ground (arith, h, contains-take n k xs)

-- A use of one of the first: the others keep their order.
take_hit :
    (n : ℕ) (k : String) (xs : List String)
    → IsDistinct xs
    → contains (take (suc n) xs) k ≡ true
    → without_one k (take (suc n) xs) ≡ take n (without_one k xs)
take_hit n k [] d h = cc
take_hit zero k (x ∷ xs) d h = ground (arith, h)
take_hit (suc n) k (x ∷ xs) d h = elim (Bool-cases (x == k)) [
  | inl same ↦
      let gone : contains xs k ≡ false = ap (contains xs) (sym ((eq_iff x k).0 same)) ∙ d.0 in
      rw (same, filter)
        (without_absent k (take (suc n) xs) (contains-take (suc n) k xs gone)
          ∙ ap (take (suc n)) (sym (without_absent k xs gone)))
  | inr other ↦ rw (other, filter) (ap (◌∷◌ x) (take_hit n k xs d.1 (ground (arith, h, other))))
]

-- A use of another.
take_miss :
    (n : ℕ) (k : String) (xs : List String)
    → contains (take n xs) k ≡ false
    → take n (without_one k xs) ≡ take n xs
take_miss zero k xs h = refl
take_miss (suc n) k [] h = refl
take_miss (suc n) k (x ∷ xs) h = ground (arith, h, take_miss n k xs)

take_nil : (n : ℕ) → take {A = String} n [] ≡ []
take_nil zero = refl
take_nil (suc n) = refl

take-take : (n : ℕ) (xs : List String) → take n (take (suc n) xs) ≡ take n xs
take-take zero xs = refl
take-take (suc n) [] = refl
take-take (suc n) (x ∷ xs) = ap (◌∷◌ x) (take-take n xs)

take_snoc :
    (n : ℕ) (xs : List String) (x : String) → n ≤ length xs → take n (xs ++ x ∷ []) ≡ take n xs
take_snoc zero xs x l = refl
take_snoc (suc n) [] x l = absurd (omega (arith, l))
take_snoc (suc n) (y ∷ ys) x l = ap (◌∷◌ y) (take_snoc n ys x (omega (arith, l)))

-- The packs that are open, the one that was used last at the front.
abbrev pub latest_first : Dict ℕ → List String
latest_first [] = []
latest_first ((k, h) ∷ os) = latest_first os ++ k ∷ []

latest_first-snoc :
    (os : Dict ℕ) (k : String) (h : ℕ) → latest_first (os ++ (k, h) ∷ []) ≡ k ∷ latest_first os
latest_first-snoc [] k h = refl
latest_first-snoc ((j, g) ∷ os) k h = ap (λ l. l ++ j ∷ []) (latest_first-snoc os k h)

length-latest_first : (os : Dict ℕ) → length (latest_first os) ≡ length os
length-latest_first [] = refl
length-latest_first ((j, g) ∷ os) =
    omega (arith, length-append (latest_first os) (j ∷ []), length-latest_first os)

without_one-snoc :
    (k : String) (xs : List String) (x : String)
    → without_one k (xs ++ x ∷ []) ≡ without_one k xs ++ (if x == k then [] else x ∷ [])
without_one-snoc k [] x = ground arith
without_one-snoc k (y ∷ ys) x = ground (arith, without_one-snoc k ys x)

latest_first-erase :
    (k : String) (os : Dict ℕ) → latest_first (erase k os) ≡ without_one k (latest_first os)
unfolding erase
latest_first-erase k [] = refl
latest_first-erase k ((j, h) ∷ os) = elim (Bool-cases (j == k)) [
  | inl same ↦
      rw (same, erase)
        (latest_first-erase k os
          ∙ sym (append-nil (without_one k (latest_first os)))
          ∙ sym (without_one-snoc k (latest_first os) j ∙ rw same refl))
  | inr other ↦
      rw (other, erase)
        (ap (λ l. l ++ j ∷ []) (latest_first-erase k os)
          ∙ sym (without_one-snoc k (latest_first os) j ∙ rw other refl))
]

contains-latest_first :
    (os : Dict ℕ) (k : String) → contains (latest_first os) k ≡ is_some (lookup k os)
contains-latest_first [] k = refl
contains-latest_first ((j, h) ∷ os) k =
    contains-append (latest_first os) (j ∷ []) k ∙ ground (arith, contains-latest_first os k)

-- Closing the ones over the limit leaves those that were used last.
evict_latest :
    (n : ℕ) (os : Dict ℕ) (cl : List ℕ) → latest_first (evict n os cl).0 ≡ take n (latest_first os)
unfolding evict
evict_latest zero [] cl = refl
evict_latest (suc n) [] cl = refl
evict_latest n ((k, h) ∷ os) cl = elim (Bool-cases (ltb n (suc (length os)))) [
  | inl over ↦
      rw (over, evict)
        (evict_latest n os (cl ++ h ∷ [])
          ∙ sym (take_snoc n (latest_first os) k (ground (arith, over, length-latest_first os))))
  | inr fits ↦
      rw (fits, evict)
        (sym (
          take_all (latest_first os ++ k ∷ []) n (
            ground
              (arith, fits, length-append (latest_first os) (k ∷ []), length-latest_first os))))
]

module _ {B : Type 0} (activation : Activation) (store : Store B) (limit : ℕ)
    (connects : String → Result (Unit {0})) (catalogue : ℕ → Result (List LanguageCoverage)) where
  abbrev pub pack_of : ActivationComponent → String
  pack_of c = c.sha256

  connect_latest :
      (n : ℕ) (c : ActivationComponent) (us : List String) (s t : Connections) (h : ℕ)
      → limit ≡ suc n
      → latest_first s.opened ≡ take limit (first_uses us)
      → connect activation store limit connects catalogue c s ≡ (ok h, t)
      → latest_first t.opened ≡ take limit (first_uses (c.sha256 ∷ us))
  unfolding connect keep_open
  connect_latest n c us s t h l was e =
      let k = c.sha256 in
      let before = first_uses us in
      let was' : latest_first s.opened ≡ take (suc n) before = was ∙ ap (λ m. take m before) l in
      subst (λ m. latest_first t.opened ≡ take m (first_uses (k ∷ us))) (sym l)
        (elim (Option-cases (lookup k s.opened)) [
          | inr (g, there) ↦
              let known : contains (take (suc n) before) k ≡ true =
                ap (λ l. contains l k) (sym was')
                ∙ contains-latest_first s.opened k
                ∙ ap is_some there in
              sym (ap (λ q. latest_first q.1.opened) (rw (there, connect) at e))
              ∙ latest_first-snoc (erase k s.opened) k g
              ∙ ap (◌∷◌ k) (
                  latest_first-erase k s.opened
                  ∙ ap (without_one k) was'
                  ∙ take_hit n k before (first_uses-IsDistinct us) known)
          | inl absent ↦
              let (path, _, e1) =
                continue-eq-ok (open_path store k) _ s (rw (absent, connect) at e) in
              let (_, _, e2) = continue-eq-ok (connects path) _ s e1 in
              let with_new = s.opened ++ (k, s.made) ∷ [] in
              let unknown : contains (take (suc n) before) k ≡ false =
                ap (λ l. contains l k) (sym was')
                ∙ contains-latest_first s.opened k
                ∙ ap is_some absent in
              let miss : contains (take n before) k ≡ false =
                ap (λ l. contains l k) (sym (take-take n before))
                ∙ contains-take n k (take (suc n) before) unknown in
              sym (ap (λ q. latest_first q.1.opened) e2)
              ∙ evict_latest limit with_new s.closed
              ∙ ap (take limit) (latest_first-snoc s.opened k s.made)
              ∙ ap (λ m. take m (k ∷ latest_first s.opened)) l
              ∙ ap (λ xs. k ∷ take n xs) was'
              ∙ ap (◌∷◌ k) (take-take n before ∙ sym (take_miss n k before miss))
        ])

  -- The calls of a history, the last one at its front.
  abbrev pub connect_each : List ActivationComponent → Exec Connections (List ℕ)
  connect_each [] = pure []
  connect_each (c ∷ earlier) = do
    hs ← connect_each earlier
    h ← connect activation store limit connects catalogue c
    pure (h ∷ hs)

  -- From a new router, whatever packs are asked for in turn: as long as every call returns, the
  -- packs that are open are the ones that were asked for last, up to the limit, in the order of
  -- their last use.
  pub connect_each_lem :
      (uses : List ActivationComponent) (s t : Connections) (hs : List ℕ)
      → 1 ≤ limit
      → s.opened ≡ []
      → connect_each uses s ≡ (ok hs, t)
      → latest_first t.opened ≡ take limit (first_uses (map pack_of uses))
  connect_each_lem [] s t hs l new e =
      sym (ap (λ q. latest_first q.1.opened) e) ∙ ap latest_first new ∙ sym (take_nil limit)
  connect_each_lem (c ∷ earlier) s t hs l new e =
      let (gs, u, ran, e1) = >>=-eq-ok (connect_each earlier) _ s e in
      let (h, w, opened, e2) =
        >>=-eq-ok (connect activation store limit connects catalogue c) _ u e1 in
      sym (ap (λ q. latest_first q.1.opened) e2)
      ∙ connect_latest (limit - 1) c (map pack_of earlier) u w h (omega (arith, l))
          (connect_each_lem earlier s u gs l new ran) opened
