-- ===== src/Router/Traversal/Recent.antt =====
-- The connections that were used last stay open while others are opened.
use lexicon_mcp.Prelude.{
  ℕ, suc, ◌≤◌, String, Bool, true, false, ◌&&◌, List, [], ◌∷◌, ◌++◌, some, ◌==◌, string_eq, nat_eq,
  eq_iff, ltb, length, length-append, Dict, keys, lookup, erase, contains, beq_refl, IsDistinct,
  IsDistinct-apart, if◌then◌else◌, ◌≡◌, ap, sym, ◌∙◌, subst, arith, Bool-cases, Option-cases, inl,
  inr, Result, ok, OnOk,
}
use lexicon_mcp.Activation.{ActivationComponent, Activation}
use lexicon_mcp.Store.{Store, open_path}
use lexicon_mcp.Install.Exec.{continue-eq-ok}
use lexicon_mcp.Router.{Connections, LanguageCoverage, evict, keep_open, connect}
use lexicon_mcp.Router.Queue.{handles_of, IsSound, length-erase-le, erase_absent}

-- The handle is among the last `n` entries.
abbrev pub within : ℕ → ℕ → Dict ℕ → Bool
within n h [] = false
within n h ((j, g) ∷ os) = if within n h os then true else g == h && ltb (length os) n

within-snoc :
    (n h : ℕ) (os : Dict ℕ) (new : String × ℕ)
    → within n h os ≡ true
    → within (suc n) h (os ++ new ∷ []) ≡ true
within-snoc n h [] new w = cc
within-snoc n h ((j, g) ∷ os) new w =
    ground (arith, w, within-snoc n h os new, length-append os (new ∷ []))

within_new : (n h : ℕ) (k : String) (os : Dict ℕ) → within (suc n) h (os ++ (k, h) ∷ []) ≡ true
within_new n h k [] = ground (arith, beq_refl h)
within_new n h k ((j, g) ∷ os) = ground (arith, within_new n h k os)

within-evict :
    (n limit h : ℕ) (os : Dict ℕ) (cl : List ℕ)
    → n ≤ limit
    → within n h os ≡ true
    → within n h (evict limit os cl).0 ≡ true
unfolding evict
within-evict n limit h [] cl l w = cc
within-evict n limit h ((j, g) ∷ os) cl l w =
    ground (arith, l, w, within-evict n limit h os (cl ++ g ∷ []))

pub within_suc : (n h : ℕ) (os : Dict ℕ) → within n h os ≡ true → within (suc n) h os ≡ true
within_suc n h [] w = cc
within_suc n h ((j, g) ∷ os) w = ground (arith, w, within_suc n h os)

-- Taking another entry out leaves a handle among the last.
within-erase :
    (n h g : ℕ) (k : String) (os : Dict ℕ)
    → IsDistinct (keys os)
    → lookup k os ≡ some g
    → within n h os ≡ true
    → (g == h) ≡ false
    → within n h (erase k os) ≡ true
unfolding erase
within-erase n h g k [] d e w other = cc
within-erase n h g k ((j, x) ∷ os) d e w other = elim (Bool-cases (j == k)) [
  | inl same ↦
      let gone : erase k os ≡ os =
        erase_absent os k (ap (contains (keys os)) (sym ((eq_iff j k).0 same)) ∙ d.0) in
      rw (same, erase) (rw gone (ground (arith, e, same, w, other)))
  | inr apart ↦
      rw (apart, erase)
        (ground (arith, e, apart, w, within-erase n h g k os d.1, other, length-erase-le os k))
]

contains-within : (n h : ℕ) (os : Dict ℕ) → within n h os ≡ true → contains (handles_of os) h ≡ true
contains-within n h [] w = cc
contains-within n h ((j, g) ∷ os) w = ground (arith, w, contains-within n h os)

-- What is among the last is not closed.
pub open_within :
    (limit n h : ℕ) (s : Connections)
    → IsSound limit s
    → within n h s.opened ≡ true
    → contains s.closed h ≡ false
open_within limit n h s v w = ground (
  arith,
  IsDistinct-apart s.closed (handles_of s.opened) h v.handles_once,
  contains-within n h s.opened w,
)

module _ {B : Type 0} (activation : Activation) (store : Store B) (limit : ℕ)
    (connects : String → Result (Unit {0})) (catalogue : ℕ → Result (List LanguageCoverage)) where
  -- The connection is among the last, and the others have moved by one place at most.
  abbrev pub Moved : ℕ → Dict ℕ → ℕ → Connections → Type 0
  Moved n os h t =
      (within (suc n) h t.opened ≡ true)
      × ((g : ℕ) → within n g os ≡ true → within (suc n) g t.opened ≡ true)

  moved_up :
      (n g w : ℕ) (k : String) (os : Dict ℕ)
      → IsDistinct (keys os)
      → lookup k os ≡ some w
      → within n g os ≡ true
      → within (suc n) g (erase k os ++ (k, w) ∷ []) ≡ true
  moved_up n g w k os d e m = elim (Bool-cases (w == g)) [
    | inl same ↦
        subst (λ x. within (suc n) g (erase k os ++ (k, x) ∷ []) ≡ true)
          (sym ((nat_eq.beq_iff w g).0 same)) (within_new n g k (erase k os))
    | inr other ↦ within-snoc n g (erase k os) (k, w) (within-erase n g w k os d e m other)
  ]

  pub connect_recent :
      (n : ℕ) (c : ActivationComponent) (s t : Connections) (h : ℕ)
      → suc n ≤ limit
      → IsSound limit s
      → connect activation store limit connects catalogue c s ≡ (ok h, t)
      → Moved n s.opened h t
  unfolding connect keep_open
  connect_recent n c s t h l v e = elim (Option-cases (lookup c.sha256 s.opened)) [
    | inr (w, there) ↦
        subst (λ (q : Result ℕ × Connections). OnOk (λ x. Moved n s.opened x q.1) q.0)
          (rw (there, connect) at e)
          (
            within_new n w c.sha256 (erase c.sha256 s.opened),
            λ g m. moved_up n g w c.sha256 s.opened v.packs_once there m,
          )
    | inl absent ↦
        let (path, _, e1) =
          continue-eq-ok (open_path store c.sha256) _ s (rw (absent, connect) at e) in
        let (_, _, e2) = continue-eq-ok (connects path) _ s e1 in
        subst (λ (q : Result ℕ × Connections). OnOk (λ x. Moved n s.opened x q.1) q.0) e2
          (
            within-evict (suc n) limit s.made _ s.closed l (within_new n s.made c.sha256 s.opened),
            λ g m.
                within-evict (suc n) limit g _ s.closed l
                  (within-snoc n g s.opened (c.sha256, s.made) m),
          )
  ]
