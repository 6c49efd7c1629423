-- ===== src/Router/Cache.antt =====
-- `_connect`: the connections that the router holds open, and those that it has closed.
use lexicon_mcp.Prelude.{
  ℕ, ◌≤◌, String, false, List, [], ◌∷◌, ◌++◌, none, some, string_eq, nat_eq, keys, lookup, erase,
  lookup-erase, contains, contains-append, beq_refl, IsDistinct, IsDistinct-snoc, IsDistinct-apart,
  Result, ok, ◌≡◌, refl, ap, sym, ◌∙◌, subst, arith, Bool-cases, Option-cases, inl, inr,
}
use mathlib.Core.List.{append_assoc}
use lexicon_mcp.Activation.{ActivationComponent, Activation}
use lexicon_mcp.Store.{Store, open_path}
use lexicon_mcp.Install.Exec.{continue-eq-ok}
use lexicon_mcp.Router.Queue.{
  handles_of, handles_of-append, keys-append, evict_bounded, evict_all, evict-keys, evict_last,
  lookup-snoc, IsSound, contains-keys-none, contains-handles, move_to_end-IsSound,
}
use lexicon_mcp.Router.{Connections, keep_open, connect, LanguageCoverage}

module _ {B : Type 0} (activation : Activation) (store : Store B) (limit : ℕ)
    (connects : String → Result (Unit {0})) (catalogue : ℕ → Result (List LanguageCoverage)) where
  keep_open-IsSound :
      (k : String) (s t : Connections) (h : ℕ)
      → IsSound limit s
      → lookup k s.opened ≡ none
      → keep_open activation store limit connects catalogue k s ≡ (ok h, t)
      → IsSound limit t
  unfolding keep_open
  keep_open-IsSound k s t h v new e =
      let os = s.opened ++ (k, s.made) ∷ [] in
      let all : s.closed ++ handles_of os ≡ (s.closed ++ handles_of s.opened) ++ s.made ∷ [] =
        ap (λ l. s.closed ++ l) (handles_of-append s.opened ((k, s.made) ∷ []))
        ∙ sym (append_assoc s.closed (handles_of s.opened) (s.made ∷ [])) in
      let same = evict_all limit os s.closed ∙ all in
      let unmade : contains (s.closed ++ handles_of s.opened) s.made ≡ false =
        ground (arith, v.handles_made s.made) in
      subst (IsSound limit) (ap (λ q. q.1) e) (record {
        bounded = evict_bounded limit os s.closed;
        packs_once = evict-keys limit os s.closed (
            subst IsDistinct (sym (keys-append s.opened ((k, s.made) ∷ [])))
              (IsDistinct-snoc (keys s.opened) k v.packs_once (contains-keys-none s.opened k new)));
        handles_once =
            subst IsDistinct (sym same)
              (IsDistinct-snoc (s.closed ++ handles_of s.opened) s.made v.handles_once unmade);
        handles_made = λ h m. ground (
          arith,
          ap (λ l. contains l h) same,
          m,
          v.handles_made h,
          contains-append (s.closed ++ handles_of s.opened) (s.made ∷ []) h,
        );
      })

  pub connect-IsSound :
      (c : ActivationComponent) (s t : Connections) (h : ℕ)
      → IsSound limit s
      → connect activation store limit connects catalogue c s ≡ (ok h, t)
      → IsSound limit t
  unfolding connect
  connect-IsSound c s t h v e = elim (Option-cases (lookup c.sha256 s.opened)) [
    | inr (g, there) ↦
        subst (IsSound limit) (ap (λ q. q.1) (rw (there, connect) at e))
          (move_to_end-IsSound limit c.sha256 g s v there)
    | inl absent ↦
        let (path, _, e1) =
          continue-eq-ok (open_path store c.sha256) _ s (rw (absent, connect) at e) in
        let (_, _, e2) = continue-eq-ok (connects path) _ s e1 in
        keep_open-IsSound c.sha256 s t h v absent e2
  ]

  connect-lookup :
      (c : ActivationComponent) (s t : Connections) (h : ℕ)
      → 1 ≤ limit
      → connect activation store limit connects catalogue c s ≡ (ok h, t)
      → lookup c.sha256 t.opened ≡ some h
  unfolding connect keep_open
  connect-lookup c s t h l e = elim (Option-cases (lookup c.sha256 s.opened)) [
    | inr (g, there) ↦
        let e' = rw (there, connect) at e in
        sym (ap (λ q. lookup c.sha256 q.1.opened) e')
        ∙ lookup-snoc (erase c.sha256 s.opened) c.sha256 g
            (lookup-erase c.sha256 c.sha256 s.opened ∙ rw (beq_refl c.sha256) refl)
        ∙ ap some (ground (arith, e'))
    | inl absent ↦
        let (path, _, e1) =
          continue-eq-ok (open_path store c.sha256) _ s (rw (absent, connect) at e) in
        let (_, _, e2) = continue-eq-ok (connects path) _ s e1 in
        sym (ap (λ q. lookup c.sha256 q.1.opened) e2)
        ∙ evict_last limit s.opened s.closed c.sha256 s.made l absent
        ∙ ap some (ground (arith, e2))
  ]

  -- A router whose invariant holds, with a limit of at least one: the connection that it returns
  -- is held open for the pack and is not closed, and the invariant still holds. It says that at
  -- most `limit` connections are open, each of a pack of its own, that none of them is closed, and
  -- that no number was given twice.
  pub connect_lem :
      (c : ActivationComponent) (s t : Connections) (h : ℕ)
      → 1 ≤ limit
      → IsSound limit s
      → connect activation store limit connects catalogue c s ≡ (ok h, t)
      → IsSound limit t × (lookup c.sha256 t.opened ≡ some h) × (contains t.closed h ≡ false)
  connect_lem c s t h l v e =
      let w = connect-IsSound c s t h v e in
      let there = connect-lookup c s t h l e in
      let open_here = contains-handles t.opened c.sha256 h there in
      (
        w,
        there,
        elim (Bool-cases (contains t.closed h)) [
          | inr live ↦ live
          | inl dead ↦ absurd (
              ground (
                arith,
                IsDistinct-apart t.closed (handles_of t.opened) h w.handles_once dead,
                open_here,
              ))
        ],
      )
