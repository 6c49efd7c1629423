-- ===== src/Service/Allocate/Fair.antt =====
-- What `_round_robin_allocate` selects: from each group its first candidates, the groups level with
-- each other, until the budget or the candidates are used up.
use lexicon_mcp.Prelude.{
  ℕ, zero, suc, ◌+◌, ◌-◌, ◌≤◌, ◌<◌, min, Bool, true, false, List, [], ◌∷◌, ◌++◌, Option, some, ◌==◌,
  nat_eq, get_elem?, take, length, length-append, sum_by, take-suc-some, take-suc-none, take_all,
  length-take_le-length, ◌≡◌, refl, ap, ap₂, sym, subst, ◌∙◌, arith, Bool-cases, Option-cases, ◌⊎◌,
  inl, inr,
}
use lexicon_mcp.Service.Allocate.{
  Groups, sweep, sweeps, unselected, selections, round_robin_allocate,
}

module _ {ℓ} {A : Type ℓ} where
  -- The first `k` groups at `p + 1` candidates each, the others at `p`, as far as they reach.
  abbrev pub filled : ℕ → ℕ → List (List A) → Groups A
  filled p k [] = []
  filled p zero (c ∷ cs) = (c, take p c) ∷ filled p zero cs
  filled p (suc k) (c ∷ cs) = (c, take (suc p) c) ∷ filled p k cs

  abbrev pub picked : Groups A → ℕ
  picked = sum_by (λ g. length g.1)

  abbrev pub offered : List (List A) → ℕ
  offered = sum_by length

  abbrev AllWithin : ℕ → List (List A) → Type 0
  AllWithin p [] = Unit
  AllWithin p (c ∷ cs) = (length c ≤ p) × AllWithin p cs

  picked-le-offered : (p k : ℕ) (cs : List (List A)) → picked (filled p k cs) ≤ offered cs
  picked-le-offered p k [] = omega arith
  picked-le-offered p zero (c ∷ cs) =
      omega (arith, length-take_le-length p c, picked-le-offered p zero cs)
  picked-le-offered p (suc k) (c ∷ cs) =
      omega (arith, length-take_le-length (suc p) c, picked-le-offered p k cs)

  picked_of_AllWithin :
      (p : ℕ) (cs : List (List A)) → AllWithin p cs → picked (filled p zero cs) ≡ offered cs
  picked_of_AllWithin p [] h = refl
  picked_of_AllWithin p (c ∷ cs) h =
      omega (arith, ap length (take_all c p h.0), picked_of_AllWithin p cs h.1)

  -- What one sweep leads to, from level groups and a budget that is not used up.
  record Swept (p r : ℕ) (cs : List (List A)) (out : Groups A × ℕ × Bool) : Type ℓ where
    level : ℕ
    groups : out.0 ≡ filled p level cs
    spent : picked out.0 + out.1 ≡ picked (filled p zero cs) + r
    through : (out.1 ≡ 0) ⊎ (out.0 ≡ filled (suc p) zero cs)
    within : out.1 ≤ r
    progress : out.2 ≡ true → out.1 < r
    idle : out.2 ≡ false → AllWithin p cs

  sweep_lem : (p r : ℕ) (cs : List (List A)) → 0 < r → Swept p r cs (sweep p r (filled p zero cs))
  unfolding sweep
  sweep_lem p r [] h = record {
    level = 0;
    groups = refl;
    spent = refl;
    through = inr refl;
    within = omega arith;
    progress = λ (e : false ≡ true). cc;
    idle = λ _. tt;
  }
  sweep_lem p r (c ∷ cs) h =
      let rest = filled p zero cs in
      elim (Option-cases (get_elem? c p)) [
        | inl none_left ↦
            let v = sweep_lem p r cs h in
            let (same, within) = take-suc-none p c none_left in
            rw (none_left, sweep)
              (record {
                level = suc v.level;
                groups = ap₂ (λ t gs. (c, t) ∷ gs) (sym same) v.groups;
                spent = omega (arith, v.spent);
                through = elim v.through [
                  | inl spent ↦ inl spent
                  | inr whole ↦ inr (ap₂ (λ t gs. (c, t) ∷ gs) (sym same) whole)
                ];
                within = v.within;
                progress = v.progress;
                idle = λ e. (within, v.idle e);
              })
        | inr (x, next) ↦
            let grown : take p c ++ x ∷ [] ≡ take (suc p) c = sym (take-suc-some p c next) in
            let longer : length (take p c ++ x ∷ []) ≡ length (take p c) + 1 =
              length-append (take p c) (x ∷ []) in
            elim (Bool-cases (r - 1 == 0)) [
              | inl last ↦
                  rw (next, sweep, last)
                    (record {
                      level = 1;
                      groups = ap (λ t. (c, t) ∷ rest) grown;
                      spent = ground (arith, longer, last);
                      through = inl refl;
                      within = omega arith;
                      progress = λ _. h;
                      idle = λ (e : true ≡ false). cc;
                    })
              | inr more ↦
                  let v = sweep_lem p (r - 1) cs (ground arith) in
                  rw (next, sweep, more)
                    (record {
                      level = suc v.level;
                      groups = ap₂ (λ t gs. (c, t) ∷ gs) grown v.groups;
                      spent = omega (arith, longer, v.spent);
                      through = elim v.through [
                        | inl spent ↦ inl spent
                        | inr whole ↦ inr (ap₂ (λ t gs. (c, t) ∷ gs) grown whole)
                      ];
                      within = omega (arith, v.within);
                      progress = λ _. omega (arith, v.within);
                      idle = λ (e : true ≡ false). cc;
                    })
            ]
      ]

  -- With nothing left the loop ends at once.
  sweeps_spent : (fuel p r : ℕ) (gs : Groups A) → r ≡ 0 → 0 < fuel → sweeps fuel p r gs ≡ some gs
  unfolding sweeps
  sweeps_spent zero p r gs e h = absurd (omega arith)
  sweeps_spent (suc fuel) p r gs e h = rw e refl

  -- The groups level with each other, up to one candidate: the first `k` of them have one more.
  record Level (cs : List (List A)) (total : ℕ) (out : Option (Groups A)) : Type ℓ where
    position : ℕ
    ahead : ℕ
    returned : out ≡ some (filled position ahead cs)
    used : picked (filled position ahead cs) ≡ min total (offered cs)

  sweeps_lem :
      (fuel p r : ℕ) (cs : List (List A))
      → r < fuel
      → Level cs (picked (filled p zero cs) + r) (sweeps fuel p r (filled p zero cs))
  unfolding sweeps
  sweeps_lem zero p r cs h = absurd (omega arith)
  sweeps_lem (suc fuel) p r cs h = elim (Bool-cases (r == 0)) [
    | inl done ↦
        rw (done, sweeps)
          (record {
            position = p;
            ahead = 0;
            returned = refl;
            used = ground (arith, done, picked-le-offered p zero cs);
          })
    | inr more ↦
        let v = sweep_lem p r cs (ground arith) in
        elim (Bool-cases (sweep p r (filled p zero cs)).2) [
          | inl added ↦ elim v.through [
            | inl spent ↦
                rw (more, sweeps, added)
                  (record {
                    position = p;
                    ahead = v.level;
                    returned =
                        sweeps_spent fuel (suc p) _ _ spent (omega (arith, v.progress added))
                        ∙ ap some v.groups;
                    used =
                        omega (
                          arith,
                          v.spent,
                          spent,
                          ap picked v.groups,
                          picked-le-offered p v.level cs,
                        );
                  })
            | inr whole ↦
                let left = (sweep p r (filled p zero cs)).1 in
                let total : picked (filled (suc p) zero cs) + left ≡ picked (filled p zero cs) + r =
                  ap (λ gs. picked gs + left) (sym whole) ∙ v.spent in
                rw (more, sweeps, added, whole)
                  (subst (λ t. Level cs t (sweeps fuel (suc p) left (filled (suc p) zero cs))) total
                    (sweeps_lem fuel (suc p) left cs (omega (arith, v.progress added))))
          ]
          | inr idle ↦
              rw (more, sweeps, idle)
                (record {
                  position = p;
                  ahead = v.level;
                  returned = ap some v.groups;
                  used = omega (
                    arith,
                    v.spent,
                    v.within,
                    ap picked v.groups,
                    picked-le-offered p v.level cs,
                    picked_of_AllWithin p cs (v.idle idle),
                  );
                })
        ]
  ]

  filled-unselected : (cs : List (List A)) → filled 0 0 cs ≡ unselected cs
  filled-unselected [] = refl
  filled-unselected (c ∷ cs) = ap (λ gs. (c, []) ∷ gs) (filled-unselected cs)

  picked-unselected : (cs : List (List A)) → picked (unselected cs) ≡ 0
  picked-unselected [] = refl
  picked-unselected (c ∷ cs) = omega (arith, picked-unselected cs)

  -- What is selected from each group: of the first `k` groups the first `p + 1` candidates, of the
  -- others the first `p`, as far as there are so many.
  abbrev pub shares : ℕ → ℕ → List (List A) → List (List A)
  shares p k [] = []
  shares p zero (c ∷ cs) = take p c ∷ shares p zero cs
  shares p (suc k) (c ∷ cs) = take (suc p) c ∷ shares p k cs

  selections-filled : (p k : ℕ) (cs : List (List A)) → selections (filled p k cs) ≡ shares p k cs
  selections-filled p k [] = refl
  selections-filled p zero (c ∷ cs) = ap (◌∷◌ (take p c)) (selections-filled p zero cs)
  selections-filled p (suc k) (c ∷ cs) = ap (◌∷◌ (take (suc p) c)) (selections-filled p k cs)

  offered-shares : (p k : ℕ) (cs : List (List A)) → offered (shares p k cs) ≡ picked (filled p k cs)
  offered-shares p k [] = refl
  offered-shares p zero (c ∷ cs) = omega (arith, offered-shares p zero cs)
  offered-shares p (suc k) (c ∷ cs) = omega (arith, offered-shares p k cs)

  -- The allocation ends, with the budget or all candidates used, whichever is less. Every group
  -- gives its first candidates, and the groups are level: some number of groups at the front give
  -- one candidate more than the others, where they have so many.
  pub round_robin_allocate_fair :
      (candidate_lists : List (List A)) (budget : ℕ)
      → (p k : ℕ) × (round_robin_allocate candidate_lists budget
          ≡ some (shares p k candidate_lists))
        × (offered (shares p k candidate_lists) ≡ min budget (offered candidate_lists))
  unfolding round_robin_allocate
  round_robin_allocate_fair candidate_lists budget =
      let from = filled-unselected candidate_lists in
      let v = sweeps_lem (suc budget) 0 budget candidate_lists (omega arith) in
      let run : sweeps (suc budget) 0 budget (unselected candidate_lists)
          ≡ some (filled v.position v.ahead candidate_lists) =
        ap (sweeps (suc budget) 0 budget) (sym from) ∙ v.returned in
      (
        v.position,
        v.ahead,
        rw (run, round_robin_allocate)
            (ap some (selections-filled v.position v.ahead candidate_lists)),
        omega (
          arith,
          offered-shares v.position v.ahead candidate_lists,
          v.used,
          ap picked from,
          picked-unselected candidate_lists,
        ),
      )
