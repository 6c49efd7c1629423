-- ===== src/Selection/Coverage.antt =====
-- What `resolve` says of each pair of a capability and a language.
use lexicon_mcp.Prelude.{
  String, Bool, true, false, not, ◌&&◌, ◌≡◌, refl, ap, ◌∙◌, subst, List, [], ◌∷◌, Option, none,
  some, ◌==◌, string_eq, if◌then◌else◌, contains, contains-append, filter, all, sorted, string_ord,
  lookup, arith, ltb, ok, selection_error, >>=-eq-ok, require-eq-ok, raise_if-eq-ok,
}
use lexicon_mcp.Manifest.{DatasetManifest}
use lexicon_mcp.Selection.{
  Unavailable, Selection, Gathered, reason_eq, unavailable_eq, wanted, reason_for, gathered, sizes,
  component_ids, pack_names, finish, normalized_request, refused, requestable_capabilities, resolve,
}
use lexicon_mcp.Selection.Loops.{served, missing, all_missing, gather_lem, lookup-all_effective}

-- The request that a successful call has resolved, and the tests that it has passed.
pub record Resolved {B : Type 0} (m : DatasetManifest B) (languages : Option (List String))
    (capabilities : List String) (strict : Bool) (s : Selection) : Type 0 where
  pub requested : Option (List String)
  pub normalized : normalized_request languages ≡ ok requested
  pub accepted : refused strict m.languages requested ≡ false
  pub known : all (contains requestable_capabilities) capabilities ≡ true
  pub finished : finish m (gathered m requested capabilities) ≡ ok s

module _ {B : Type 0} (m : DatasetManifest B) where
  pub resolve-Resolved :
      (languages : Option (List String)) (capabilities : List String) (strict : Bool)
      (s : Selection)
      → resolve m languages capabilities strict ≡ ok s
      → Resolved m languages capabilities strict s
  unfolding resolve
  resolve-Resolved languages capabilities strict s h =
      let (_, h1) = raise_if-eq-ok (ltb m.schema_version 2) selection_error _ h in
      let (known, h2) =
        require-eq-ok (all (contains requestable_capabilities) capabilities) selection_error _ h1 in
      let (requested, normalized, h3) = >>=-eq-ok (normalized_request languages) _ h2 in
      let (accepted, h4) =
        raise_if-eq-ok (refused strict m.languages requested) selection_error _ h3 in
      record {
        requested = requested;
        normalized = normalized;
        accepted = accepted;
        known = known;
        finished = h4;
      }

  -- A selection passes on what the loop has gathered.
  pub finish_lem :
      (g : Gathered) (s : Selection)
      → finish m g ≡ ok s
      → (s.components ≡ sorted (component_ids m g.selected []))
        × (s.packs ≡ sorted (pack_names m g.selected))
        × (s.effective ≡ g.effective)
        × (s.unavailable ≡ g.unavailable)
        × (sizes m (component_ids m g.selected []) 0 0 ≡ ok (s.compressed_size, s.installed_size))
  unfolding finish
  finish_lem g s h =
      let (n, counted, h1) = >>=-eq-ok (sizes m (component_ids m g.selected []) 0 0) _ h in
      ground arith

  contains-missing :
      (c : String) (ls : List String) (u : Unavailable)
      → contains (missing m c ls) u ≡ (
          c == u.capability
          && (contains ls u.language
              && (not (served m c u.language) && reason_for m u.language == u.reason)))
  contains-missing c [] u = ground arith
  contains-missing c (l ∷ ls) u =
      ground (arith, contains-missing c ls u, string_eq.beq_iff l u.language)

  contains-all_missing :
      (requested : Option (List String)) (cs : List String) (u : Unavailable)
      → contains (all_missing m requested cs) u ≡ (
          contains cs u.capability
          && (contains (wanted m requested u.capability) u.language
              && (not (served m u.capability u.language) && reason_for m u.language == u.reason)))
  contains-all_missing requested [] u = refl
  contains-all_missing requested (c ∷ cs) u =
      contains-append (missing m c (wanted m requested c)) (all_missing m requested cs) u
      ∙ ground (
        arith,
        contains-missing c (wanted m requested c) u,
        contains-all_missing requested cs u,
        string_eq.beq_iff c u.capability,
      )

  module _ (languages requested : Option (List String)) (capabilities : List String) (strict : Bool)
      (s : Selection) (normalized : normalized_request languages ≡ ok requested)
      (resolved : resolve m languages capabilities strict ≡ ok s) where
    -- The fields of the selection, by the plain recursions.
    pub resolved_finish : finish m (gathered m requested capabilities) ≡ ok s
    resolved_finish =
        let r = resolve-Resolved languages capabilities strict s resolved in
        let same : r.requested ≡ requested = cc (r.normalized, normalized) in
        subst (λ q. finish m (gathered m q capabilities) ≡ ok s) same r.finished

    pub resolved_accepted : refused strict m.languages requested ≡ false
    resolved_accepted =
        let r = resolve-Resolved languages capabilities strict s resolved in
        let same : r.requested ≡ requested = cc (r.normalized, normalized) in
        subst (λ q. refused strict m.languages q ≡ false) same r.accepted

    -- A requested capability maps to the wanted languages that some pack serves for it, sorted;
    -- nothing else has an entry.
    pub resolve-effective :
        (c : String)
        → lookup c s.effective ≡ (
            if contains capabilities c
            then some (sorted (filter (served m c) (wanted m requested c)))
            else none)
    unfolding gathered
    resolve-effective c =
        ap (lookup c) (
          (finish_lem _ s resolved_finish).2
          ∙ ap (λ (g : Gathered). g.effective) (gather_lem m requested capabilities _))
        ∙ lookup-all_effective m requested capabilities [] c

    -- A pair is reported as unavailable exactly if it was asked for and no pack serves it, and
    -- with the reason that tells whether the dataset has the language at all.
    pub resolve-unavailable :
        (u : Unavailable)
        → contains s.unavailable u ≡ (
            contains capabilities u.capability
            && (contains (wanted m requested u.capability) u.language
                && (not (served m u.capability u.language) && reason_for m u.language == u.reason)))
    unfolding gathered
    resolve-unavailable u =
        ap (λ l. contains l u)
          ((finish_lem _ s resolved_finish).3
            ∙ ap (λ (g : Gathered). g.unavailable) (gather_lem m requested capabilities _))
        ∙ contains-all_missing requested capabilities u
