-- ===== src/Workflow/Reconcile/Found.antt =====
-- crates/pool-workflow/src/reconcile.rs: what the search finds.
use tig_mining_pool_public.Common.{
  ℕ, suc, ◌≤◌, ◌≡◌, inl, inr, refl, ap, subst, Bool, true, false, Bool-cases, List, [], ◌∷◌, ◌++◌,
  map, length, All, ok, >>=-eq-ok, ok_inj, arith,
}
use tig_mining_pool_public.Common.Bytes.{Bytes, cmp}
use tig_mining_pool_public.Common.Sort.{sort_by}
use tig_mining_pool_public.Workflow.Payload.{Json, PrecommitSubmission}
use tig_mining_pool_public.Workflow.Reconcile.{
  Reconciliation, no_candidate, pending_confirmation, confirmed, stop_for_operator, Candidate,
  verdict, candidate_of, matches, matches_from, reconcile_precommit,
}

module _ {Value : Type 0} (json : Json Value) (submitted : PrecommitSubmission Value) where
  -- The record reads as a candidate that matches, under this id.
  pub record IsMatch (entry : Value) (id : Bytes) (has_confirmed : Bool) : Type 0 where
    pub index : ℕ
    pub candidate : Candidate Value
    pub reads : candidate_of json index entry ≡ ok candidate
    pub is_match : matches json candidate submitted ≡ true
    pub names : candidate.benchmark_id ≡ id
    pub status : candidate.confirmed ≡ has_confirmed

  -- The record reads as a candidate that does not match.
  abbrev pub Misses : Value → Type 0
  Misses entry =
      (index : ℕ) × (c : Candidate Value) × (candidate_of json index entry ≡ ok c)
      × (matches json c submitted ≡ false)

  -- All that match, in the order of the records.
  pub data Search : List Value → List (Bytes × Bool) → Type 0 where
    ends : Search [] []
    misses :
        (entry : Value) (rest : List Value) (found : List (Bytes × Bool))
        → Misses entry
        → Search rest found
        → Search (entry ∷ rest) found
    hits :
        (entry : Value) (rest : List Value) (found : List (Bytes × Bool)) (id : Bytes) (b : Bool)
        → IsMatch entry id b
        → Search rest found
        → Search (entry ∷ rest) ((id, b) ∷ found)

  matches_from-Search :
      (index : ℕ) (entries : List Value) (found : List (Bytes × Bool))
      → matches_from json index entries submitted ≡ ok found
      → Search entries found
  unfolding matches_from
  matches_from-Search index [] found e = subst (Search []) (ok_inj e) ends
  matches_from-Search index (entry ∷ rest) found e =
      let (c, q, e₁) = >>=-eq-ok (candidate_of json index entry) _ e in
      let (others, r, e₂) = >>=-eq-ok (matches_from json (suc index) rest submitted) _ e₁ in
      let tail = matches_from-Search (suc index) rest others r in
      elim (Bool-cases (matches json c submitted)) [
        | inl m ↦ subst (Search (entry ∷ rest)) (ok_inj (rw m at e₂)) (
            hits entry rest others c.benchmark_id c.confirmed
              (record {
                index = index;
                candidate = c;
                reads = q;
                is_match = m;
                names = refl;
                status = refl;
              })
              tail)
        | inr m ↦
            subst (Search (entry ∷ rest)) (ok_inj (rw m at e₂))
              (misses entry rest others (index, c, q, m) tail)
      ]

  -- One record matches, under this id, and no other record does.
  abbrev pub Only : List Value → Bytes → Bool → Type 0
  Only entries id b =
      (before : List Value) × (entry : Value) × (after : List Value) × (entries
        ≡ before ++ (entry ∷ after))
      × IsMatch entry id b
      × All Misses before
      × All Misses after

  none_match : (entries : List Value) → Search entries [] → All Misses entries
  none_match [] s = tt
  none_match (entry ∷ rest) (misses _ _ _ m s) = (m, none_match rest s)

  one_matches :
      (entries : List Value) (id : Bytes) (b : Bool)
      → Search entries ((id, b) ∷ [])
      → Only entries id b
  one_matches [] id b s = elim s [ ]
  one_matches (entry ∷ rest) id b (misses _ _ _ m s) =
      let (before, at, after, q, is, x, y) = one_matches rest id b s in
      (entry ∷ before, at, after, ap (λ r. entry ∷ r) q, is, (m, x), y)
  one_matches (entry ∷ rest) id b (hits _ _ _ _ _ is s) =
      ([], entry, rest, refl, is, tt, none_match rest s)

  -- What a result says of the records.
  abbrev pub Finds : List Value → Reconciliation → Type 0
  Finds entries no_candidate = All Misses entries
  Finds entries pending_confirmation = (id : Bytes) × Only entries id false
  Finds entries (confirmed id) = Only entries id true
  Finds entries (stop_for_operator ids) =
      (found : List (Bytes × Bool)) × Search entries found
      × (2 ≤ length found)
      × (ids ≡ sort_by cmp (map (λ m. m.0) found))

  verdict-Finds :
      (entries : List Value) (found : List (Bytes × Bool))
      → Search entries found
      → Finds entries (verdict found)
  verdict-Finds entries [] s = none_match entries s
  verdict-Finds entries ((id, true) ∷ []) s = one_matches entries id true s
  verdict-Finds entries ((id, false) ∷ []) s = (id, one_matches entries id false s)
  verdict-Finds entries (a ∷ b ∷ rest) s = (a ∷ b ∷ rest, s, omega arith, refl)

  -- Where every record can be read, the search names a benchmark only if exactly one record matches
  -- the submission, and that one has confirmed; it waits only if exactly one matches and has not; it
  -- finds none only if no record matches; and otherwise it stops with the ids of all that match,
  -- sorted, which are two or more.
  pub reconcile_precommit-Finds :
      (entries : List Value) (r : Reconciliation)
      → reconcile_precommit json entries submitted ≡ ok r
      → Finds entries r
  unfolding reconcile_precommit
  reconcile_precommit-Finds entries r e =
      let (found, q, e') = >>=-eq-ok (matches_from json 0 entries submitted) _ e in
      subst (Finds entries) (ok_inj e')
        (verdict-Finds entries found (matches_from-Search 0 entries found q))
