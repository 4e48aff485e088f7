-- ===== src/Decision/Algorithm/Adopted.antt =====
-- crates/pool-decision/src/algorithm.rs: which algorithm `select_algorithm` names.
use tig_mining_pool_public.Common.{
  ℕ, ◌<◌, ◌≡◌, ◌⊎◌, ◌↔◌, inl, inr, refl, sym, ap, ◌∙◌, subst, compare, Ordering, Bool, true, false,
  not, ◌&&◌, ◌==◌, not_gt, Option, none, some, List, [], ◌∷◌, ◌++◌, map, keep, head?, ok, >>=-eq-ok,
  ok_inj, Bool-cases, arith, In, All, In-keep, keep-In, In-map, map-In, head?-some,
}
use mathlib.Core.List.{append_assoc, append-nil}
use tig_mining_pool_public.Common.Bytes.{Bytes, cmp, cmp-swap, cmp-not_gt_trans}
use tig_mining_pool_public.Common.Max.{max?, max?-none, max?-In, max?_upper}
use tig_mining_pool_public.Common.Sort.{
  IsComparison, IsAscending, sort_by, In-sort_by, sort_by-IsAscending, head?_least,
}
use tig_mining_pool_public.Decision.Algorithm.{
  Algorithm, AlgorithmSelectionInput, AlgorithmSelection, Filtered, filter_one, filter_all,
  filtered, by_id,
}
use tig_mining_pool_public.Decision.Algorithm.Rates.{track_rates}
use tig_mining_pool_public.Decision.Algorithm.Select.{tied_at, tied_for, select_algorithm}

-- Not banned, with a binary, and adopted.
pub record IsCandidate (a : Algorithm) : Type 0 where
  pub allowed : a.banned ≡ false
  pub built : a.has_successful_binary ≡ true
  pub adopted : 0 < a.adoption

abbrev is_candidate : Algorithm → Bool
is_candidate a = not a.banned && a.has_successful_binary && not (a.adoption == 0)

IsCandidate-iff : (a : Algorithm) → (is_candidate a ≡ true) ↔ IsCandidate a
IsCandidate-iff a = (
  λ e. record { allowed = ground arith; built = ground arith; adopted = ground arith },
  λ h. ground (arith, h.allowed, h.built, h.adopted),
)

filter_one-candidates :
    (a : Algorithm) (s : Filtered) (rest : List Algorithm)
    → (filter_one a s).candidates ++ keep is_candidate rest
      ≡ s.candidates ++ keep is_candidate (a ∷ rest)
unfolding filter_one
filter_one-candidates a s rest =
    ground (arith, append_assoc s.candidates (a ∷ []) (keep is_candidate rest))

filter_all-candidates :
    (xs : List Algorithm) (s : Filtered)
    → (filter_all xs s).candidates ≡ s.candidates ++ keep is_candidate xs
unfolding filter_all
filter_all-candidates [] s = sym (append-nil s.candidates)
filter_all-candidates (a ∷ rest) s =
    filter_all-candidates rest (filter_one a s) ∙ filter_one-candidates a s rest

by_id-IsComparison : IsComparison by_id
by_id-IsComparison = record {
  swapped = λ a b. cmp-swap a.id b.id;
  transitive = λ x y z. cmp-not_gt_trans x.id y.id z.id;
}

compare-IsComparison : IsComparison compare
compare-IsComparison = record {
  swapped = λ a b. ground arith;
  transitive = λ x y z h k. ground arith;
}

-- What was there in order stays in order.
All-keep : {A : Type 0} (P : A → Type 0) (p : A → Bool) (xs : List A) → All P xs → All P (keep p xs)
All-keep P p [] h = tt
All-keep P p (x ∷ xs) h = elim (Bool-cases (p x)) [
  | inl q ↦ rw q (h.0, All-keep P p xs h.1)
  | inr q ↦ rw q (All-keep P p xs h.1)
]

keep-IsAscending :
    {A : Type 0} (c : A → A → Ordering) (p : A → Bool) (xs : List A)
    → IsAscending c xs
    → IsAscending c (keep p xs)
keep-IsAscending c p [] h = tt
keep-IsAscending c p (x ∷ xs) h = elim (Bool-cases (p x)) [
  | inl q ↦ rw q (All-keep (λ y. not_gt (c x y) ≡ true) p xs h.0, keep-IsAscending c p xs h.1)
  | inr q ↦ rw q (keep-IsAscending c p xs h.1)
]

-- The greater adoption, and of equal ones the smaller id.
abbrev pub Precedes : Algorithm → Algorithm → Type 0
Precedes w b =
    (b.adoption < w.adoption) ⊎ ((b.adoption ≡ w.adoption) × (not_gt (cmp w.id b.id) ≡ true))

abbrev sorted : List Algorithm → List Algorithm
sorted xs = sort_by by_id (filtered xs).candidates

filtered-candidates : (xs : List Algorithm) → (filtered xs).candidates ≡ keep is_candidate xs
unfolding filter_all
filtered-candidates xs = filter_all-candidates xs _

In-sorted : (a : Algorithm) (xs : List Algorithm) → In a (sorted xs) → In a xs × IsCandidate a
In-sorted a xs i =
    let (j, e) =
      keep-In is_candidate a xs
        (subst (In a) (filtered-candidates xs) ((In-sort_by by_id a _).0 i)) in
    (j, (IsCandidate-iff a).0 e)

sorted-In : (a : Algorithm) (xs : List Algorithm) → In a xs → IsCandidate a → In a (sorted xs)
sorted-In a xs i h = (In-sort_by by_id a _).1 (
    subst (In a) (sym (filtered-candidates xs))
      (In-keep is_candidate a xs i ((IsCandidate-iff a).1 h)))

first_tied-Precedes :
    (w : Algorithm) (cs : List Algorithm) (m : Option ℕ)
    → max? compare (map (λ a. a.adoption) cs) ≡ m
    → IsAscending by_id cs
    → head? (tied_at m cs) ≡ some w
    → In w cs × ((b : Algorithm) → In b cs → Precedes w b)
first_tied-Precedes w cs none e asc h = cc
first_tied-Precedes w cs (some top) e asc h =
    let at_top = λ (a : Algorithm). a.adoption == top in
    let (i, least) =
      head?_least by_id by_id-IsComparison w (keep at_top cs) (keep-IsAscending by_id at_top cs asc)
        h in
    let (j, at) = keep-In at_top w cs i in
    (
      j,
      λ b k.
          let up = max?_upper compare compare-IsComparison top _ e b.adoption (In-map _ b cs k) in
          elim (Bool-cases (b.adoption == top)) [
            | inl q ↦ inr (ground arith, least b (In-keep at_top b cs k q))
            | inr q ↦ inl (ground arith)
          ],
    )

tied-none :
    (cs : List Algorithm) (m : Option ℕ)
    → max? compare (map (λ a. a.adoption) cs) ≡ m
    → head? (tied_at m cs) ≡ none
    → cs ≡ []
tied-none [] m e h = refl
tied-none (c ∷ cs) none e h = cc (max?-none compare (map (λ a. a.adoption) (c ∷ cs)) e)
tied-none (c ∷ cs) (some top) e h =
    let (a, i, q) = map-In (λ a. a.adoption) top (c ∷ cs) (max?-In compare top _ e) in
    let (x, f) =
      head?-some a (keep (λ a. a.adoption == top) (c ∷ cs))
        (In-keep (λ a. a.adoption == top) a (c ∷ cs) i (ground arith)) in
    absurd (ground arith)

-- What a selection names.
abbrev pub Names : List Algorithm → Option Bytes → Type 0
Names xs none = (a : Algorithm) → In a xs → ¬ IsCandidate a
Names xs (some id) =
    (w : Algorithm) × (w.id ≡ id)
    × In w xs
    × IsCandidate w
    × ((b : Algorithm) → In b xs → IsCandidate b → Precedes w b)

named :
    (xs : List Algorithm) (tied : List Algorithm)
    → tied_for (sorted xs) ≡ tied
    → Names xs (head? (map (λ a. a.id) tied))
unfolding tied_for
named xs [] e =
    λ a i h. subst (In a) (tied-none (sorted xs) _ refl (ap head? e)) (sorted-In a xs i h)
named xs (w ∷ rest) e =
    let (i, first) =
      first_tied-Precedes w (sorted xs) _ refl
        (sort_by-IsAscending by_id by_id-IsComparison (filtered xs).candidates) (ap head? e) in
    let (j, h) = In-sorted w xs i in (w, refl, j, h, λ b k c. first b (sorted-In b xs k c))

-- The selection names an algorithm that is not banned, has a binary and is adopted, and among
-- these has the greatest adoption and of equal ones the smallest id; it names none exactly where
-- there is no such algorithm.
pub select_algorithm-Names :
    (input : AlgorithmSelectionInput) (s : AlgorithmSelection)
    → select_algorithm input ≡ ok s
    → Names input.algorithms s.selected
unfolding select_algorithm
select_algorithm-Names input s e =
    let (per_track, _, q) =
      >>=-eq-ok
        (track_rates (sort_by by_id (filtered input.algorithms).step_one_survivors)
          input.algorithm_track_stats input.active_tracks)
        _ e in
    subst (Names input.algorithms) (ap (λ t. t.selected) (ok_inj q)) (named input.algorithms _ refl)
