-- ===== src/Common/Sift.antt =====
-- A loop that sorts its elements out: `for x in xs { if .. { excluded.insert(id, why); continue; }
-- .. kept.push(b); }`.
use mathlib.Core.Path.{◌≡◌, refl, sym, ◌∙◌}
use mathlib.Core.Logic.{inl, inr}
use mathlib.Core.Bool.{true, false}
use mathlib.Core.List.{List, [], ◌∷◌, ◌++◌, append-nil, append_assoc}
use mathlib.Core.Option.{Option, none, some}
use native.Mathlib.Omega.{arith}
use tig_mining_pool_public.Common.Results.{Result, ok, err}
use tig_mining_pool_public.Common.Lists.{All, In, All-In}
use tig_mining_pool_public.Common.Bytes.{Bytes, same, same_refl, cmp-swap}
use tig_mining_pool_public.Common.Map.{Map, get, insert, get-insert-same, get-insert_other}

pub record Sifted (E B : Type 0) : Type 0 where
  pub excluded : Map E
  pub kept : List B

module _ {A B E : Type 0} (id : A → Bytes) (test : A → Result E B) where
  abbrev sort_out : A → Result E B → Sifted E B → Sifted E B
  sort_out a (ok b) s = record s { kept = s.kept ++ (b ∷ []) }
  sort_out a (err why) s = record s { excluded = insert (id a) why s.excluded }

  unfoldable pub sift_from : Sifted E B → List A → Sifted E B
  sift_from s [] = s
  sift_from s (a ∷ rest) = sift_from (sort_out a (test a) s) rest

  unfoldable pub sift : List A → Sifted E B
  unfolding sift_from
  sift = sift_from (record { excluded = []; kept = [] })

  -- What passes, in the order of the list.
  abbrev add_passed : Result E B → List B → List B
  add_passed (ok b) bs = b ∷ bs
  add_passed (err why) bs = bs

  abbrev pub passed : List A → List B
  passed [] = []
  passed (a ∷ rest) = add_passed (test a) (passed rest)

  sort_out-kept :
      (a : A) (r : Result E B) (s : Sifted E B) (bs : List B)
      → (sort_out a r s).kept ++ bs ≡ s.kept ++ add_passed r bs
  sort_out-kept a (ok b) s bs = append_assoc s.kept (b ∷ []) bs
  sort_out-kept a (err why) s bs = refl

  sift_from-kept : (s : Sifted E B) (xs : List A) → (sift_from s xs).kept ≡ s.kept ++ passed xs
  unfolding sift_from
  sift_from-kept s [] = sym (append-nil s.kept)
  sift_from-kept s (a ∷ rest) =
      sift_from-kept (sort_out a (test a) s) rest ∙ sort_out-kept a (test a) s (passed rest)

  pub kept_passed : (xs : List A) → (sift xs).kept ≡ passed xs
  unfolding sift
  kept_passed xs = sift_from-kept _ xs

  passed-cons : (b : B) (r : Result E B) (bs : List B) → In b bs → In b (add_passed r bs)
  passed-cons b (ok b') bs i = inr i
  passed-cons b (err why) bs i = i

  abbrev Passes : B → List A → Type 0
  Passes b xs = (a : A) × In a xs × (test a ≡ ok b)

  passed_split :
      (b : B) (a : A) (rest : List A) (r : Result E B)
      → test a ≡ r
      → (In b (passed rest) → Passes b rest)
      → In b (add_passed r (passed rest))
      → Passes b (a ∷ rest)
  passed_split b a rest (ok b') e ih (inl q) = (a, inl refl, rw q e)
  passed_split b a rest (ok b') e ih (inr i) = let (x, j, f) = ih i in (x, inr j, f)
  passed_split b a rest (err why) e ih i = let (x, j, f) = ih i in (x, inr j, f)

  pub passed-Passes : (b : B) (xs : List A) → In b (passed xs) → Passes b xs
  passed-Passes b [] i = absurd i
  passed-Passes b (a ∷ rest) i = passed_split b a rest (test a) refl (passed-Passes b rest) i

  pub Passes-passed : (a : A) (b : B) (xs : List A) → In a xs → test a ≡ ok b → In b (passed xs)
  Passes-passed a b [] i e = absurd i
  Passes-passed a b (x ∷ rest) (inl q) e = let e' : test x ≡ ok b = rw q at e in rw e' (inl refl)
  Passes-passed a b (x ∷ rest) (inr i) e =
      passed-cons b (test x) (passed rest) (Passes-passed a b rest i e)

  -- No two elements have one key.
  abbrev pub IsDistinct : List A → Type 0
  IsDistinct [] = Unit
  IsDistinct (a ∷ rest) = All (λ x. same (id a) (id x) ≡ false) rest × IsDistinct rest

  abbrev pub reason : Result E B → Option E
  reason (ok b) = none
  reason (err why) = some why

  sort_out_other :
      (k : Bytes) (a : A) (r : Result E B) (s : Sifted E B)
      → same k (id a) ≡ false
      → get k (sort_out a r s).excluded ≡ get k s.excluded
  sort_out_other k a (ok b) s h = refl
  sort_out_other k a (err why) s h = get-insert_other k (id a) why s.excluded h

  sift_from_other :
      (k : Bytes) (s : Sifted E B) (xs : List A)
      → All (λ x. same k (id x) ≡ false) xs
      → get k (sift_from s xs).excluded ≡ get k s.excluded
  unfolding sift_from
  sift_from_other k s [] h = refl
  sift_from_other k s (a ∷ rest) h =
      sift_from_other k (sort_out a (test a) s) rest h.1 ∙ sort_out_other k a (test a) s h.0

  sort_out_self :
      (a : A) (r : Result E B) (s : Sifted E B)
      → get (id a) s.excluded ≡ none
      → get (id a) (sort_out a r s).excluded ≡ reason r
  sort_out_self a (ok b) s h = h
  sort_out_self a (err why) s h = get-insert-same (id a) (id a) why s.excluded (same_refl (id a))

  same_sym : (a b : Bytes) → same a b ≡ false → same b a ≡ false
  same_sym a b h = ground (arith, cmp-swap a b)

  sift_from-reason :
      (a : A) (s : Sifted E B) (xs : List A)
      → IsDistinct xs
      → In a xs
      → get (id a) s.excluded ≡ none
      → get (id a) (sift_from s xs).excluded ≡ reason (test a)
  unfolding sift_from
  sift_from-reason a s [] d i h = absurd i
  sift_from-reason a s (x ∷ rest) d (inl q) h =
      let d' : All (λ y. same (id a) (id y) ≡ false) rest = rw q d.0 in
      let h' : get (id x) s.excluded ≡ none = rw (← q) h in
      sift_from_other (id a) (sort_out x (test x) s) rest d' ∙ rw q (sort_out_self x (test x) s h')
  sift_from-reason a s (x ∷ rest) d (inr i) h =
      let apart : same (id a) (id x) ≡ false =
        same_sym (id x) (id a) (All-In (λ y. same (id x) (id y) ≡ false) a rest d.0 i) in
      sift_from-reason a (sort_out x (test x) s) rest d.1 i
        (sort_out_other (id a) x (test x) s apart ∙ h)

  -- Over distinct keys, what is recorded under an element's key is why it failed, and nothing where
  -- it passed.
  pub excluded_reason :
      (a : A) (xs : List A)
      → IsDistinct xs
      → In a xs
      → get (id a) (sift xs).excluded ≡ reason (test a)
  unfolding sift get
  excluded_reason a xs d i = sift_from-reason a _ xs d i refl

  -- Over distinct keys an element is told by its key.
  pub eq_of_key :
      (a b : A) (xs : List A)
      → IsDistinct xs
      → In a xs
      → In b xs
      → same (id a) (id b) ≡ true
      → a ≡ b
  eq_of_key a b [] d i j q = absurd i
  eq_of_key a b (x ∷ xs) d (inl p) (inl r) q = p ∙ sym r
  eq_of_key a b (x ∷ xs) d (inl p) (inr j) q =
      let other = All-In (λ y. same (id x) (id y) ≡ false) b xs d.0 j in
      let other' : same (id a) (id b) ≡ false = rw p other in cc
  eq_of_key a b (x ∷ xs) d (inr i) (inl r) q =
      let other = same_sym (id x) (id a) (All-In (λ y. same (id x) (id y) ≡ false) a xs d.0 i) in
      let other' : same (id a) (id b) ≡ false = rw r other in cc
  eq_of_key a b (x ∷ xs) d (inr i) (inr j) q = eq_of_key a b xs d.1 i j q
