-- ===== src/Workflow/Lifecycle/Faultless.antt =====
-- crates/pool-workflow/src/workflow.rs: no workflow ends with a member's fault.
use tig_mining_pool_public.Common.{
  ◌≡◌, refl, sym, ap, ◌∙◌, subst, true, Option, none, some, List, [], ◌∷◌, ◌++◌, inl, inr, ok, All,
  In, arith,
}
use tig_mining_pool_public.Common.Bytes.{Bytes, codes}
use tig_mining_pool_public.Common.Text.{strip_prefix, is_prefix, contains_text, to_ascii_lowercase}
use tig_mining_pool_public.Workflow.Lifecycle.{WorkflowState, Workflow, Fields, Db}
use tig_mining_pool_public.Workflow.Lifecycle.Table.{updated}
use tig_mining_pool_public.Workflow.Lifecycle.Decide.{
  has_marker, reject_member_fault, stopped_reason, fraud_reason,
}
use tig_mining_pool_public.Workflow.Lifecycle.Moves.{
  Move, submitting, obtaining, computing, stopping, proving, verifying, condemning, failing,
  expiring,
}
use tig_mining_pool_public.Workflow.Lifecycle.Kept.{Steps-All}
use tig_mining_pool_public.Workflow.Lifecycle.Steps.{Steps}

abbrev markers : List Bytes
markers = codes "member" ∷ codes "chargeable" ∷ codes "slash" ∷ []

-- A part of the reason is, in lower case, one of the words for a member's fault.
abbrev pub Mentions : Bytes → Type 0
Mentions reason =
    (before : Bytes) × (word : Bytes) × (after : Bytes) × (reason ≡ before ++ (word ++ after))
    × In (to_ascii_lowercase word) markers

abbrev Passes : Option Bytes → Type 0
Passes none = Unit
Passes (some reason) = ¬ Mentions reason

stripped : (m rest : Bytes) → is_prefix (strip_prefix m (m ++ rest)) ≡ true
unfolding strip_prefix
stripped [] rest = refl
stripped (c ∷ m) rest = ground (arith, stripped m rest)

contained : (before m after : Bytes) → contains_text m (before ++ (m ++ after)) ≡ true
unfolding contains_text
contained [] [] [] = refl
contained [] [] (c ∷ after) = refl
contained [] (c ∷ m) after = let p = stripped (c ∷ m) after in rw p refl
contained (c ∷ before) m after = let p = contained before m after in rw p (ground arith)

lowered-append :
    (a b : Bytes) → to_ascii_lowercase (a ++ b) ≡ to_ascii_lowercase a ++ to_ascii_lowercase b
unfolding to_ascii_lowercase
lowered-append [] b = refl
lowered-append (c ∷ a) b = rw (lowered-append a b) refl

marked :
    (reason m : Bytes) (ms : List Bytes)
    → In m ms
    → contains_text m reason ≡ true
    → has_marker reason ms ≡ true
unfolding has_marker
marked reason m [] i h = absurd i
marked reason m (x ∷ ms) (inl e) h = let q : contains_text x reason ≡ true = rw (← e) h in rw q refl
marked reason m (x ∷ ms) (inr i) h = let q = marked reason m ms i h in rw q (ground arith)

-- What passes has no such part, in whatever case.
passed : (reason : Bytes) → reject_member_fault reason ≡ ok tt → ¬ Mentions reason
unfolding reject_member_fault
passed reason q (before, word, after, at, i) =
    let low = to_ascii_lowercase in
    let lower : low reason ≡ low before ++ (low word ++ low after) =
      ap low at
      ∙ lowered-append before (word ++ after)
      ∙ ap (λ x. low before ++ x) (lowered-append word after) in
    let inside : contains_text (low word) (low reason) ≡ true =
      subst (λ x. contains_text (low word) x ≡ true) (sym lower)
        (contained (low before) (low word) (low after)) in
    let k = marked (low reason) (low word) markers i inside in let bad = rw k at q in cc

stopped_accepted : reject_member_fault stopped_reason ≡ ok tt
unfolding reject_member_fault
stopped_accepted = refl

stopped-Passes : Passes (some stopped_reason)
stopped-Passes = passed stopped_reason stopped_accepted

fraud_accepted : reject_member_fault fraud_reason ≡ ok tt
unfolding reject_member_fault
fraud_accepted = refl

fraud-Passes : Passes (some fraud_reason)
fraud-Passes = passed fraud_reason fraud_accepted

module _ {V : Type 0} where
  -- The reason, if any, mentions no fault of a member.
  abbrev pub IsFaultless : Workflow V → Type 0
  IsFaultless w = Passes w.terminal_reason

  Move-IsFaultless :
      (w : Workflow V) (to : WorkflowState) (f : Fields V)
      → IsFaultless w
      → Move w to f
      → IsFaultless (updated to f w)
  unfolding updated
  Move-IsFaultless w to f h (submitting which e q r) = rw r h
  Move-IsFaultless w to f h (obtaining e s q r) = rw r h
  Move-IsFaultless w to f h (computing s q r) = rw r h
  Move-IsFaultless w to f h (stopping b s q r) = rw r stopped-Passes
  Move-IsFaultless w to f h (proving s q r) = rw r h
  Move-IsFaultless w to f h (verifying b s q r) = rw r h
  Move-IsFaultless w to f h (condemning b id n s q r) = rw r fraud-Passes
  Move-IsFaultless w to f h (failing b reason m s q r) = rw r (passed reason m)
  Move-IsFaultless w to f h (expiring b reason m s q r) = rw r (passed reason m)

  -- No call can give a workflow a terminal reason with one of the words "member", "chargeable" and
  -- "slash" in it, each letter of the word in upper or in lower case: where no row has such a reason,
  -- no row gets one.
  pub Steps-IsFaultless :
      (s t : Db V) → Steps s t → All IsFaultless s.workflows → All IsFaultless t.workflows
  Steps-IsFaultless s t xs h =
      Steps-All IsFaultless (λ network id owner owner_id from. tt) Move-IsFaultless s t xs h
