-- ===== src/Domain/Trace/Canonical.antt =====
-- crates/pool-domain/src/trace.rs: a trace id has one text.
use tig_mining_pool_public.Common.{
  ℕ, zero, suc, ◌+◌, ◌*◌, ◌/◌, ◌%◌, ◌<◌, ◌≡◌, ◌↔◌, refl, ◌∙◌, subst, true, false, ◌==◌, [], ◌∷◌,
  length, All, ok, guard, fail_if, guard-ok, fail_if-ok, >>=-eq-ok, ok_inj, arith,
}
use tig_mining_pool_public.Common.Bytes.{Bytes}
use tig_mining_pool_public.Domain.Trace.{
  wrong_length, not_lowercase_hex, all_zero, nibble, to_hex, len, is_digit, all_digits, digit,
  decode, is_zero, from_str,
}

-- Sixteen bytes, not all of them zero.
pub record IsId (id : Bytes) : Type 0 where
  pub sized : length id ≡ 16
  pub bytes : All (λ b. b < 256) id
  pub valid : is_zero id ≡ false

nibble-digit : (c : ℕ) → is_digit c ≡ true → nibble (digit c) ≡ c
nibble-digit c h = ground arith

digit-nibble : (n : ℕ) → n < 16 → digit (nibble n) ≡ n
digit-nibble n h = ground arith

digit_small : (c : ℕ) → is_digit c ≡ true → digit c < 16
digit_small c h = ground arith

nibble-IsDigit : (n : ℕ) → n < 16 → is_digit (nibble n) ≡ true
nibble-IsDigit n h = ground arith

high : (x y : ℕ) → y < 16 → (16 * x + y) / 16 ≡ x
high x y h = omega arith

low : (x y : ℕ) → y < 16 → (16 * x + y) % 16 ≡ y
low x y h = omega arith

digits-len : (s : Bytes) → all_digits s ≡ true → len s ≡ length s
unfolding len all_digits
digits-len [] h = refl
digits-len (c ∷ rest) h = ground (arith, digits-len rest)

one_byte : (b : ℕ) → b < 256 → 16 * digit (nibble (b / 16)) + digit (nibble (b % 16)) ≡ b
one_byte b h =
    rw (digit-nibble (b / 16) (omega arith), digit-nibble (b % 16) (omega arith)) (omega arith)

decode-to_hex : (id : Bytes) → All (λ b. b < 256) id → decode (to_hex id) ≡ id
unfolding decode to_hex
decode-to_hex [] h = refl
decode-to_hex (b ∷ rest) h = λ i. one_byte b h.0 i ∷ decode-to_hex rest h.1 i

length-to_hex : (id : Bytes) → length (to_hex id) ≡ length id + length id
unfolding to_hex
length-to_hex [] = refl
length-to_hex (b ∷ rest) = omega (arith, length-to_hex rest)

to_hex-digits : (id : Bytes) → All (λ b. b < 256) id → all_digits (to_hex id) ≡ true
unfolding to_hex all_digits
to_hex-digits [] h = refl
to_hex-digits (b ∷ rest) h =
    rw (nibble-IsDigit (b / 16) (omega arith), nibble-IsDigit (b % 16) (omega arith))
      (to_hex-digits rest h.1)

-- What a text of digits, two for each byte, decodes to.
decoded :
    (n : ℕ) (s : Bytes)
    → length s ≡ n + n
    → all_digits s ≡ true
    → (to_hex (decode s) ≡ s) × (length (decode s) ≡ n) × All (λ b. b < 256) (decode s)
unfolding to_hex decode all_digits
decoded n [] h d = (refl, omega arith, tt)
decoded n (a ∷ []) h d = absurd (omega arith)
decoded zero (a ∷ b ∷ rest) h d = absurd (omega arith)
decoded (suc n) (a ∷ b ∷ rest) h d =
    let x : is_digit a ≡ true = ground arith in
    let y : is_digit b ≡ true = ground arith in
    let (t, l, k) = decoded n rest (omega arith) (ground arith) in
    let small = digit_small b y in
    let smaller = digit_small a x in
    (
      rw
          (
            high (digit a) (digit b) small,
            low (digit a) (digit b) small,
            nibble-digit a x,
            nibble-digit b y,
            t,
          )
          refl,
      omega arith,
      (omega arith, k),
    )

sized_of : (l n : ℕ) → (l == 32) ≡ true → l ≡ n → n ≡ 16 + 16
sized_of l n h e = ground arith

written : (id : Bytes) → IsId id → from_str (to_hex id) ≡ ok id
unfolding from_str
written id h =
    let d = to_hex-digits id h.bytes in
    let l : (len (to_hex id) == 32) ≡ true =
      is_32 (length id) _ h.sized (digits-len (to_hex id) d ∙ length-to_hex id) in
    rw (l, d, decode-to_hex id h.bytes, h.valid) refl
  where
    is_32 : (n l : ℕ) → n ≡ 16 → l ≡ n + n → (l == 32) ≡ true
    is_32 n l e q = ground arith

-- A text is read as a trace id exactly where it is the hexadecimal text of one: of sixteen bytes, not
-- all zero. So an id that is written is read back as it was, and no other text is read as it.
pub from_str-to_hex_iff : (s id : Bytes) → (from_str s ≡ ok id) ↔ (IsId id × (to_hex id ≡ s))
unfolding from_str
from_str-to_hex_iff s id = (
  λ e.
      let (_, l, e₁) = >>=-eq-ok (guard (len s == 32) (wrong_length (length s))) _ e in
      let (_, d, e₂) = >>=-eq-ok (guard (all_digits s) (not_lowercase_hex s)) _ e₁ in
      let (_, z, e₃) = >>=-eq-ok (fail_if (is_zero (decode s)) all_zero) _ e₂ in
      let whole : length s ≡ 16 + 16 =
        sized_of (len s) (length s) (guard-ok _ _ _ l) (digits-len s (guard-ok _ _ _ d)) in
      let (t, n, k) = decoded 16 s whole (guard-ok _ _ _ d) in
      subst (λ x. IsId x × (to_hex x ≡ s)) (ok_inj e₃)
        (record { sized = n; bytes = k; valid = fail_if-ok _ _ _ z }, t),
  λ h. subst (λ x. from_str x ≡ ok id) h.1 (written id h.0),
)
