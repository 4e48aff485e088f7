-- ===== src/Domain/Trace.antt =====
-- crates/pool-domain/src/trace.rs: the trace id of a unit of work, as the list of its 16 bytes. `draw`
-- takes what the operating system answers, one answer for each attempt.
pub mod Canonical
use tig_mining_pool_public.Common.{
  ℕ, ◌+◌, ◌-◌, ◌*◌, ◌/◌, ◌%◌, ltb, leb, ◌==◌, Bool, true, false, not, ◌&&◌, ◌||◌, if◌then◌else◌,
  Option, none, some, List, [], ◌∷◌, length, Result, ok, err, ◌>>=◌, ◌>>◌, guard, fail_if,
}
use tig_mining_pool_public.Common.Bytes.{Bytes}

pub data TraceIdError : Type 0 where
  wrong_length : ℕ → TraceIdError
  not_lowercase_hex : Bytes → TraceIdError
  all_zero : TraceIdError
  unavailable : Bytes → TraceIdError

-- One hexadecimal digit, as its character.
abbrev pub nibble : ℕ → ℕ
nibble n = if ltb n 10 then 48 + n else 87 + n

-- `to_hex`
unfoldable pub to_hex : Bytes → Bytes
to_hex [] = []
to_hex (b ∷ rest) = nibble (b / 16) ∷ nibble (b % 16) ∷ to_hex rest

-- The bytes of a character in UTF-8, and `str::len`.
abbrev pub utf8_len : ℕ → ℕ
utf8_len c = if ltb c 128 then 1 else (if ltb c 2048 then 2 else (if ltb c 65536 then 3 else 4))

unfoldable pub len : Bytes → ℕ
len [] = 0
len (c ∷ rest) = utf8_len c + len rest

abbrev pub is_digit : ℕ → Bool
is_digit c = (leb 48 c && leb c 57) || (leb 97 c && leb c 102)

unfoldable pub all_digits : Bytes → Bool
all_digits [] = true
all_digits (c ∷ rest) = is_digit c && all_digits rest

-- The value of a digit.
abbrev pub digit : ℕ → ℕ
digit c = if ltb c 58 then c - 48 else c - 87

-- `u8::from_str_radix` on each pair of digits in turn.
unfoldable pub decode : Bytes → Bytes
decode [] = []
decode (a ∷ []) = []
decode (a ∷ b ∷ rest) = (16 * digit a + digit b) ∷ decode rest

unfoldable pub is_zero : Bytes → Bool
is_zero [] = true
is_zero (b ∷ rest) = b == 0 && is_zero rest

-- `from_str`
unfoldable pub from_str : Bytes → Result TraceIdError Bytes
unfolding len all_digits decode is_zero
from_str s = do
  guard (len s == 32) (wrong_length (length s))
  guard (all_digits s) (not_lowercase_hex s)
  fail_if (is_zero (decode s)) all_zero
  ok (decode s)

-- `draw`, over what the operating system fills the bytes with at each attempt.
unfoldable pub draw : List (Result Bytes Bytes) → Option (Result TraceIdError Bytes)
unfolding is_zero
draw [] = none
draw (err e ∷ rest) = some (err (unavailable e))
draw (ok bytes ∷ rest) = let again = draw rest in if is_zero bytes then again else some (ok bytes)
