-- ===== src/Tests/Traces.antt =====
-- A trace id with small and large bytes, and its text.
use tig_mining_pool_public.Common.{◌≡◌, ◌↔◌, refl, some, ok, err, [], ◌∷◌}
use tig_mining_pool_public.Common.Bytes.{Bytes, codes}
use tig_mining_pool_public.Domain.Trace.{
  to_hex, from_str, draw, is_zero, len, all_digits, decode, all_zero,
}
use tig_mining_pool_public.Domain.Trace.Canonical.{IsId, from_str-to_hex_iff}

abbrev id : Bytes
id = 0 ∷ 15 ∷ 16 ∷ 255 ∷ 1 ∷ 2 ∷ 3 ∷ 4 ∷ 5 ∷ 6 ∷ 7 ∷ 8 ∷ 9 ∷ 10 ∷ 11 ∷ 12 ∷ []

abbrev text : Bytes
text = codes "000f10ff0102030405060708090a0b0c"

reads : from_str text ≡ ok id
unfolding from_str len all_digits decode is_zero
reads = refl

refuses_zero : from_str (codes "00000000000000000000000000000000") ≡ err all_zero
unfolding from_str len all_digits decode is_zero
refuses_zero = refl

draws_again : draw (ok (0 ∷ 0 ∷ []) ∷ ok (0 ∷ 1 ∷ []) ∷ []) ≡ some (ok (0 ∷ 1 ∷ []))
unfolding draw is_zero
draws_again = refl

from_str-to_hex_iff_example : (from_str text ≡ ok id) ↔ (IsId id × (to_hex id ≡ text))
from_str-to_hex_iff_example = from_str-to_hex_iff text id
