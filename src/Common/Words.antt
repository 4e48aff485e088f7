-- ===== src/Common/Words.antt =====
-- The machine integers: a value is a native number below `2 ^ width`, and an operation that would
-- leave the range is the operation that the source calls.
use Prim.Native.Nat.{ℕ, ◌+◌, ◌*◌, ◌^◌}
use mathlib.Core.Option.{Option, none, some}
use tig_mining_pool_public.Common.Tests.{ltb, if◌then◌else◌}

-- The number of values of each type.
abbrev pub u32_size : ℕ
u32_size = 2 ^ 32

abbrev pub u64_size : ℕ
u64_size = 2 ^ 64

abbrev pub u128_size : ℕ
u128_size = 2 ^ 128

-- `checked_add` and `checked_mul` of the type with `size` values.
abbrev pub checked_add : ℕ → ℕ → ℕ → Option ℕ
checked_add size a b = if ltb (a + b) size then some (a + b) else none

abbrev pub checked_mul : ℕ → ℕ → ℕ → Option ℕ
checked_mul size a b = if ltb (a * b) size then some (a * b) else none
