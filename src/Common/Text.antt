-- ===== src/Common/Text.antt =====
-- `str` and `char`: the functions that the pool reads texts with, on lists of code points.
use Prim.Native.Nat.{ℕ, ◌+◌, ◌-◌, ◌*◌, ◌/◌, ◌%◌}
use mathlib.Core.Bool.{Bool, true, false, ◌&&◌, ◌||◌}
use mathlib.Core.List.{List, [], ◌∷◌, map}
use mathlib.Core.Option.{Option, none, some}
use tig_mining_pool_public.Common.Tests.{leb, ltb, ◌==◌, if◌then◌else◌}
use tig_mining_pool_public.Common.Bytes.{Bytes}

-- `char::is_whitespace`
unfoldable pub is_whitespace : ℕ → Bool
is_whitespace c =
    (leb 9 c && leb c 13)
    || c == 32
    || c == 133
    || c == 160
    || c == 5760
    || (leb 8192 c && leb c 8202)
    || c == 8232
    || c == 8233
    || c == 8239
    || c == 8287
    || c == 12288

-- `str::to_ascii_lowercase`
unfoldable pub to_ascii_lowercase : Bytes → Bytes
to_ascii_lowercase = map (λ c. if leb 65 c && leb c 90 then c + 32 else c)

-- The separator against the parts of what follows it.
abbrev pub part_at : Bool → ℕ → List Bytes → List Bytes
part_at true c parts = [] ∷ parts
part_at false c [] = (c ∷ []) ∷ []
part_at false c (part ∷ parts) = (c ∷ part) ∷ parts

-- `str::split` at a character: never empty.
unfoldable pub split : ℕ → Bytes → List Bytes
split separator [] = [] ∷ []
split separator (c ∷ rest) = part_at (c == separator) c (split separator rest)

-- `str::trim_start_matches`, for a test of the characters.
unfoldable pub trim_start : (ℕ → Bool) → Bytes → Bytes
trim_start p [] = []
trim_start p (c ∷ rest) = if p c then trim_start p rest else c ∷ rest

-- A character goes where all after it goes and it is blank.
abbrev pub trim_before : Bool → ℕ → Bytes → Bytes
trim_before blank c (d ∷ rest) = c ∷ d ∷ rest
trim_before true c [] = []
trim_before false c [] = c ∷ []

unfoldable pub trim_end : Bytes → Bytes
unfolding is_whitespace
trim_end [] = []
trim_end (c ∷ rest) = trim_before (is_whitespace c) c (trim_end rest)

-- `str::trim`
unfoldable pub trim : Bytes → Bytes
unfolding is_whitespace trim_start trim_end
trim s = trim_start is_whitespace (trim_end s)

-- `str::strip_prefix`
unfoldable pub strip_prefix : Bytes → Bytes → Option Bytes
strip_prefix [] s = some s
strip_prefix (p ∷ prefix) [] = none
strip_prefix (p ∷ prefix) (c ∷ s) = if p == c then strip_prefix prefix s else none

-- `str::split_once` at a character.
unfoldable pub split_once : ℕ → Bytes → Option (Bytes × Bytes)
split_once separator [] = none
split_once separator (c ∷ rest) =
    let later = split_once separator rest in
    if c == separator
    then some ([], rest)
    else elim later [ none ↦ none | some (before, after) ↦ some (c ∷ before, after) ]

-- The digits from `n` on, of a type with `size` values.
unfoldable pub digits_from : ℕ → ℕ → Bytes → Option ℕ
digits_from size n [] = some n
digits_from size n (c ∷ rest) =
    let rest_of = digits_from size (n * 10 + (c - 48)) rest in
    if (leb 48 c && leb c 57) && ltb (n * 10 + (c - 48)) size then rest_of else none

-- `str::parse` of an unsigned integer: digits, after at most one plus sign.
unfoldable pub parse_uint : ℕ → Bytes → Option ℕ
unfolding digits_from
parse_uint size [] = none
parse_uint size (c ∷ []) = digits_from size 0 (c ∷ [])
parse_uint size (c ∷ d ∷ rest) =
    if c == 43 then digits_from size 0 (d ∷ rest) else digits_from size 0 (c ∷ d ∷ rest)

-- `str::as_bytes`
abbrev pub utf8 : ℕ → Bytes → Bytes
utf8 c rest =
    if ltb c 128
    then c ∷ rest
    else (if ltb c 2048
        then (192 + c / 64) ∷ (128 + c % 64) ∷ rest
        else (if ltb c 65536
            then (224 + c / 4096) ∷ (128 + (c / 64) % 64) ∷ (128 + c % 64) ∷ rest
            else (240 + c / 262144)
              ∷ (128 + (c / 4096) % 64)
              ∷ (128 + (c / 64) % 64)
              ∷ (128 + c % 64)
              ∷ rest))

unfoldable pub as_bytes : Bytes → Bytes
as_bytes [] = []
as_bytes (c ∷ rest) = utf8 c (as_bytes rest)

abbrev pub is_prefix : Option Bytes → Bool
is_prefix none = false
is_prefix (some rest) = true

-- `str::contains`, of a text.
unfoldable pub contains_text : Bytes → Bytes → Bool
unfolding strip_prefix
contains_text part [] = is_prefix (strip_prefix part [])
contains_text part (c ∷ rest) = is_prefix (strip_prefix part (c ∷ rest)) || contains_text part rest
