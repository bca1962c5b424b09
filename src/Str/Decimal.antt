-- ===== src/Str/Decimal.antt =====
-- `usize` and `i64` in decimal: `Display` and `FromStr`.
pub mod RoundTrip
use mathlib.Core.Option
use ra_multiplex.Base.{
  ℕ, zero, suc, ◌+◌, ◌-◌, ◌*◌, ◌/◌, ◌%◌, ◌^◌, List, [], ◌∷◌, ◌&&◌, ◌||◌, Option, none, some, Text,
  ◌==◌, nat_eq, leb, if◌then◌else◌,
}
use ra_multiplex.Base.Int.{ℤ, pos, negsuc}

-- `usize::MAX` on a 64-bit target
abbrev pub usize_max : ℕ
usize_max = 2 ^ 64 - 1

abbrev pub i64_max : ℕ
i64_max = 2 ^ 63 - 1

-- The digits of `n` in front of `out`; a round divides `n` by ten, so fuel above `n` is enough.
unfoldable pub digits : ℕ → ℕ → Text → Text
digits zero n out = out
digits (suc f) n out =
    let out' = (b'0' + n % 10) ∷ out in
    let more = digits f (n / 10) out' in if n / 10 == 0 then out' else more

-- `format!("{n}")` of a `usize`
unfoldable pub display_usize : ℕ → Text
unfolding digits
display_usize n = digits (suc n) n []

-- `format!("{n}")` of an `i64`
unfoldable pub display_i64 : ℤ → Text
unfolding display_usize
display_i64 (pos n) = display_usize n
display_i64 (negsuc n) = b'-' ∷ display_usize (suc n)

-- The loop of `from_str_radix`: `checked_mul` and `checked_add` fail above `bound`.
unfoldable pub scan : ℕ → Text → ℕ → Option ℕ
scan bound [] n = some n
scan bound (c ∷ s) n =
    let n' = n * 10 + (c - b'0') in
    if leb b'0' c && leb c b'9' && leb n' bound then scan bound s n' else none

-- `usize::from_str`: one sign `+` may stand in front, and a sign alone is no number.
unfoldable pub parse_usize : Text → Option ℕ
unfolding scan
parse_usize [] = none
parse_usize (c ∷ []) = if c == b'+' || c == b'-' then none else scan usize_max (c ∷ []) 0
parse_usize (c ∷ d ∷ s) =
    if c == b'+' then scan usize_max (d ∷ s) 0 else scan usize_max (c ∷ d ∷ s) 0

abbrev pub negate : ℕ → ℤ
negate zero = pos 0
negate (suc n) = negsuc n

-- `i64::from_str`: below zero the bound is that of `i64::MIN`.
unfoldable pub parse_i64 : Text → Option ℤ
unfolding scan
parse_i64 [] = none
parse_i64 (c ∷ []) =
    if c == b'+' || c == b'-' then none else Option.map pos (scan i64_max (c ∷ []) 0)
parse_i64 (c ∷ d ∷ s) =
    if c == b'+'
    then Option.map pos (scan i64_max (d ∷ s) 0)
    else if c == b'-'
    then Option.map negate (scan (suc i64_max) (d ∷ s) 0)
    else Option.map pos (scan i64_max (c ∷ d ∷ s) 0)
