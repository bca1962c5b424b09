-- ===== src/Str.antt =====
-- The functions of Rust's `str` that the program calls, on the bytes of a text.
pub mod Decimal
pub mod Split
pub mod Utf8
pub mod FilePath
use mathlib.Core.Option
use ra_multiplex.Base.{
  ℕ, ◌+◌, List, [], ◌∷◌, Bool, ◌&&◌, Option, none, some, Text, ◌==◌, leb, if◌then◌else◌, list_eq,
  nat_eq, map, true, false,
}

-- `str::strip_prefix`
unfoldable pub strip_prefix : Text → Text → Option Text
strip_prefix [] s = some s
strip_prefix (p ∷ ps) [] = none
strip_prefix (p ∷ ps) (c ∷ s) = if p == c then strip_prefix ps s else none

-- `str::starts_with`
unfoldable pub starts_with : Text → Text → Bool
unfolding strip_prefix
starts_with prefix s = elim (strip_prefix prefix s) [ some rest ↦ true | none ↦ false ]

-- `[u8]::strip_suffix`
unfoldable pub strip_suffix : Text → Text → Option Text
strip_suffix suffix [] = if [] == suffix then some [] else none
strip_suffix suffix (c ∷ s) =
    if (c ∷ s) == suffix then some [] else Option.map (◌∷◌ c) (strip_suffix suffix s)

-- `str::split_once`
unfoldable pub split_once : Text → Text → Option (Text × Text)
unfolding strip_prefix
split_once sep [] = Option.map (λ rest. ([], rest)) (strip_prefix sep [])
split_once sep (c ∷ s) = elim (strip_prefix sep (c ∷ s)) [
  | some rest ↦ some ([], rest)
  | none ↦ Option.map (λ p. (c ∷ p.0, p.1)) (split_once sep s)
]

-- `u8::to_ascii_lowercase`
unfoldable pub lower_byte : ℕ → ℕ
lower_byte c = if leb b'A' c && leb c b'Z' then c + 32 else c

-- `str::to_ascii_lowercase`
unfoldable pub to_ascii_lowercase : Text → Text
unfolding lower_byte
to_ascii_lowercase = map lower_byte
