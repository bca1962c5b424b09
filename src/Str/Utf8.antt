-- ===== src/Str/Utf8.antt =====
-- `str::from_utf8` as a test: the well-formed byte sequences of the Unicode standard.
use ra_multiplex.Base.{
  ℕ, ◌-◌, ◌≤◌, ◌≡◌, refl, [], ◌∷◌, Option, none, some, Bool, true, false, ◌&&◌, Text, leb, arith,
  if◌then◌else◌, All, ◌==◌, nat_eq,
}

-- Between two characters, or within one: how many bytes follow, and the range of the next.
pub data State : Type 0 where
  between : State
  within : ℕ → ℕ → ℕ → State

abbrev in_range : ℕ → ℕ → ℕ → Bool
in_range lo hi c = leb lo c && leb c hi

unfoldable pub first_byte : ℕ → Option State
first_byte c =
    if leb c 0x7f
    then some between
    else if in_range 0xc2 0xdf c
    then some (within 1 0x80 0xbf)
    else if c == 0xe0
    then some (within 2 0xa0 0xbf)
    else if c == 0xed
    then some (within 2 0x80 0x9f)
    else if in_range 0xe1 0xef c
    then some (within 2 0x80 0xbf)
    else if c == 0xf0
    then some (within 3 0x90 0xbf)
    else if in_range 0xf1 0xf3 c
    then some (within 3 0x80 0xbf)
    else if c == 0xf4
    then some (within 3 0x80 0x8f)
    else none

unfoldable pub next_byte : State → ℕ → Option State
unfolding first_byte
next_byte between c = first_byte c
next_byte (within n lo hi) c =
    if in_range lo hi c then some (if leb n 1 then between else within (n - 1) 0x80 0xbf) else none

unfoldable pub scan_utf8 : Option State → Text → Bool
unfolding next_byte
scan_utf8 none s = false
scan_utf8 (some between) [] = true
scan_utf8 (some (within n lo hi)) [] = false
scan_utf8 (some q) (c ∷ s) = scan_utf8 (next_byte q c) s

unfoldable pub is_utf8 : Text → Bool
unfolding scan_utf8
is_utf8 s = scan_utf8 (some between) s

abbrev pub IsAscii : Text → Type 0
IsAscii = All (λ c. c ≤ 0x7f)

-- ASCII is a subset of UTF-8.
pub IsAscii-is_utf8 : (s : Text) → IsAscii s → is_utf8 s ≡ true
unfolding is_utf8
IsAscii-is_utf8 [] h = refl
IsAscii-is_utf8 (c ∷ s) h = ground (arith, IsAscii-is_utf8 s h.1)
