-- ===== src/Str/Decimal/RoundTrip.antt =====
-- A number that fits its type is read back from its print.
use mathlib.Core.Option
use mathlib.Core.List.{cons-ne-nil}
use ra_multiplex.Base.{
  ℕ, zero, suc, ◌+◌, ◌/◌, ◌%◌, ◌≤◌, ◌<◌, ◌≡◌, ◌≢◌, refl, [], ◌∷◌, some, arith, Text, ◌==◌, nat_eq,
  All, Bool-cases, inl, inr, ◌∙◌, ap,
}
use ra_multiplex.Base.Int.{ℤ, pos, negsuc, pos_part, neg_part}
use ra_multiplex.Str.Decimal.{
  usize_max, i64_max, digits, display_usize, display_i64, scan, parse_usize, parse_i64, negate,
}

abbrev pub IsDigit : ℕ → Type 0
IsDigit c = (b'0' ≤ c) × (c ≤ b'9')

abbrev pub Fits : ℤ → Type 0
Fits n = (pos_part n ≤ i64_max) × (neg_part n ≤ suc i64_max)

scan-digits :
    (f n bound : ℕ) (out : Text)
    → n < f
    → n ≤ bound
    → scan bound (digits f n out) 0 ≡ scan bound out n
unfolding digits scan
scan-digits zero n bound out h k = elim h [ ]
scan-digits (suc f) n bound out h k =
    ground (arith, scan-digits f (n / 10) bound ((b'0' + n % 10) ∷ out))

digits-IsDigit : (f n : ℕ) (out : Text) → All IsDigit out → All IsDigit (digits f n out)
unfolding digits
digits-IsDigit zero n out h = h
digits-IsDigit (suc f) n out h =
    let out' = (b'0' + n % 10) ∷ out in
    let h' : All IsDigit out' = (omega arith, h) in
    elim (Bool-cases (n / 10 == 0)) [
      | inl last ↦ rw last h'
      | inr more ↦ rw more (digits-IsDigit f (n / 10) out' h')
    ]

digits-ne-nil : (f n : ℕ) (out : Text) → out ≢ [] → digits f n out ≢ []
unfolding digits
digits-ne-nil zero n out h = h
digits-ne-nil (suc f) n out h =
    let out' = (b'0' + n % 10) ∷ out in
    ground (arith, digits-ne-nil f (n / 10) out' (cons-ne-nil _ _))

pub display_usize-IsDigit : (n : ℕ) → All IsDigit (display_usize n)
unfolding display_usize
display_usize-IsDigit n = digits-IsDigit (suc n) n [] tt

display_usize-ne-nil : (n : ℕ) → display_usize n ≢ []
unfolding display_usize digits
display_usize-ne-nil n =
    let out = (b'0' + n % 10) ∷ [] in ground (arith, digits-ne-nil n (n / 10) out (cons-ne-nil _ _))

scan-display_usize : (n bound : ℕ) → n ≤ bound → scan bound (display_usize n) 0 ≡ some n
unfolding display_usize scan
scan-display_usize n bound h = scan-digits (suc n) n bound [] (omega arith) h

-- A text of digits has no sign.
parse_usize-scan : (s : Text) → s ≢ [] → All IsDigit s → parse_usize s ≡ scan usize_max s 0
unfolding parse_usize
parse_usize-scan [] h d = absurd (h refl)
parse_usize-scan (c ∷ []) h d = ground arith
parse_usize-scan (c ∷ e ∷ s) h d = ground arith

parse_i64-scan :
    (s : Text) → s ≢ [] → All IsDigit s → parse_i64 s ≡ Option.map pos (scan i64_max s 0)
unfolding parse_i64
parse_i64-scan [] h d = absurd (h refl)
parse_i64-scan (c ∷ []) h d = ground arith
parse_i64-scan (c ∷ e ∷ s) h d = ground arith

parse_i64_negative :
    (s : Text) → s ≢ [] → parse_i64 (b'-' ∷ s) ≡ Option.map negate (scan (suc i64_max) s 0)
unfolding parse_i64
parse_i64_negative [] h = absurd (h refl)
parse_i64_negative (c ∷ s) h = refl

pub parse_usize-display_usize : (n : ℕ) → n ≤ usize_max → parse_usize (display_usize n) ≡ some n
parse_usize-display_usize n h =
    parse_usize-scan _ (display_usize-ne-nil n) (display_usize-IsDigit n)
    ∙ scan-display_usize n usize_max h

pub parse_i64-display_i64 : (n : ℤ) → Fits n → parse_i64 (display_i64 n) ≡ some n
unfolding display_i64
parse_i64-display_i64 (pos n) h =
    parse_i64-scan _ (display_usize-ne-nil n) (display_usize-IsDigit n)
    ∙ ap (Option.map pos) (scan-display_usize n i64_max h.0)
parse_i64-display_i64 (negsuc n) h =
    parse_i64_negative _ (display_usize-ne-nil (suc n))
    ∙ ap (Option.map negate) (scan-display_usize (suc n) (suc i64_max) h.1)
