-- ===== src/Str/Split.antt =====
-- Splitting undoes joining.
use ra_multiplex.Base.{
  ℕ, ◌≡◌, ◌≢◌, refl, ap, [], ◌∷◌, ◌++◌, some, arith, Text, nat_eq, text_eq, All, length,
  length-append,
}
use ra_multiplex.Str.{strip_prefix, strip_suffix, split_once}

abbrev pub Lacks : ℕ → Text → Type 0
Lacks b = All (λ c. c ≢ b)

pub strip_prefix-append : (p s : Text) → strip_prefix p (p ++ s) ≡ some s
unfolding strip_prefix
strip_prefix-append [] s = refl
strip_prefix-append (c ∷ p) s = ground (arith, nat_eq.beq_iff c c, strip_prefix-append p s)

-- What `strip_prefix` leaves, with the prefix put back, is the text.
pub strip_prefix_sound : (p s r : Text) → strip_prefix p s ≡ some r → s ≡ p ++ r
unfolding strip_prefix
strip_prefix_sound [] s r h = ground arith
strip_prefix_sound (c ∷ p) [] r h = cc
strip_prefix_sound (c ∷ p) (d ∷ s) r h =
    ground (arith, nat_eq.beq_iff c d, strip_prefix_sound p s r)

-- A text splits at the first place where the separator begins.
pub split_once-append :
    (c : ℕ) (sep a b : Text) → Lacks c a → split_once (c ∷ sep) (a ++ (c ∷ sep) ++ b) ≡ some (a, b)
unfolding split_once
split_once-append c sep [] b h = rw (strip_prefix-append (c ∷ sep) b, split_once)
split_once-append c sep (x ∷ a) b h =
    unfold strip_prefix in ground (arith, nat_eq.beq_iff c x, split_once-append c sep a b h.1)

length-strip : (a b : Text) (c : ℕ) → (c ∷ a ++ b) ≢ b
length-strip a b c e = omega (arith, ap length e, length-append a b)

pub strip_suffix-append : (suffix s : Text) → strip_suffix suffix (s ++ suffix) ≡ some s
unfolding strip_suffix
strip_suffix-append [] [] = ground (arith, text_eq.beq_iff [] [])
strip_suffix-append (c ∷ suffix) [] = ground (arith, text_eq.beq_iff (c ∷ suffix) (c ∷ suffix))
strip_suffix-append suffix (c ∷ s) = ground (
  arith,
  text_eq.beq_iff (c ∷ s ++ suffix) suffix,
  length-strip s suffix c,
  strip_suffix-append suffix s,
)
