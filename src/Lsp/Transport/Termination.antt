-- ===== src/Lsp/Transport/Termination.antt =====
-- The loop of `read_header` ends within three lines, whatever the reader delivers.
use ra_multiplex.Base.{
  ℕ, zero, suc, ◌+◌, ◌<◌, ◌≢◌, Text, [], ◌∷◌, Option, none, some, arith, inl, inr, Option-cases,
}
use ra_multiplex.Str.Decimal.{parse_usize}
use ra_multiplex.Io.{IoResult, done, failed, AsyncBufRead}
use ra_multiplex.Lsp.Transport.Headers.{
  HeaderLine, blank, content_type, content_length, bad, HeaderResult, parse_line, header_line,
  header_round, header_loop, read_header,
}

-- How many headers may still come.
abbrev slot {ℓ} : {A : Type ℓ} → Option A → ℕ
slot none = 1
slot (some a) = 0

module _ {R : Type 0} (type : Option Text) (len : Option ℕ)
    (continue : Option Text → Option ℕ → HeaderResult R)
    (ends : (t : Option Text) (n : Option ℕ)
      → slot t + slot n < slot type + slot len
      → continue t n ≢ none) where
  header_line-ne-none : (r : R) (line : HeaderLine) → header_line continue r type len line ≢ none
  unfolding header_line
  header_line-ne-none r blank = ground arith
  header_line-ne-none r (content_type value) = ground (arith, ends (some value) len)
  header_line-ne-none r (content_length value) = elim (Option-cases (parse_usize value)) [
    | inl e ↦ ground arith
    | inr (n, e) ↦ ground (arith, ends type (some n))
  ]
  header_line-ne-none r (bad e) = ground arith

module _ {R : Type 0} (io : AsyncBufRead R) where
  header_round-ne-none :
      (fuel : ℕ) (type : Option Text) (len : Option ℕ) (res : IoResult Text × R)
      → ((r : R) (t : Option Text) (n : Option ℕ)
          → slot t + slot n < fuel
          → header_loop io fuel r t n ≢ none)
      → slot type + slot len < suc fuel
      → header_round (header_loop io fuel) type len res ≢ none
  unfolding header_round
  header_round-ne-none fuel type len (done [], r) ih h = ground arith
  header_round-ne-none fuel type len (done (c ∷ line), r) ih h =
      header_line-ne-none type len (header_loop io fuel r) (λ t n k. ih r t n (omega arith)) r
        (parse_line (c ∷ line))
  header_round-ne-none fuel type len (failed kind, r) ih h = ground arith

  header_loop-ne-none :
      (fuel : ℕ) (r : R) (type : Option Text) (len : Option ℕ)
      → slot type + slot len < fuel
      → header_loop io fuel r type len ≢ none
  unfolding header_loop
  header_loop-ne-none zero r type len h = elim h [ ]
  header_loop-ne-none (suc fuel) r type len h =
      header_round-ne-none fuel type len (io.read_until b'\n' r) (header_loop-ne-none fuel) h

  -- `read_header` returns for every reader, however many lines that delivers: after at most three of
  -- them it has a header, an error or the end of the stream, since each of the two headers may come
  -- once and any other line ends the loop. So the fuel of the model, three rounds, is enough.
  pub read_header-ne-none : (r : R) → read_header io r ≢ none
  unfolding read_header
  read_header-ne-none r = header_loop-ne-none 3 r none none (omega arith)
