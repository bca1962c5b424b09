-- ===== src/Lsp/Transport/Framing.antt =====
-- What is written to a stream is read back from it.
use ra_multiplex.Base.{
  ℕ, ◌≤◌, ◌≡◌, refl, subst, ◌∙◌, Text, codes, [], ◌∷◌, ◌++◌, append_assoc, none, some, nat_eq,
  list_eq, list_beq, arith, length, All, All-append, ok,
}
use ra_multiplex.Str.{strip_suffix, to_ascii_lowercase}
use ra_multiplex.Str.Split.{Lacks, split_once-append, strip_suffix-append}
use ra_multiplex.Str.Utf8.{is_utf8, IsAscii, IsAscii-is_utf8}
use ra_multiplex.Str.Decimal.{usize_max, display_usize}
use ra_multiplex.Str.Decimal.RoundTrip.{IsDigit, display_usize-IsDigit, parse_usize-display_usize}
use ra_multiplex.Io.{done, AsyncBufRead}
use ra_multiplex.Lsp.Transport.Headers.{
  blank, content_length, parse_text, parse_line, header_line, header_round, header_loop,
  read_header, set_length,
}
use ra_multiplex.Lsp.Transport.{MessageJson, content_header, parse_body, after_header, read_message}

-- What the program relies on of a buffered reader: the bytes that are still to come are a text, and
-- each of its two operations takes what it asked for from the front, if that is there.
pub record Delivers {R : Type 0} (io : AsyncBufRead R) (content : R → Text) : Type 0 where
  pub line_at :
      (r : R) (d : ℕ) (line rest : Text)
      → Lacks d line
      → content r ≡ line ++ d ∷ rest
      → (r' : R) × (io.read_until d r ≡ (done (line ++ d ∷ []), r')) × (content r' ≡ rest)
  pub exact_at :
      (r : R) (body rest : Text)
      → content r ≡ body ++ rest
      → (r' : R) × (io.read_exact (length body) r ≡ (done body, r')) × (content r' ≡ rest)

abbrev pub crlf : Text
crlf = codes "\r\n"

abbrev length_line : ℕ → Text
length_line n = codes "Content-Length: " ++ display_usize n

digits_IsAscii : (s : Text) → All IsDigit s → IsAscii s
digits_IsAscii [] h = tt
digits_IsAscii (c ∷ s) h = (omega arith, digits_IsAscii s h.1)

digits_Lacks : (s : Text) → All IsDigit s → Lacks b'\n' s
digits_Lacks [] h = tt
digits_Lacks (c ∷ s) h = ((λ e. omega arith), digits_Lacks s h.1)

length_line-IsAscii : (n : ℕ) → IsAscii (length_line n)
length_line-IsAscii n =
    All-append _ (codes "Content-Length: ") (display_usize n) (omega arith)
      (digits_IsAscii _ (display_usize-IsDigit n))

-- The line is recognised, in any case of its letters.
parse_line-length_line :
    (n : ℕ) → parse_line (length_line n ++ crlf) ≡ content_length (display_usize n)
unfolding parse_line to_ascii_lowercase list_beq
parse_line-length_line n = rw (
  parse_line,
  strip_suffix-append crlf (length_line n),
  IsAscii-is_utf8 (length_line n) (length_line-IsAscii n),
  parse_text,
  split_once-append b':' (codes " ") (codes "Content-Length") (display_usize n) (omega arith),
)

parse_line-blank : parse_line crlf ≡ blank
unfolding parse_line strip_suffix list_beq is_utf8
parse_line-blank = refl

-- The first line of a frame, up to its line feed.
length_line-Lacks : (n : ℕ) → Lacks b'\n' (length_line n ++ b'\r' ∷ [])
length_line-Lacks n =
    All-append _ (length_line n) (b'\r' ∷ [])
      (All-append _ (codes "Content-Length: ") (display_usize n) (omega arith)
        (digits_Lacks _ (display_usize-IsDigit n)))
      (omega arith)

-- A frame: the header for a body, an empty line, and the body.
abbrev pub frame : Text → Text
frame body = content_header body ++ body

frame_lines :
    (body rest : Text)
    → frame body ++ rest
      ≡ (length_line (length body) ++ b'\r' ∷ []) ++ b'\n' ∷ (crlf ++ (body ++ rest))
unfolding content_header
frame_lines body rest = simp append_assoc

module _ {R : Type 0} (io : AsyncBufRead R) (content : R → Text)
    (delivers : Delivers io content) where
  -- Two rounds of the loop over the two lines of a header.
  header_rounds :
      (r r1 r2 : R) (n : ℕ)
      → n ≤ usize_max
      → io.read_until b'\n' r ≡ (done (length_line n ++ crlf), r1)
      → io.read_until b'\n' r1 ≡ (done crlf, r2)
      → read_header io r ≡ some (ok (some (record { content_length = n; content_type = none })), r2)
  unfolding read_header
  header_rounds r r1 r2 n fits e1 e2 = rw (
    read_header,
    header_loop,
    e1,
    header_round,
    parse_line-length_line n,
    header_line,
    set_length,
    parse_usize-display_usize n fits,
    e2,
    header_round,
    parse_line-blank,
  )

  -- The header of a frame is read, and nothing behind it.
  header_read :
      (r : R) (body rest : Text)
      → length body ≤ usize_max
      → content r ≡ frame body ++ rest
      → (r' : R) × (read_header io r
          ≡ some (ok (some (record { content_length = length body; content_type = none })), r'))
        × (content r' ≡ body ++ rest)
  header_read r body rest fits e =
      let line = length_line (length body) in
      let (r1, read1, rest1) =
        delivers.line_at r b'\n' (line ++ b'\r' ∷ []) (crlf ++ (body ++ rest))
          (length_line-Lacks (length body)) (e ∙ frame_lines body rest) in
      let (r2, read2, rest2) =
        delivers.line_at r1 b'\n' (b'\r' ∷ []) (body ++ rest) (omega arith) rest1 in
      let read1' =
        subst (λ l. io.read_until b'\n' r ≡ (done l, r1))
          (append_assoc line (b'\r' ∷ []) (b'\n' ∷ [])) read1 in
      (r2, header_rounds r r1 r2 (length body) fits read1' read2, rest2)

  module _ {V : Type 0} (json : MessageJson V) where
    -- A frame is taken from the stream whole, and its body is parsed.
    pub body_read :
        (r : R) (body rest : Text)
        → length body ≤ usize_max
        → content r ≡ frame body ++ rest
        → (r' : R) × (read_message io json (record { reader = r; batch = [] })
            ≡ some (parse_body io json (record { reader = r'; batch = [] }) body))
          × (content r' ≡ rest)
    unfolding read_message
    body_read r body rest fits e =
        let (r1, header, rest1) = header_read r body rest fits e in
        let (r2, exact, rest2) = delivers.exact_at r1 body rest rest1 in
        (r2, rw (read_message, header, after_header, exact), rest2)
