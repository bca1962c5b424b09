-- ===== src/Lsp/Transport/Headers.antt =====
-- src/lsp/transport.rs, `read_header`.
use ra_multiplex.Base.{
  ℕ, zero, suc, Text, codes, [], ◌∷◌, Option, none, some, Bool, true, false, ◌==◌, nat_eq, list_eq,
  if◌then◌else◌, Outcome, ok, err, Error,
}
use ra_multiplex.Str.{strip_suffix, split_once, to_ascii_lowercase}
use ra_multiplex.Str.Utf8.{is_utf8}
use ra_multiplex.Str.Decimal.{parse_usize}
use ra_multiplex.Io.{
  ErrorKind, connection_reset, connection_aborted, broken_pipe, IoResult, done, failed,
  AsyncBufRead,
}

pub record Header : Type 0 where
  pub content_length : ℕ
  pub content_type : Option Text

-- A line of the header without its terminator.
pub data HeaderLine : Type 0 where
  blank : HeaderLine
  content_type content_length : Text → HeaderLine
  bad : Error → HeaderLine

unfoldable pub named : Text → Text → HeaderLine
named name value =
    if name == codes "content-type"
    then content_type value
    else if name == codes "content-length"
    then content_length value
    else bad Error.unknown_header

unfoldable pub parse_text : Text → HeaderLine
unfolding named
parse_text [] = blank
parse_text (c ∷ s) = elim (split_once (codes ": ") (c ∷ s)) [
  | some (name, value) ↦ named (to_ascii_lowercase name) value
  | none ↦ bad Error.malformed_header
]

unfoldable pub parse_line : Text → HeaderLine
unfolding parse_text
parse_line line = elim (strip_suffix (codes "\r\n") line) [
  | none ↦ bad Error.malformed_header
  | some text ↦ if is_utf8 text then parse_text text else bad Error.invalid_utf8
]

-- The reader is closed for some reason.
abbrev pub is_closed : ErrorKind → Bool
is_closed connection_reset = true
is_closed connection_aborted = true
is_closed broken_pipe = true
is_closed _ = false

unfoldable pub finish_header : Option Text → Option ℕ → Outcome (Option Header)
finish_header type none = err Error.missing_content_length
finish_header type (some n) = ok (some (record { content_length = n; content_type = type }))

-- `none` means that the fuel ran out, which three rounds never do.
abbrev pub HeaderResult : Type 0 → Type 0
HeaderResult R = Option (Outcome (Option Header) × R)

module _ {R : Type 0} where
  -- A `content-length` line; a repeated header is refused before its value is read.
  unfoldable pub set_length : (Option ℕ → HeaderResult R) → R → Option ℕ → Text → HeaderResult R
  set_length continue r (some n) value = some (err Error.repeated_header, r)
  set_length continue r none value = elim (parse_usize value) [
    | some n ↦ continue (some n)
    | none ↦ some (err Error.bad_content_length, r)
  ]

  unfoldable pub set_type : (Option Text → HeaderResult R) → R → Option Text → Text → HeaderResult R
  set_type continue r (some t) value = some (err Error.repeated_header, r)
  set_type continue r none value = continue (some value)

  unfoldable pub header_line :
      (Option Text → Option ℕ → HeaderResult R)
      → R
      → Option Text
      → Option ℕ
      → HeaderLine
      → HeaderResult R
  unfolding set_length set_type finish_header
  header_line continue r type len blank = some (finish_header type len, r)
  header_line continue r type len (content_type value) = set_type (λ t. continue t len) r type value
  header_line continue r type len (content_length value) =
      set_length (λ n. continue type n) r len value
  header_line continue r type len (bad e) = some (err e, r)

  -- What `read_until` brought.
  unfoldable pub header_round :
      (R → Option Text → Option ℕ → HeaderResult R)
      → Option Text
      → Option ℕ
      → IoResult Text × R
      → HeaderResult R
  unfolding header_line parse_line
  header_round continue type len (done [], r) = some (ok none, r)
  header_round continue type len (done (c ∷ line), r) =
      header_line (continue r) r type len (parse_line (c ∷ line))
  header_round continue type len (failed kind, r) =
      some ((if is_closed kind then ok none else err Error.io_error), r)

module _ {R : Type 0} (io : AsyncBufRead R) where
  unfoldable pub header_loop : ℕ → R → Option Text → Option ℕ → HeaderResult R
  unfolding header_round
  header_loop zero r type len = none
  header_loop (suc fuel) r type len =
      header_round (header_loop fuel) type len (io.read_until b'\n' r)

  unfoldable pub read_header : R → HeaderResult R
  unfolding header_loop
  read_header r = header_loop 3 r none none
