-- ===== src/Examples/Wire.antt =====
-- Readers and writers over lists of bytes, which have what the transport relies on.
use ra_multiplex.Base.{
  ℕ, zero, suc, ◌≡◌, refl, Text, [], ◌∷◌, ◌++◌, Option, none, some, ◌==◌, nat_eq, list_eq,
  if◌then◌else◌, length, arith,
}
use ra_multiplex.Io.{done, failed, unexpected_eof, AsyncBufRead, AsyncWrite}
use ra_multiplex.Str.Split.{Lacks}
use ra_multiplex.Lsp.Transport.Framing.{Delivers}
use ra_multiplex.Lsp.Transport.Messages.{Keeps}

-- The bytes up to and with the first `d`.
unfoldable pub until : ℕ → Text → Text × Text
until d [] = ([], [])
until d (c ∷ s) = let (line, rest) = until d s in if c == d then (c ∷ [], s) else (c ∷ line, rest)

unfoldable pub exactly : ℕ → Text → Option (Text × Text)
exactly zero s = some ([], s)
exactly (suc n) [] = none
exactly (suc n) (c ∷ s) = elim (exactly n s) [
  | some (body, rest) ↦ some (c ∷ body, rest)
  | none ↦ none
]

unfoldable pub bytes_io : AsyncBufRead Text
bytes_io = record {
  read_until = λ d s. let (line, rest) = until d s in (done line, rest);
  read_exact = λ n s. elim (exactly n s) [
    | some (body, rest) ↦ (done body, rest)
    | none ↦ (failed unexpected_eof, [])
  ];
}

until-append :
    (d : ℕ) (line rest : Text) → Lacks d line → until d (line ++ d ∷ rest) ≡ (line ++ d ∷ [], rest)
unfolding until
until-append d [] rest h = ground (arith, nat_eq.beq_iff d d)
until-append d (c ∷ line) rest h = ground (arith, nat_eq.beq_iff c d, until-append d line rest)

exactly-append : (body rest : Text) → exactly (length body) (body ++ rest) ≡ some (body, rest)
unfolding exactly
exactly-append [] rest = refl
exactly-append (c ∷ body) rest = rw (exactly-append body rest)

abbrev pub content : Text → Text
content s = s

pub bytes_deliver : Delivers bytes_io content
unfolding bytes_io
bytes_deliver = record {
  line_at = λ r d line rest h e. (rest, rw (e, until-append d line rest h), refl);
  exact_at = λ r body rest e. (rest, ground (arith, exactly-append body rest), refl);
}

unfoldable pub list_io : AsyncWrite Text
list_io = record { write_all = λ bytes w. (done tt, w ++ bytes); flush = λ w. (done tt, w) }

pub list_io-Keeps : Keeps list_io content
unfolding list_io
list_io-Keeps = record {
  write_at = λ bytes w w' e. ground arith;
  flush_at = λ w w' e. ground arith;
}
