-- ===== src/Examples/Printing.antt =====
-- A way to print and parse trees, and messages that go through a pipe.
use mathlib.Core.Option
use ra_multiplex.Base.{
  ℕ, zero, suc, Text, codes, List, [], ◌∷◌, ◌++◌, length, Option, none, some, ◌==◌, nat_eq, list_eq,
  if◌then◌else◌, refl, arith,
}
use ra_multiplex.Base.Int.{ℤ, pos, negsuc}
use ra_multiplex.Base.Try.{◌>>=◌}
use ra_multiplex.Str.{starts_with}
use ra_multiplex.Str.Utf8.{is_utf8}
use ra_multiplex.Lsp.Jsonrpc.{Message, notification, version}
use ra_multiplex.Serde.{present}
use ra_multiplex.Serde.Messages
use ra_multiplex.Serde.Wire.{Printer, IsPrinted, IsWritable}
use ra_multiplex.Examples.Trees.{
  Tree, void, flag, integer, decimal, quote, row, table, Row, stop, cell, Table, empty, entry,
  trees,
}
use ra_multiplex.Examples.Wire.{exactly}

-- A text behind its length.
abbrev sized : Text → Text
sized s = length s ∷ s

abbrev integer_text : ℤ → Text
integer_text (pos n) = b'+' ∷ n ∷ []
integer_text (negsuc n) = b'-' ∷ n ∷ []

unfoldable mutual
  tree_text : Tree → Text
  tree_text void = codes "n"
  tree_text (flag b) = codes "f"
  tree_text (integer n) = integer_text n
  tree_text (decimal s) = b'd' ∷ sized s
  tree_text (quote s) = b'q' ∷ sized s
  tree_text (row vs) = b'r' ∷ row_text vs
  tree_text (table es) = b't' ∷ table_text es

  row_text : Row → Text
  row_text stop = codes "."
  row_text (cell v vs) = b',' ∷ (tree_text v ++ row_text vs)

  table_text : Table → Text
  table_text empty = codes "."
  table_text (entry k v es) = b',' ∷ (sized k ++ (tree_text v ++ table_text es))

unfoldable text_from : Text → Option (Text × Text)
unfolding exactly
text_from [] = none
text_from (n ∷ s) = exactly n s

unfoldable integer_from : Text → Option (Tree × Text)
integer_from [] = none
integer_from (n ∷ s) = some (integer (pos n), s)

-- The first argument bounds the depth.
unfoldable mutual
  unfolding text_from integer_from

  tree_from : ℕ → Text → Option (Tree × Text)
  tree_from zero s = none
  tree_from (suc n) [] = none
  tree_from (suc n) (c ∷ s) =
      let entries = table_from n s in
      let cells = row_from n s in
      if c == b'n'
      then some (void, s)
      else if c == b'q'
      then (do (q, s1) ← text_from s; some (quote q, s1))
      else if c == b't'
      then (do (es, s1) ← entries; some (table es, s1))
      else if c == b'+'
      then integer_from s
      else if c == b'r'
      then (do (vs, s1) ← cells; some (row vs, s1))
      else none

  row_from : ℕ → Text → Option (Row × Text)
  row_from zero s = none
  row_from (suc n) [] = none
  row_from (suc n) (c ∷ s) =
      if c == b'.'
      then some (stop, s)
      else do (v, s1) ← tree_from n s; (vs, s2) ← row_from n s1; some (cell v vs, s2)

  table_from : ℕ → Text → Option (Table × Text)
  table_from zero s = none
  table_from (suc n) [] = none
  table_from (suc n) (c ∷ s) = if c == b'.' then some (empty, s) else do
    (k, s1) ← text_from s
    (v, s2) ← tree_from n s1
    (es, s3) ← table_from n s2
    some (entry k v es, s3)

unfoldable pub printer : Printer Tree
unfolding tree_text row_text table_text text_from integer_from tree_from row_from table_from
printer = record { print = tree_text; parse = λ s. Option.map (λ p. p.0) (tree_from 60 s) }

abbrev pub note : Message Tree
note = notification (record { jsonrpc = version; method = codes "initialized"; params = void })

note-IsPrinted : IsPrinted printer (Messages.write_message note)
unfolding printer is_utf8 starts_with present
note-IsPrinted = record { utf8 = refl; no_array = refl; parses = refl; fits = omega arith }

pub note-IsWritable : IsWritable printer note
note-IsWritable = (tt, note-IsPrinted)

abbrev pub notes : List (Message Tree)
notes = note ∷ note ∷ []
