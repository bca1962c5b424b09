-- ===== src/Lsp/Ext/TagLaws.antt =====
-- Tags survive the round trip through the language server or an editor.
use ra_multiplex.Base.{
  ℕ, ◌≡◌, ◌≤◌, ap, ◌∙◌, Text, codes, ◌++◌, [], ◌∷◌, Option, some, arith, sym, All, list_beq,
}
use ra_multiplex.Str.{strip_prefix, split_once}
use ra_multiplex.Str.Split.{Lacks, strip_prefix-append, split_once-append}
use ra_multiplex.Str.Decimal.{usize_max, display_usize, display_i64}
use ra_multiplex.Str.Decimal.RoundTrip.{
  Fits, IsDigit, parse_usize-display_usize, parse_i64-display_i64, display_usize-IsDigit,
}
use ra_multiplex.Lsp.Jsonrpc.{RequestId, number, string}
use ra_multiplex.Lsp.Ext.{
  Tag, client_id, drop, forward, colon, inner_id, tag, parse_inner_id, parse_client_id, parse_tag,
  untag,
}

-- A number is an `i64`, and a client's id a `usize`.
abbrev pub IdFits : RequestId → Type 0
IdFits (number n) = Fits n
IdFits (string s) = Unit

abbrev pub TagFits : Tag → Type 0
TagFits (client_id n) = n ≤ usize_max
TagFits drop = Unit
TagFits forward = Unit

split_colon : (a b : Text) → Lacks b':' a → split_once colon (a ++ colon ++ b) ≡ some (a, b)
split_colon = split_once-append b':' []

parse_inner_id-inner_id : (id : RequestId) → IdFits id → parse_inner_id (inner_id id) ≡ some id
unfolding parse_inner_id inner_id list_beq
parse_inner_id-inner_id (number n) h =
    rw (split_colon (codes "n") (display_i64 n) (omega arith), parse_i64-display_i64 n h)
parse_inner_id-inner_id (string s) h = rw (split_colon (codes "s") s (omega arith))

Lacks-colon : (s : Text) → All IsDigit s → Lacks b':' s
Lacks-colon [] h = tt
Lacks-colon (c ∷ s) h = ((λ e. omega arith), Lacks-colon s h.1)

parse_client_id-display_usize :
    (n : ℕ) (rest : Text)
    → n ≤ usize_max
    → parse_client_id (display_usize n ++ colon ++ rest) ≡ some (n, rest)
unfolding parse_client_id
parse_client_id-display_usize n rest h = rw (
  split_colon (display_usize n) rest (Lacks-colon _ (display_usize-IsDigit n)),
  parse_usize-display_usize n h,
)

parse_tag-tag :
    (id : RequestId) (t : Tag) → IdFits id → TagFits t → parse_tag (tag id t) ≡ some (t, id)
unfolding parse_tag tag
parse_tag-tag id (client_id n) h k = rw (
  parse_tag,
  strip_prefix-append (codes "client_id:") (display_usize n ++ colon ++ inner_id id),
  parse_client_id-display_usize n (inner_id id) k,
  parse_inner_id-inner_id id h,
)
parse_tag-tag id drop h k = unfold strip_prefix in rw (parse_inner_id-inner_id id h)
parse_tag-tag id forward h k = unfold strip_prefix in rw (parse_inner_id-inner_id id h)

-- Whatever id a peer chose and whatever the tag, `untag` recovers both from the tagged id, so long
-- as a numeric id is an `i64` and the client's number a `usize`.
pub untag-tag : (id : RequestId) (t : Tag) → IdFits id → TagFits t → untag (tag id t) ≡ (some t, id)
unfolding untag
untag-tag id t h k = rw (untag, parse_tag-tag id t h k)

-- Two tagged ids are equal only if both the ids and the tags are: no two requests of one client, and
-- no requests of two clients, collide at the language server.
pub tag-injective :
    (id id' : RequestId) (t t' : Tag)
    → IdFits id
    → IdFits id'
    → TagFits t
    → TagFits t'
    → tag id t ≡ tag id' t'
    → (id ≡ id') × (t ≡ t')
tag-injective id id' t t' h h' k k' e =
    let same : ◌≡◌ {A = Option (Tag × RequestId)} (some (t, id)) (some (t', id')) =
      sym (parse_tag-tag id t h k) ∙ ap parse_tag e ∙ parse_tag-tag id' t' h' k' in
    (ground arith, ground arith)
