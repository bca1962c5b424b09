-- ===== src/Examples/Tags.antt =====
-- Tags on concrete ids.
use ra_multiplex.Base.{◌≡◌, arith, some}
use ra_multiplex.Base.Int.{negsuc}
use ra_multiplex.Lsp.Jsonrpc.{number}
use ra_multiplex.Lsp.Ext.{client_id, tag, untag}
use ra_multiplex.Lsp.Ext.TagLaws.{untag-tag}

untag-tag_example :
    untag (tag (number (negsuc 41)) (client_id 3)) ≡ (some (client_id 3), number (negsuc 41))
untag-tag_example = untag-tag (number (negsuc 41)) (client_id 3) (omega arith) (omega arith)
