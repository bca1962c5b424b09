-- ===== src/Effect.antt =====
-- What a task does to the outside: a message that it hands to the channel of the language server
-- or to the channel of a client. The channels are tokio's; a client's channel goes by the client's
-- id. Where the program looks at whether a send succeeded, that is an argument of the model.
use ra_multiplex.Base.{ℕ, List, [], ◌∷◌, ◌++◌, ◌≡◌, refl, ap, ◌==◌, nat_eq, if◌then◌else◌, arith}
use ra_multiplex.Lsp.Jsonrpc.{Message}

pub data Effect (V : Type 0) : Type 0 where
  to_server : Message V → Effect V
  to_client : ℕ → Message V → Effect V

module _ {V : Type 0} where
  -- The messages that the language server's channel is given, in order.
  unfoldable pub server_messages : List (Effect V) → List (Message V)
  server_messages [] = []
  server_messages (to_server m ∷ es) = m ∷ server_messages es
  server_messages (to_client n m ∷ es) = server_messages es

  -- The messages that the channel of client `n` is given, in order.
  unfoldable pub client_messages : ℕ → List (Effect V) → List (Message V)
  client_messages n [] = []
  client_messages n (to_server m ∷ es) = client_messages n es
  client_messages n (to_client k m ∷ es) =
      let rest = client_messages n es in if k == n then m ∷ rest else rest

  pub server_messages-append :
      (es fs : List (Effect V))
      → server_messages (es ++ fs) ≡ server_messages es ++ server_messages fs
  unfolding server_messages
  server_messages-append [] fs = refl
  server_messages-append (to_server m ∷ es) fs = ap (◌∷◌ m) (server_messages-append es fs)
  server_messages-append (to_client n m ∷ es) fs = server_messages-append es fs

  pub client_messages-append :
      (n : ℕ) (es fs : List (Effect V))
      → client_messages n (es ++ fs) ≡ client_messages n es ++ client_messages n fs
  unfolding client_messages
  client_messages-append n [] fs = refl
  client_messages-append n (to_server m ∷ es) fs = client_messages-append n es fs
  client_messages-append n (to_client k m ∷ es) fs = ground (arith, client_messages-append n es fs)
