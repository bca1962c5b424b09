-- ===== src/Session/Clients.antt =====
-- How the operations on the map of clients change the question who has a document open.
use ra_multiplex.Base.{
  ℕ, Text, List, [], ◌∷◌, some, Bool, true, false, ◌&&◌, ◌||◌, ◌==◌, ◌≡◌, refl, nat_eq, list_eq,
  arith, any,
}
use ra_multiplex.Base.HashMap
use ra_multiplex.Base.HashMap.{HashMap}
use ra_multiplex.Base.HashSet
use ra_multiplex.Instance.{Client, ClientData, has_open}

abbrev pub add_file : Text → ClientData → ClientData
add_file uri d = record d { files = HashSet.insert uri d.files }

abbrev pub drop_file : Text → ClientData → ClientData
drop_file uri d = record d { files = HashSet.remove uri d.files }

-- Each entry stands under its client's id.
unfoldable pub keyed : HashMap ℕ ClientData → Bool
keyed [] = true
keyed ((n, d) ∷ m) = d.client.id == n && keyed m

pub has_open-add_file :
    (n : ℕ) (uri u : Text) (m : HashMap ℕ ClientData)
    → has_open u (HashMap.modify n (add_file uri) m)
      ≡ ((uri == u && HashMap.contains_key n m) || has_open u m)
unfolding has_open any HashMap.modify HashMap.contains_key
has_open-add_file n uri u [] = ground arith
has_open-add_file n uri u ((k, d) ∷ m) =
    ground (arith, has_open-add_file n uri u m, HashSet.contains-insert uri u d.files)

-- Another client may still have it open.
pub has_open-drop_file_ne :
    (n : ℕ) (uri u : Text) (m : HashMap ℕ ClientData)
    → (uri == u) ≡ false
    → has_open u (HashMap.modify n (drop_file uri) m) ≡ has_open u m
unfolding has_open any HashMap.modify
has_open-drop_file_ne n uri u [] h = refl
has_open-drop_file_ne n uri u ((k, d) ∷ m) h =
    ground (arith, has_open-drop_file_ne n uri u m, HashSet.contains-remove uri u d.files)

pub has_open-drop_file :
    (n : ℕ) (uri u : Text) (m : HashMap ℕ ClientData)
    → has_open u (HashMap.modify n (drop_file uri) m) ≡ true
    → has_open u m ≡ true
unfolding has_open any HashMap.modify
has_open-drop_file n uri u [] h = h
has_open-drop_file n uri u ((k, d) ∷ m) h =
    ground (arith, has_open-drop_file n uri u m, HashSet.contains-remove uri u d.files)

pub has_open-remove :
    (n : ℕ) (u : Text) (d : ClientData) (m : HashMap ℕ ClientData)
    → HashMap.get n m ≡ some d
    → has_open u m ≡ (HashSet.contains d.files u || has_open u (HashMap.remove n m))
unfolding has_open any HashMap.get HashMap.remove
has_open-remove n u d [] h = cc
has_open-remove n u d ((k, e) ∷ m) h = ground (arith, has_open-remove n u d m)

pub has_open-insert :
    (n : ℕ) (u : Text) (c : Client) (m : HashMap ℕ ClientData)
    → HashMap.contains_key n m ≡ false
    → has_open u (HashMap.insert n (record { client = c; files = [] }) m) ≡ has_open u m
unfolding has_open any HashMap.insert HashMap.contains_key HashSet.contains
has_open-insert n u c [] h = refl
has_open-insert n u c ((k, e) ∷ m) h = ground (arith, has_open-insert n u c m)

pub keyed-insert :
    (c : Client) (files : List Text) (m : HashMap ℕ ClientData)
    → keyed m ≡ true
    → keyed (HashMap.insert c.id (record { client = c; files = files }) m) ≡ true
unfolding keyed HashMap.insert
keyed-insert c files [] h = ground arith
keyed-insert c files ((k, e) ∷ m) h = ground (arith, keyed-insert c files m)

pub keyed-remove :
    (n : ℕ) (m : HashMap ℕ ClientData) → keyed m ≡ true → keyed (HashMap.remove n m) ≡ true
unfolding keyed HashMap.remove
keyed-remove n [] h = refl
keyed-remove n ((k, e) ∷ m) h = ground (arith, keyed-remove n m)

pub keyed-modify :
    (n : ℕ) (f : ClientData → ClientData) (m : HashMap ℕ ClientData)
    → ((d : ClientData) → (f d).client ≡ d.client)
    → keyed m ≡ true
    → keyed (HashMap.modify n f m) ≡ true
unfolding keyed HashMap.modify
keyed-modify n f [] h k = refl
keyed-modify n f ((j, e) ∷ m) h k = ground (arith, keyed-modify n f m h, h e)

pub get-keyed :
    (n : ℕ) (d : ClientData) (m : HashMap ℕ ClientData)
    → keyed m ≡ true
    → HashMap.get n m ≡ some d
    → d.client.id ≡ n
unfolding keyed HashMap.get
get-keyed n d [] h e = cc
get-keyed n d ((k, c) ∷ m) h e = ground (arith, get-keyed n d m)
