-- ===== src/Examples/Exchange.antt =====
-- An announcement to a new node, and a node's key on a disk of texts.
use gpuswarm.Common.{
  Bool, Option, ◌≡◌, ℕ, true, false, some, none, Str, str, str_eq_refl, is_empty, trim_space, [],
  ◌∷◌, List, any, refl, ok, Result, arith,
}
use gpuswarm.Common.Int.{ltb_ℤ}
use gpuswarm.Common.Floats.{thousandths}
use gpuswarm.Common.Clock.{time_sub}
use gpuswarm.Common.Maps.{GoMap, in_order, insert, lookup, lookup-insert}
use gpuswarm.Model.{CapabilityDocument}
use gpuswarm.P2p.Host.{registry_result}
use gpuswarm.P2p.Registry.Keyed.{WellFormed, is_named}
use gpuswarm.P2p.Registry.Refines.{Event, announced, registry_listed, run}
use gpuswarm.P2p.Exchange.{serve_registry, announce_to}
use gpuswarm.P2p.Exchange.Announced.{announced_found}
use gpuswarm.Common.Files.{FileSystem}
use gpuswarm.P2p.Identity.{
  Keys, KeyPair, load_or_create, create, store, store_in, write_key, written, loaded,
}
use gpuswarm.P2p.Identity.Kept.{identity_kept}
use gpuswarm.Examples.{slow, fast}
use gpuswarm.Examples.Discovery.{new_node}

new-WellFormed : WellFormed new_node
new-WellFormed = record {
  heartbeats_unique = tt;
  registry_unique = tt;
  heartbeats_keyed = tt;
  registry_keyed = tt;
}

fast_named : is_empty (trim_space fast.peer_id) ≡ false
unfolding is_empty trim_space
fast_named = refl

within_ttl : ltb_ℤ new_node.heartbeat_ttl (time_sub 9 3) ≡ false
unfolding time_sub
within_ttl = refl

abbrev later_events : List (Event thousandths.F × ℕ)
later_events = (announced slow, 4) ∷ ((registry_listed, 5) ∷ [])

announced_found_example :
    ((announce_to new_node fast 3).1 ≡ none)
    × ((out : List (CapabilityDocument thousandths.F)) × ((registry_result (
              ok
                (serve_registry in_order
                  (run in_order (announce_to new_node fast 3).0 later_events)
                  9).1)
            ≡ ok out)
          × (any (is_named fast.peer_id) out ≡ true)))
announced_found_example =
    announced_found in_order new_node fast 3 9 later_events new-WellFormed fast_named
      (omega arith, (omega arith, omega arith)) within_ttl

abbrev pub has_entry : Option Str → Bool
has_entry none = false
has_entry (some text) = true

abbrev pub disk : FileSystem
disk = record {
  Disk = GoMap Str;
  read = λ d path. lookup path d;
  stat = λ d path. has_entry (lookup path d);
  mkdir_all = λ d path. (d, none);
  write = λ d path text. (insert path text d, none);
  dir = λ path. path;
}

abbrev keys : Keys
keys = record {
  Priv = Str;
  Pub = Str;
  public = λ pk. pk;
  marshal = λ pk. ok pk;
  unmarshal = λ text. ok text;
}

abbrev pair : Str → KeyPair keys
pair k = record { priv_key = k; pub_key = k }

path_given : is_empty (str "id.key") ≡ false
unfolding is_empty
path_given = refl

reads_back :
    (d : GoMap Str) (text : Str)
    → (disk.write d (str "id.key") text).1 ≡ none
    → disk.read (disk.write d (str "id.key") text).0 (str "id.key") ≡ some text
reads_back d text h = rw lookup-insert (rw str_eq_refl refl)

unmarshals : (pk text : Str) → keys.marshal pk ≡ ok text → keys.unmarshal text ≡ ok pk
unmarshals pk text h = let same : pk ≡ text = cc in rw same refl

abbrev fresh : Str → Result Str (KeyPair keys)
fresh k = ok (pair k)

belongs : (p : KeyPair keys) → fresh (str "a") ≡ ok p → keys.public p.priv_key ≡ p.pub_key
belongs p h = let same : pair (str "a") ≡ p = cc in rw (← same) refl

first_start : (load_or_create disk keys [] (str "id.key") (fresh (str "a"))).1 ≡ ok (pair (str "a"))
unfolding load_or_create create store store_in write_key written loaded is_empty lookup
first_start = refl

identity_kept_example :
    load_or_create disk keys
      (load_or_create disk keys [] (str "id.key") (fresh (str "a"))).0
      (str "id.key")
      (fresh (str "b"))
    ≡ ((load_or_create disk keys [] (str "id.key") (fresh (str "a"))).0, ok (pair (str "a")))
identity_kept_example =
    identity_kept disk keys [] (str "id.key") (fresh (str "a")) (fresh (str "b")) (pair (str "a"))
      path_given reads_back unmarshals belongs first_start
