-- ===== src/Examples/Discovery.antt =====
-- A libp2p node and its peers on a small network.
use mathlib.Core.List.{Mem}
use gpuswarm.Common.{
  ◌≡◌, ◌≤◌, ℕ, true, false, Bool, not, some, none, Str, str, str_eq, str_lt, is_empty, trim_space,
  [], ◌∷◌, ◌++◌, List, any, length, refl, subst, ok, All, arith,
}
use gpuswarm.Common.Int.{pos, ltb_ℤ}
use gpuswarm.Common.Floats.{thousandths}
use gpuswarm.Common.Clock.{time_sub}
use gpuswarm.Common.Maps.{GoMap, in_order, insert, lookup, lookup-insert}
use gpuswarm.Common.Sorting.{SortedBy, insertion, insertion_sort, insert_sorted}
use gpuswarm.Model.{CapabilityDocument}
use gpuswarm.P2p.Host.{
  Host, AddrInfo, registry_result, capability_result, discover_peers, take_found, named_rendezvous,
  is_nobody, add_peer_addrs, dial,
}
use gpuswarm.P2p.Host.Addrs.{Somebody, discover_peers_bounded, add_peer_addrs-Keeps}
use gpuswarm.P2p.Registry.{Node, heartbeats, prune_locked, expired, caps_of}
use gpuswarm.P2p.Registry.Refines.{
  Event, announced, registry_listed, Memory, run, recall_all, Refines, run-Refines, Explains,
}
use gpuswarm.P2p.Sources.{LanDiscovery, list_lan, should_query, due}
use gpuswarm.P2p.Lan.{receive, SeenFrom, received_listed}
use gpuswarm.P2p.Discovery.{
  by_id, list_capabilities, with_gateway, gather, connect_found, add_all, add_peer,
  add_decoded_peer, take_heartbeats, take_heartbeat, has_addrs, query_registries, query_registry,
  take_registry, take_entries, take_entry, synthesize_relay_addrs, synthesize, clear_if, add_some,
  query_peers, query_peer, take_answer, is_listed, documents_by_id, sorted_answer,
}
use gpuswarm.P2p.Discovery.Listed.{ByTrusted, heard, list_capabilities-Trusted}
use gpuswarm.P2p.Discovery.Unasked.{KeptBut}
use gpuswarm.P2p.Discovery.Heard.{is_of, heard_listed}
use gpuswarm.Examples.{slow, fast}

abbrev boot : AddrInfo Str
boot = record { id = str "boot"; addrs = [] }

-- An address is a text, and the network's state is the peerstore.
abbrev pub host : Host thousandths.F
host = record {
  H = GoMap (List Str);
  Addr = Str;
  new_multiaddr = λ s. some s;
  p2p_info = λ a. none;
  decode = λ s. some s;
  addr_text = λ a. a;
  encapsulate = λ a b. a ++ b;
  self = str "me";
  now = λ h. 5;
  own_addrs = λ h. str "/ip4/10.0.0.1" ∷ [];
  peers = λ h. str "slow" ∷ [];
  is_connected = λ h pid. false;
  permanent_addr_ttl = pos 1000;
  temp_addr_ttl = pos 100;
  add_addrs = λ h pid addrs ttl. insert pid addrs h;
  clear_addrs = λ h pid. h;
  connect = λ h ai. (h, true);
  find_peers = λ h rendezvous. (
    h,
    some (record { id = str "me"; addrs = [] } ∷ (record { id = str "fast"; addrs = [] } ∷ [])),
  );
  ask_capability = λ h pid. (h, ok (record { is_ok = true; error = []; cap = some slow }));
  ask_registry = λ h pid. (h, ok (record { is_ok = true; error = []; peers = fast ∷ [] }));
  announce = λ h pid doc. (h, ok (record { is_ok = true; error = []; cap = none }));
}

discover_peers_bounded_example :
    (length (discover_peers host [] [] (pos 2)).1 ≤ 2)
    × All (Somebody host) (discover_peers host [] [] (pos 2)).1
discover_peers_bounded_example = discover_peers_bounded host [] [] 2 (omega arith)

-- The peerstore knows no address of the peer `fast`.
abbrev Unknown : GoMap (List Str) → Type 0
Unknown h = lookup (str "fast") h ≡ none

slow_added : (h : GoMap (List Str)) (a : List Str) → Unknown h → Unknown (insert (str "slow") a h)
unfolding str_eq
slow_added h a p = rw (lookup-insert (str "slow") (str "fast") a h) p

slow_decoded : host.decode (trim_space (str "slow")) ≡ some (str "slow")
unfolding trim_space
slow_decoded = refl

nothing_known : Unknown []
unfolding lookup
nothing_known = refl

add_peer_addrs-Keeps_example :
    Unknown (add_peer_addrs host [] (str "slow") (str "/ip4/10.0.0.2" ∷ []) (pos 0)).0
add_peer_addrs-Keeps_example =
    add_peer_addrs-Keeps host Unknown (str "slow") (λ h addrs ttl. slow_added h addrs) []
      (str "slow") (str "/ip4/10.0.0.2" ∷ []) (pos 0) slow_decoded nothing_known

abbrev pub new_node : Node thousandths.F
new_node = record { heartbeats = []; registry = []; heartbeat_ttl = pos 7 }

abbrev no_memory : Memory thousandths.F
no_memory = record { heard = λ k. none; registered = λ k. none }

abbrev events : List (Event thousandths.F × ℕ)
events = (announced fast, 3) ∷ ((registry_listed, 20) ∷ [])

new-Refines : Refines 0 (pos 7) new_node no_memory
unfolding lookup
new-Refines = record {
  ttl_kept = refl;
  heartbeats_agree = record { unique = tt; same = λ k. refl };
  registry_agrees = record { unique = tt; same = λ k. refl };
}

run-Refines_example :
    Explains in_order (pos 7) 30 (run in_order new_node events) (recall_all no_memory events)
run-Refines_example =
    run-Refines in_order (pos 7) events 0 30 new_node no_memory
      (omega arith, (omega arith, omega arith)) new-Refines

abbrev listening : Node thousandths.F
listening = record {
  heartbeats = (str "fast", record { cap = fast; seen_at = 1 }) ∷ [];
  registry = [];
  heartbeat_ttl = pos 7;
}

abbrev named : CapabilityDocument thousandths.F → Bool
named c = not (is_empty c.peer_id)

fast_heard : heard host insertion in_order listening [] [] ≡ fast ∷ []
unfolding discover_peers named_rendezvous take_found is_nobody connect_found dial add_all add_peer
    heartbeats prune_locked expired caps_of time_sub insert is_empty str_eq
fast_heard = refl

heard_named : All (ByTrusted named) (heard host insertion in_order listening [] [])
unfolding is_empty
heard_named = rw fast_heard (refl, tt)

registered_named :
    (g : GoMap (List Str)) (id : Str) (cs : List (CapabilityDocument thousandths.F))
    → registry_result (host.ask_registry g id).1 ≡ ok cs
    → All (ByTrusted named) cs
unfolding registry_result is_empty
registered_named g id cs e =
    let listed : fast ∷ [] ≡ cs = cc in subst (All (ByTrusted named)) listed (refl, tt)

answered_named :
    (g : GoMap (List Str)) (pid : Str) (c : CapabilityDocument thousandths.F)
    → capability_result (host.ask_capability g pid).1 ≡ ok c
    → named (with_gateway pid c) ≡ true
unfolding capability_result with_gateway is_empty
answered_named g pid c e = let given : slow ≡ c = cc in subst (λ d. named d ≡ true) given refl

both_listed :
    (list_capabilities host in_order insertion listening [] [] [] (boot ∷ [])).1
    ≡ ok (fast ∷ (slow ∷ []))
unfolding list_capabilities gather discover_peers named_rendezvous take_found is_nobody
    connect_found dial add_all add_peer add_decoded_peer heartbeats prune_locked expired caps_of
    time_sub insert lookup is_empty str_eq take_heartbeats take_heartbeat has_addrs query_registries
    query_registry take_registry registry_result take_entries take_entry synthesize_relay_addrs
    synthesize clear_if add_some query_peers query_peer take_answer is_listed capability_result
    with_gateway documents_by_id sorted_answer insertion insertion_sort insert_sorted by_id str_lt
    should_query due
both_listed = refl

list_capabilities-Trusted_example :
    All (ByTrusted named) (fast ∷ (slow ∷ [])) × SortedBy by_id (fast ∷ (slow ∷ []))
list_capabilities-Trusted_example =
    list_capabilities-Trusted host insertion in_order named listening [] [] [] (boot ∷ [])
      (fast ∷ (slow ∷ [])) heard_named registered_named answered_named both_listed

-- The state is the list of the peers that were asked for their documents.
abbrev asking : Host thousandths.F
asking = record {
  H = List Str;
  Addr = Str;
  new_multiaddr = λ s. some s;
  p2p_info = λ a. none;
  decode = λ s. some s;
  addr_text = λ a. a;
  encapsulate = λ a b. a ++ b;
  self = str "me";
  now = λ h. 5;
  own_addrs = λ h. [];
  peers = λ h. str "slow" ∷ (str "fast" ∷ []);
  is_connected = λ h pid. false;
  permanent_addr_ttl = pos 1000;
  temp_addr_ttl = pos 100;
  add_addrs = λ h pid addrs ttl. h;
  clear_addrs = λ h pid. h;
  connect = λ h ai. (h, true);
  find_peers = λ h rendezvous. (h, none);
  ask_capability = λ h pid. (pid ∷ h, ok (record { is_ok = true; error = []; cap = some slow }));
  ask_registry = λ h pid. (h, ok (record { is_ok = true; error = []; peers = [] }));
  announce = λ h pid doc. (h, ok (record { is_ok = true; error = []; cap = none }));
}

abbrev NotAsked : List Str → Type 0
NotAsked h = any (λ p. str_eq p (str "fast")) h ≡ false

asking-KeptBut : KeptBut asking (str "fast") NotAsked
asking-KeptBut = record {
  adds = λ h pid addrs ttl p. p;
  clears = λ h pid p. p;
  connects = λ h ai p. p;
  finds = λ h rendezvous p. p;
  asks_registries = λ h pid p. p;
  asks_others = λ h pid e p. rw (e, p) refl;
}

fast_heard_asking :
    any (is_of (str "fast")) (heard asking insertion in_order listening [] []) ≡ true
unfolding discover_peers named_rendezvous take_found is_nobody connect_found dial add_all add_peer
    heartbeats prune_locked expired caps_of time_sub insert is_empty str_eq
fast_heard_asking = refl

heard_listed_example :
    ((out : List (CapabilityDocument thousandths.F)) × ((list_capabilities asking in_order insertion
          listening [] [] []
          (boot ∷ [])).1
        ≡ ok out)
      × (any (is_of (str "fast")) out ≡ true))
    × (lookup
          (str "fast")
          (list_capabilities asking in_order insertion listening [] [] [] (boot ∷ [])).0.2
        ≡ lookup (str "fast") [])
    × NotAsked (list_capabilities asking in_order insertion listening [] [] [] (boot ∷ [])).0.1
heard_listed_example =
    heard_listed (str "fast") asking insertion in_order NotAsked listening [] [] [] (boot ∷ [])
      asking-KeptBut refl fast_heard_asking

abbrev lan : LanDiscovery thousandths.F
lan = record { entries = []; ttl = pos 15 }

still_fresh : ltb_ℤ lan.ttl (time_sub 9 4) ≡ false
unfolding time_sub
still_fresh = refl

abbrev join : Str → Str → Str
join host_name port = host_name ++ (str ":" ++ port)

received_listed_example :
    (out : List (CapabilityDocument thousandths.F)) × (url : Str) × (((list_lan in_order
          (receive join (λ url. none) lan (some fast) (str "10.0.0.2") 4)
          9).1
        ≡ ok out)
      × (SeenFrom join (λ url. none) (str "10.0.0.2") fast.gateway_url url
          × Mem (record fast { gateway_url = url }) out))
received_listed_example =
    received_listed join (λ url. none) in_order lan fast (str "10.0.0.2") 4 9 still_fresh
