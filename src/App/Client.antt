-- ===== src/App/Client.antt =====
-- internal/app/services.go, ClientService: routing settings, sticky peers and failover. The pointed-to
-- ledger and tracker are fields, `none` where the pointer is nil; a service made by NewProviderService
-- over the same pointers shares them. Each method is one critical section, and a call of Infer is
-- modelled with no other call between its sections.
pub mod Inference
pub mod Settings
pub mod Sticky
pub mod Failover
pub mod Candidates
pub mod Accounting
pub mod Peers
use gpuswarm.Common.{
  ℕ, suc, ◌+◌, ◌==◌, Bool, true, false, ◌&&◌, ◌||◌, not, Option, none, some, Str, str, str_eq,
  is_empty, List, [], ◌∷◌, ◌++◌, map, filter, length, if◌then◌else◌, ltb, Result, ok, err,
}
use gpuswarm.Common.Int.{ℤ, pos, leb_ℤ, ltb_ℤ, eqb_ℤ}
use gpuswarm.Common.Clock.{time_after, time_add}
use gpuswarm.Common.Floats.{Float64}
use gpuswarm.Common.Maps.{GoMap, Set, lookup, insert, delete, member}
use gpuswarm.Common.Sorting.{SortSlice}
use gpuswarm.Model.{CapabilityDocument, ChatCompletionRequest, PeerContext}
use gpuswarm.Routing.{PeerScore, Preferences, Router, rank_with_preferences}
use gpuswarm.Control.Credits.{CreditLedger, spend}
use gpuswarm.Control.Reputation.{ReputationTracker, score, reward, penalize}
use gpuswarm.Control.Pow.{solve_pow}

-- The fields of ClientOptions, without the two pointers.
pub record ClientOptions : Type 0 where
  pub peer_id : Str
  pub peer_name : Str
  pub routing_policy : Str
  pub favorite_peers : List Str
  pub blocked_peers : List Str
  pub allowed_peers : List Str
  pub sticky_peer_ttl : ℤ
  pub pow_difficulty : ℤ
  pub pow_max_iters : ℕ
  pub credit_cost : ℤ

-- A nil slice is `none`.
pub record RoutingSettings : Type 0 where
  pub routing_policy : Str
  pub favorite_peers : Option (List Str)
  pub blocked_peers : Option (List Str)
  pub allowed_peers : Option (List Str)
  pub sticky_peer_ttl : ℤ

pub record StickyChoice : Type 0 where
  pub peer_id : Str
  pub expires : ℕ

pub record InferenceResult : Type 0 where
  pub status_code : ℤ
  pub content_type : Str
  pub body : Str

pub data ClientError : Type 0 where
  insufficient_credits no_peers pow_without_peer_id : ClientError
  discover_peers : Str → ClientError
  -- The last error of a gateway; `none` is ErrNoPeers.
  all_peers_failed : Option Str → ClientError

pub record ClientService (F : Type 0) : Type 0 where
  pub router : Router F
  pub opts : ClientOptions
  pub credit_ledger : Option CreditLedger
  pub reputation : Option (ReputationTracker F)
  pub known : Set
  pub sticky : GoMap StickyChoice

-- One request to a peer: the number of the attempt, the gateway URL, the request and the context.
abbrev pub Gateway : Type 0
Gateway = ℕ → Str → ChatCompletionRequest → PeerContext → Result Str InferenceResult

unfoldable pub new_client_service :
    {F : Type 0}
    → Router F
    → ClientOptions
    → Option CreditLedger
    → Option (ReputationTracker F)
    → ClientService F
new_client_service router opts ledger reputation = record {
  router = router;
  opts = record opts {
    pow_max_iters = if opts.pow_max_iters == 0 then 2_000_000 else opts.pow_max_iters;
    credit_cost = if eqb_ℤ opts.credit_cost (pos 0) then pos 1 else opts.credit_cost;
  };
  credit_ledger = ledger;
  reputation = reputation;
  known = [];
  sticky = [];
}

-- toSet
unfoldable pub to_set : List Str → Set
to_set [] = []
to_set (i ∷ items) = let rest = to_set items in if is_empty i then rest else i ∷ rest

-- `append([]string(nil), items...)`, which is nil if there are none.
unfoldable pub copy_slice : List Str → Option (List Str)
copy_slice [] = none
copy_slice (i ∷ items) = some (i ∷ items)

-- `if in != nil { field = append([]string(nil), in...) }`
unfoldable pub replaced : Option (List Str) → List Str → List Str
replaced none old = old
replaced (some new) old = new

-- `if opts.CreditLedger != nil { if !Spend(CreditCost) … }`: the ledger, and whether to go on.
unfoldable pub charged : Option CreditLedger → ℤ → Option CreditLedger × Bool
charged none cost = (none, true)
charged (some l) cost = (some (spend l cost).0, (spend l cost).1)

module _ {F : Type 0} where
  unfoldable pub get_routing_settings : ClientService F → RoutingSettings
  get_routing_settings s = record {
    routing_policy = s.opts.routing_policy;
    favorite_peers = copy_slice s.opts.favorite_peers;
    blocked_peers = copy_slice s.opts.blocked_peers;
    allowed_peers = copy_slice s.opts.allowed_peers;
    sticky_peer_ttl = s.opts.sticky_peer_ttl;
  }

  unfoldable pub update_routing_settings : ClientService F → RoutingSettings → ClientService F
  unfolding replaced
  update_routing_settings s in' = record s {
    opts = record (s.opts) {
      routing_policy =
          if is_empty in'.routing_policy then s.opts.routing_policy else in'.routing_policy;
      favorite_peers = replaced in'.favorite_peers s.opts.favorite_peers;
      blocked_peers = replaced in'.blocked_peers s.opts.blocked_peers;
      allowed_peers = replaced in'.allowed_peers s.opts.allowed_peers;
      sticky_peer_ttl =
          if leb_ℤ (pos 0) in'.sticky_peer_ttl then in'.sticky_peer_ttl else s.opts.sticky_peer_ttl;
    };
  }

  unfoldable pub select_peer_manual : ClientService F → Str → ClientService F
  select_peer_manual s peer_id = record s {
    opts = record (s.opts) { routing_policy = str "manual"; allowed_peers = peer_id ∷ [] };
  }

  unfoldable pub mark_known : ClientService F → Str → ClientService F
  mark_known s peer_id = record s {
    known = if member peer_id s.known then s.known else peer_id ∷ s.known;
  }

  unfoldable pub update_sticky : ClientService F → Str → Str → ℕ → ClientService F
  update_sticky s model peer_id now = if leb_ℤ s.opts.sticky_peer_ttl (pos 0) then s else record s {
    sticky =
        insert model (record { peer_id = peer_id; expires = time_add now s.opts.sticky_peer_ttl })
          s.sticky;
  }

  -- The first entry of the peer, and ranked[:i] followed by ranked[i+1:].
  unfoldable pub pull : Str → List (PeerScore F) → Option (PeerScore F × List (PeerScore F))
  pull peer_id [] = none
  pull peer_id (x ∷ xs) =
      let rest = pull peer_id xs in
      if str_eq x.capability.peer_id peer_id
      then some (x, xs)
      else elim rest [ none ↦ none | some (y, ys) ↦ some (y, x ∷ ys) ]

  unfoldable pub promote : Str → List (PeerScore F) → List (PeerScore F)
  promote peer_id ranked = elim (pull peer_id ranked) [ none ↦ ranked | some (y, ys) ↦ y ∷ ys ]

  unfoldable pub sticky_choice :
      ClientService F
      → Str
      → ℕ
      → Option StickyChoice
      → List (PeerScore F)
      → ClientService F × List (PeerScore F)
  sticky_choice s model now none ranked = (s, ranked)
  sticky_choice s model now (some ch) ranked =
      if time_after now ch.expires
      then (record s { sticky = delete model s.sticky }, ranked)
      else (s, promote ch.peer_id ranked)

  unfoldable pub apply_sticky_priority :
      ClientService F → Str → ℕ → List (PeerScore F) → ClientService F × List (PeerScore F)
  apply_sticky_priority s model now ranked =
      if leb_ℤ s.opts.sticky_peer_ttl (pos 0) || ltb (length ranked) 2
      then (s, ranked)
      else sticky_choice s model now (lookup model s.sticky) ranked

  unfoldable pub charge : ClientService F → ClientService F × Bool
  unfolding charged
  charge s =
      let (ledger, paid) = charged s.credit_ledger s.opts.credit_cost in
      (record s { credit_ledger = ledger }, paid)
