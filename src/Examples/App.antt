-- ===== src/Examples/App.antt =====
-- A client with two peers, and a provider with two requests.
use gpuswarm.Common.{
  ◌≡◌, ◌⊎◌, zero, suc, str_eq, str_eq_iff, ◌++◌, true, false, Option, some, none, Str, str,
  is_empty, [], ◌∷◌, List, refl, ok, err, Result, arith,
}
use gpuswarm.Common.Int.{pos, ◌+ℤ◌, ◌-ℤ◌, ◌*ℤ◌, quot_ℤ, rem_ℤ, wrap64, of_bits64, IsInt64}
use gpuswarm.Common.Floats.{thousandths, thousandths_mul, thousandths_div}
use gpuswarm.Common.Clock.{time_add, time_after, time_sub}
use gpuswarm.Common.Sorting.{insertion, insertion_sort, insert_sorted}
use gpuswarm.Common.Maps.{lookup, member}
use gpuswarm.Model.{CapabilityDocument, supports_requirements, spec_satisfies, requires}
use gpuswarm.Control.Credits.{CreditLedger, spend}
use gpuswarm.Common.Numbers.{format_uint}
use gpuswarm.Control.Reputation
use gpuswarm.Control.Reputation.{new_reputation_tracker}
use gpuswarm.Control.Limiter.{Limiter, acquire, refill_locked, seconds}
use gpuswarm.Control.Policy.{ProviderPolicy, validate}
use gpuswarm.Routing.{
  PeerScore, rank_with_preferences, collect, skips, effective_policy, lower_score, preferred_score,
  is_favorite, has_fav_candidates, score,
}
use gpuswarm.App.Capability.{new_capability_state}
use gpuswarm.App.Capability.Outcomes.{Share, run, run_new-Share}
use gpuswarm.App.Client.Settings.{update-get}
use gpuswarm.App.Client.{
  update_routing_settings, get_routing_settings, ClientOptions, ClientService, InferenceResult,
  Gateway, all_peers_failed, charge, charged, to_set, sticky_choice, update_sticky,
  apply_sticky_priority,
}
use gpuswarm.App.Client.Inference.{
  try_peers, infer, infer_discovered, infer_ranked, pow_nonce, apply_reputation, peer_context,
  preferences,
}
use gpuswarm.App.Client.Accounting.{ScoresInBounds, infer_charges_once}
use gpuswarm.App.Client.Candidates.{Chosen, infer-Chosen}
use gpuswarm.App.Client.Failover.{AllFail, Answers, try_peers_first}
use gpuswarm.App.Client.Sticky.{Found, sticky_peer_first}
use gpuswarm.App.Provider.{
  ProviderService, Surroundings, new_provider_service, admit, admit_valid, acquire_slot,
  low_reputation, count_up, count_down, release_slot,
}
use gpuswarm.App.Provider.Slots.{
  System, Reach, Inv, here, next, admits, counts, releases, discounts, Reach-Inv,
}
use gpuswarm.Control.Pow.{validate_pow, pow_hash, zeros}
use gpuswarm.Control.Limiter.Bounds.{Slots}
use gpuswarm.Examples.{same_text, milli, slow, fast, router, request, context, scored_peer}

abbrev pub initial_ledger : CreditLedger
initial_ledger = record { balance = pos 3 }

abbrev pub options : ClientOptions
options = record {
  peer_id = str "me";
  peer_name = [];
  routing_policy = str "auto";
  favorite_peers = [];
  blocked_peers = [];
  allowed_peers = [];
  sticky_peer_ttl = pos 100;
  pow_difficulty = pos 0;
  pow_max_iters = 10;
  credit_cost = pos 1;
}

abbrev pub client : ClientService thousandths.F
client = record {
  router = router;
  opts = options;
  credit_ledger = some initial_ledger;
  reputation = none;
  known = [];
  sticky = [];
}

abbrev pub answer : InferenceResult
answer = record { status_code = pos 200; content_type = []; body = [] }

-- The first attempt fails, and every later one gets an answer.
abbrev gateway : Gateway
gateway zero url req ctx = err (str "refused")
gateway (suc i) url req ctx = ok answer

abbrev discovered : Result Str (List (CapabilityDocument thousandths.F))
discovered = ok (slow ∷ fast ∷ [])

infer_charges_once_example :
    let s' = (infer thousandths insertion same_text client discovered gateway request 5 6).0 in
    (s'.credit_ledger ≡ some (spend initial_ledger (pos 1)).0)
    × (s'.opts ≡ options)
    × (ScoresInBounds thousandths none → ScoresInBounds thousandths s'.reputation)
infer_charges_once_example =
    infer_charges_once thousandths insertion same_text gateway request 5 6 client initial_ledger
      discovered refl

answered :
    (infer thousandths insertion same_text client discovered gateway request 5 6).1 ≡ ok answer
unfolding infer infer_discovered infer_ranked charge charged spend try_peers apply_sticky_priority
    pow_nonce preferences apply_reputation to_set rank_with_preferences collect skips
    effective_policy is_empty str_eq member supports_requirements spec_satisfies requires insertion
    insertion_sort insert_sorted lower_score score preferred_score is_favorite thousandths
    has_fav_candidates ◌-ℤ◌ wrap64 of_bits64 sticky_choice lookup
answered = refl

infer-Chosen_example :
    Chosen thousandths gateway request insertion same_text client discovered answer
infer-Chosen_example =
    infer-Chosen thousandths gateway request insertion same_text client discovered 5 6 answer
      answered

abbrev ranked : List (PeerScore thousandths.F)
ranked = scored_peer fast 1 ∷ scored_peer slow 2 ∷ []

try_peers_first_example :
    ((d : PeerScore thousandths.F) × (res : InferenceResult) × Answers thousandths gateway request
        (peer_context options 0)
        0
        ranked
        d
        res
      × ((try_peers thousandths client gateway request (peer_context options 0) 6 ranked 0 none).1
          ≡ ok res))
    ⊎ ((e : Option Str) × AllFail thousandths gateway request
          (peer_context options 0)
          0
          none
          ranked
          e
        × ((try_peers thousandths client gateway request (peer_context options 0) 6 ranked 0 none).1
            ≡ err (all_peers_failed e)))
try_peers_first_example =
    try_peers_first thousandths gateway request (peer_context options 0) 6 ranked client 0 none

slow_Found : Found (str "slow") ranked
unfolding str_eq
slow_Found = record {
  before = scored_peer fast 1 ∷ [];
  entry = scored_peer slow 2;
  after = [];
  split = refl;
  earlier = (λ e. let k = (str_eq_iff (str "fast") (str "slow")).1 e in cc, tt);
  named = refl;
}

still_live : time_after 50 (time_add 6 (pos 100)) ≡ false
unfolding time_after time_add ◌+ℤ◌
still_live = refl

sticky_peer_first_example :
    (f : Found (str "slow") ranked) × ((apply_sticky_priority
        (update_sticky client (str "llama3") (str "slow") 6)
        (str "llama3")
        50
        ranked).1
      ≡ f.entry ∷ (f.before ++ f.after))
sticky_peer_first_example =
    sticky_peer_first client (str "llama3") (str "slow") 6 50 ranked slow_Found refl refl still_live

run_new-Share_example :
    Share thousandths
      (run thousandths (new_capability_state thousandths fast 4) (true ∷ false ∷ []) 4)
      1
      1
run_new-Share_example = run_new-Share thousandths fast true (false ∷ []) 4 (omega arith)

abbrev pub policy : ProviderPolicy thousandths.F
policy = record {
  max_tokens_per_request = pos 2048;
  night_only = false;
  night_start_hour = pos 22;
  night_end_hour = pos 6;
  idle_only = false;
  max_load1m = milli 1500;
  pow_difficulty = pos 2;
  min_peer_reputation = milli 200;
}

abbrev pub limiter : Limiter thousandths.F
limiter = record {
  in_flight = pos 0;
  max_in_flight = pos 2;
  tokens = milli 4000;
  rate_per_second = milli 1000;
  burst = milli 4000;
  last_refill = 0;
}

abbrev pub provider : ProviderService thousandths.F
provider =
    new_provider_service limiter (new_capability_state thousandths fast 4) policy none
      (some (new_reputation_tracker thousandths))

abbrev idle : System thousandths.F
idle = record { service = provider; acquired = 0; running = 0; released = 0 }

pub provider-Slots : Slots thousandths provider.limiter
unfolding new_provider_service
provider-Slots = record {
  not_negative = omega arith;
  within_limit = omega arith;
  limit_fits = omega arith;
}

pub provider-IsInt64 : IsInt64 provider.in_flight_count
unfolding new_provider_service
provider-IsInt64 = record { lower = omega arith; upper = omega arith }

idle-Inv : Inv thousandths same_text idle
unfolding new_provider_service wrap64 of_bits64
idle-Inv = record {
  slots = record {
    not_negative = omega arith;
    within_limit = omega arith;
    limit_fits = omega arith;
  };
  held = refl;
  counted = refl;
}

abbrev pub world : Surroundings thousandths.F
world = record { hour = pos 12; load = none; done = false; now = 7 }

admitted : (admit thousandths same_text provider request context world).1 ≡ none
unfolding admit admit_valid acquire_slot new_provider_service validate validate_pow pow_hash zeros
    low_reputation new_reputation_tracker Reputation.score format_uint acquire refill_locked seconds
    time_sub is_empty lookup thousandths thousandths_mul thousandths_div ◌*ℤ◌ quot_ℤ rem_ℤ ◌+ℤ◌ ◌-ℤ◌
admitted = refl

abbrev one_admitted : System thousandths.F
one_admitted = record {
  service = (admit thousandths same_text provider request context world).0;
  acquired = 1;
  running = 0;
  released = 0;
}

abbrev one_running : System thousandths.F
one_running = record {
  service = count_up thousandths (one_admitted.service);
  acquired = 0;
  running = 1;
  released = 0;
}

abbrev one_released : System thousandths.F
one_released = record {
  service = release_slot thousandths (one_running.service);
  acquired = 0;
  running = 0;
  released = 1;
}

abbrev drained_system : System thousandths.F
drained_system = record {
  service = count_down thousandths (one_released.service);
  acquired = 0;
  running = 0;
  released = 0;
}

to_running : Reach thousandths same_text idle one_running
to_running = next (next here (admits request context world admitted)) (counts 0 refl)

to_drained : Reach thousandths same_text idle drained_system
to_drained = next (next to_running (releases 0 refl)) (discounts 0 refl)

Reach-Inv_example : Inv thousandths same_text drained_system
Reach-Inv_example = Reach-Inv thousandths same_text idle-Inv to_drained

update-get_example : update_routing_settings client (get_routing_settings client) ≡ client
update-get_example = update-get client
