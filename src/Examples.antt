-- ===== src/Examples.antt =====
-- Test data, and every theorem with hypotheses applied to it. Numbers are in thousandths, sorting is by
-- insertion, and a hash is the text itself.
pub mod Control
pub mod Routing
pub mod App
pub mod Network
pub mod Command
pub mod Stream
pub mod Discovery
pub mod Start
pub mod Exchange
pub mod Chat
use gpuswarm.Common.{ℕ, Bool, true, false, none, some, Str, str, List, [], ◌∷◌}
use gpuswarm.Common.Int.{pos}
use gpuswarm.Common.Floats.{thousandths}
use gpuswarm.Model.{
  ModelSpec, ModelRequirements, ChatCompletionRequest, CapabilityDocument, PeerContext,
  RoutingWeights,
}
use gpuswarm.Routing.{Router, Preferences, PeerScore}

abbrev pub same_text : Str → Str
same_text s = s

abbrev pub milli : ℕ → thousandths.F
milli = thousandths.milli

abbrev pub llama : ModelSpec
llama = record {
  name = str "llama3";
  sha256 = str "abc";
  tokenizer = [];
  quant = str "Q4";
  backend = str "ollama";
  max_ctx = pos 4096;
}

abbrev pub any_backend : ModelRequirements
any_backend = record { sha256 = []; tokenizer = []; quant = str "Q4"; backend = [] }

abbrev pub request : ChatCompletionRequest
request = record {
  model = str "llama3";
  messages = [];
  stream = false;
  max_tokens = pos 64;
  requirements = any_backend;
  metadata = none;
}

abbrev pub peer : Str → ℕ → CapabilityDocument thousandths.F
peer id latency = record {
  peer_id = id;
  is_self = false;
  node_name = [];
  models = llama ∷ [];
  announce_addrs = [];
  gpu = [];
  vram_free_mb = pos 8000;
  queue_depth = pos 1;
  avg_latency_ms = pos latency;
  reliability = milli 900;
  gateway_url = id;
  updated_at = latency;
}

abbrev pub slow : CapabilityDocument thousandths.F
slow = peer (str "slow") 90

abbrev pub fast : CapabilityDocument thousandths.F
fast = peer (str "fast") 10

abbrev pub router : Router thousandths.F
router = record {
  weights = record {
    latency = milli 450;
    queue_depth = milli 250;
    vram_pressure = milli 150;
    reliability = milli 150;
    favorite_bonus = milli 200;
    known_bonus = milli 100;
  };
}

abbrev pub scored_peer : CapabilityDocument thousandths.F → ℕ → PeerScore thousandths.F
scored_peer p s = record { capability = p; score = milli s }

abbrev pub context : PeerContext
context = record { client_peer_id = str "00client"; client_name = []; pow_nonce = 0 }
