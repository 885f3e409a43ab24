-- ===== src/Control.antt =====
-- internal/control: the errors that its parts return. A request's context that has ended is
-- `context_done`, an error of a backend carries its text.
pub mod Credits
pub mod Reputation
pub mod Limiter
pub mod Pow
pub mod Policy
use gpuswarm.Common.{Str}

pub data Error : Type 0 where
  tokens_exceeded outside_serving_window host_busy invalid_pow peer_reputation_low : Error
  rate_limited too_many_in_flight context_done : Error
  backend : Str → Error
