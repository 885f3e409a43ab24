-- ===== src/App/Capability.antt =====
-- internal/app/capability.go: the capability document that a provider publishes. Each method holds
-- the mutex; the time of the call is an argument.
pub mod Outcomes
use gpuswarm.Common.{ℕ, Bool, true, false, Str, List, if◌then◌else◌, ◌==◌}
use gpuswarm.Common.Int.{ℤ, pos, ◌+ℤ◌, quot_ℤ, eqb_ℤ, wrap64}
use gpuswarm.Common.Floats.{Float64, le}
use gpuswarm.Model.{CapabilityDocument}

pub record CapabilityState (F : Type 0) : Type 0 where
  pub doc : CapabilityDocument F
  pub latency_ema : F
  pub successes : ℤ
  pub failures : ℤ

module _ (fl : Float64) where
  open fl use {F, add, mul, div, eq, of_int, to_int, milli}

  unfoldable pub new_capability_state : CapabilityDocument F → ℕ → CapabilityState F
  new_capability_state initial now =
      let avg = if eqb_ℤ initial.avg_latency_ms (pos 0) then pos 50 else initial.avg_latency_ms in
      record {
        doc = record initial {
          reliability =
              if eq initial.reliability (milli 0) then milli 1000 else initial.reliability;
          updated_at = if initial.updated_at == 0 then now else initial.updated_at;
          avg_latency_ms = avg;
        };
        latency_ema = of_int avg;
        successes = pos 0;
        failures = pos 0;
      }

  unfoldable pub snapshot : CapabilityState F → ℕ → CapabilityDocument F
  snapshot s now = record (s.doc) { updated_at = now }

  unfoldable pub set_queue_depth : CapabilityState F → ℤ → ℕ → CapabilityState F
  set_queue_depth s depth now = record s {
    doc = record (s.doc) { queue_depth = depth; updated_at = now };
  }

  -- The duration is in nanoseconds; Milliseconds truncates towards zero, and alpha is 0.3.
  unfoldable pub update_latency : CapabilityState F → ℤ → ℕ → CapabilityState F
  update_latency s d now =
      let raw = of_int (quot_ℤ d 1_000_000) in
      let ms = if le fl raw (milli 0) then milli 1000 else raw in
      let ema = add (mul (milli 300) ms) (mul (milli 700) s.latency_ema) in
      record s {
        doc = record (s.doc) { avg_latency_ms = to_int ema; updated_at = now };
        latency_ema = ema;
      }

  unfoldable pub record_outcome : CapabilityState F → Bool → ℕ → CapabilityState F
  record_outcome s success now =
      let successes = if success then wrap64 (s.successes +ℤ pos 1) else s.successes in
      let failures = if success then s.failures else wrap64 (s.failures +ℤ pos 1) in
      let total = wrap64 (successes +ℤ failures) in
      record s {
        doc = record (s.doc) {
          reliability =
              if eqb_ℤ total (pos 0) then milli 1000 else div (of_int successes) (of_int total);
          updated_at = now;
        };
        successes = successes;
        failures = failures;
      }

  unfoldable pub set_announce_addrs : CapabilityState F → List Str → ℕ → CapabilityState F
  set_announce_addrs s addrs now = record s {
    doc = record (s.doc) { announce_addrs = addrs; updated_at = now };
  }
