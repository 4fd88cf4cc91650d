-- ===== src/Lease/Config.antt =====
-- src/server/modules/lease/config.ts: scopes, timings, and the arithmetic of the cap. The columns
-- that feed it are integers that are not negative, so `Math.floor` and the tests for a finite
-- number leave them alone; an absent or null input is `none`.
use Prim.Native.String.{String}
use text.Mathlib.Text.{◌==◌ as str_eq}
use license_srv.Prelude.{ℕ, ◌+◌, ◌*◌, max, Bool, Option, none, some, if◌then◌else◌, ltb, leb}
use license_srv.Store.{ConcurrencyScope, session, machine, user}

pub record LeaseTimings : Type 0 where
  pub heartbeat_seconds : ℕ
  pub ttl_seconds : ℕ
  pub grace_seconds : ℕ
  pub sweep_seconds : ℕ

abbrev pub default_heartbeat_seconds : ℕ
default_heartbeat_seconds = 600

abbrev pub default_ttl_seconds : ℕ
default_ttl_seconds = 1800

abbrev pub default_grace_seconds : ℕ
default_grace_seconds = 300

abbrev pub default_sweep_seconds : ℕ
default_sweep_seconds = 60

abbrev pub default_sweep_max_batch : ℕ
default_sweep_max_batch = 1000

abbrev pub ttl_heartbeat_multiple : ℕ
ttl_heartbeat_multiple = 3

unfoldable pub resolve_scope : String → ConcurrencyScope → ConcurrencyScope
resolve_scope raw dflt =
    if str_eq raw "session"
    then session
    else if str_eq raw "machine"
    then machine
    else if str_eq raw "user"
    then user
    else dflt

unfoldable pub positive_or : Option ℕ → ℕ → ℕ
positive_or none dflt = dflt
positive_or (some n) dflt = if ltb 0 n then n else dflt

unfoldable pub non_neg_or : Option ℕ → ℕ → ℕ
non_neg_or none dflt = dflt
non_neg_or (some n) dflt = n

-- The fields of a `Partial<LeaseTimings>`.
unfoldable pub resolve_timings : Option ℕ → Option ℕ → Option ℕ → Option ℕ → LeaseTimings
unfolding positive_or non_neg_or
resolve_timings heartbeat ttl grace sweep =
    let heartbeat_seconds = positive_or heartbeat default_heartbeat_seconds in
    let raw_ttl = positive_or ttl default_ttl_seconds in
    let floor = ttl_heartbeat_multiple * heartbeat_seconds in
    record {
      heartbeat_seconds = heartbeat_seconds;
      ttl_seconds = max raw_ttl floor;
      grace_seconds = non_neg_or grace default_grace_seconds;
      sweep_seconds = positive_or sweep default_sweep_seconds;
    }

unfoldable pub effective_cap : ℕ → ℕ → ℕ
effective_cap max_concurrent overage_allowance =
    let overage = if ltb 0 overage_allowance then overage_allowance else 0 in
    max_concurrent + overage

unfoldable pub is_overage_seat : ℕ → ℕ → Bool
is_overage_seat live_count_before max_concurrent = leb max_concurrent live_count_before

unfoldable pub can_admit : ℕ → ℕ → ℕ → Bool
unfolding effective_cap
can_admit live_count_before max_concurrent overage_allowance =
    ltb live_count_before (effective_cap max_concurrent overage_allowance)
