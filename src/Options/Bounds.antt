-- ===== src/Options/Bounds.antt =====
-- The configuration that src/options.ts makes of any options.
use tephra_js.Base.{ℕ, ◌≤◌, Option, none, some, arith}
use tephra_js.Options.{
  Number, not_finite, below_zero, from_zero, ClientOptions, positive_or, resolve_config,
  default_max_frame_len, default_max_inflight_requests, default_request_queue_depth,
}

-- With a usable default, what comes out is at least one.
positive_or_bound : (o : Option Number) (fallback : ℕ) → 1 ≤ fallback → 1 ≤ positive_or o fallback
unfolding positive_or
positive_or_bound none fallback h = h
positive_or_bound (some not_finite) fallback h = h
positive_or_bound (some below_zero) fallback h = h
positive_or_bound (some (from_zero n whole)) fallback h = ground arith

-- Whatever the options, the configuration has at least one request in flight, one place in the
-- queue and one byte in a frame.
pub resolve_config_bounds :
    {T : Type 0} (no_options : T) (options : ClientOptions T)
    → (1 ≤ (resolve_config no_options options).max_inflight_requests)
      × (1 ≤ (resolve_config no_options options).request_queue_depth)
      × (1 ≤ (resolve_config no_options options).max_frame_len)
unfolding resolve_config
resolve_config_bounds no_options options = (
  positive_or_bound options.max_inflight_requests default_max_inflight_requests (omega arith),
  positive_or_bound options.request_queue_depth default_request_queue_depth (omega arith),
  positive_or_bound options.max_frame_len default_max_frame_len (omega arith),
)
