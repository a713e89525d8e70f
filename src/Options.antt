-- ===== src/Options.antt =====
-- src/options.ts: the options of a client and the configuration made of them.
pub mod Bounds
use tephra_js.Base.{ℕ, ◌*◌, Bool, true, false, Option, none, some, if◌then◌else◌, ltb}
use tephra_js.Text.{Text}

-- A number of JavaScript: NaN or infinite, below zero, or its integer part and whether it is whole.
pub data Number : Type 0 where
  not_finite below_zero : Number
  from_zero : ℕ → Bool → Number

abbrev pub default_max_frame_len : ℕ
default_max_frame_len = 16 * 1024 * 1024

abbrev pub default_bulk_connections : ℕ
default_bulk_connections = 4

abbrev pub default_max_inflight_requests : ℕ
default_max_inflight_requests = 1024

abbrev pub default_request_queue_depth : ℕ
default_request_queue_depth = 256

-- `tls`: a flag, or the options of node:tls.
pub data Tls (T : Type 0) : Type 0 where
  flag : Bool → Tls T
  custom : T → Tls T

pub record ClientOptions (T : Type 0) : Type 0 where
  pub bulk_connections : Option Number
  pub max_inflight_requests : Option Number
  pub request_queue_depth : Option Number
  pub max_frame_len : Option Number
  pub tls : Option (Tls T)
  pub auth_token : Option Text
  pub connect_timeout : Option Number

pub record ResolvedConfig (T : Type 0) : Type 0 where
  pub bulk_connections : ℕ
  pub max_inflight_requests : ℕ
  pub request_queue_depth : ℕ
  pub max_frame_len : ℕ
  pub tls : Option T
  pub auth_token : Option Text
  pub connect_timeout : Option Number

-- A value from zero on is below one when its integer part is zero.
unfoldable pub positive_or : Option Number → ℕ → ℕ
positive_or none fallback = fallback
positive_or (some not_finite) fallback = fallback
positive_or (some below_zero) fallback = fallback
positive_or (some (from_zero n whole)) fallback = if ltb n 1 then fallback else n

unfoldable pub bulk_or_default : Option Number → ℕ
bulk_or_default none = default_bulk_connections
bulk_or_default (some not_finite) = default_bulk_connections
bulk_or_default (some below_zero) = default_bulk_connections
bulk_or_default (some (from_zero n whole)) = n

-- `no_options` is the empty object.
module _ {T : Type 0} (no_options : T) where
  unfoldable pub resolve_tls : Option (Tls T) → Option T
  resolve_tls none = none
  resolve_tls (some (flag false)) = none
  resolve_tls (some (flag true)) = some no_options
  resolve_tls (some (custom options)) = some options

  unfoldable pub resolve_config : ClientOptions T → ResolvedConfig T
  resolve_config options = record {
    bulk_connections = bulk_or_default options.bulk_connections;
    max_inflight_requests = positive_or options.max_inflight_requests default_max_inflight_requests;
    request_queue_depth = positive_or options.request_queue_depth default_request_queue_depth;
    max_frame_len = positive_or options.max_frame_len default_max_frame_len;
    tls = resolve_tls options.tls;
    auth_token = options.auth_token;
    connect_timeout = options.connect_timeout;
  }
