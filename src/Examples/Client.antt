-- ===== src/Examples/Client.antt =====
-- Runs of src/client.ts and src/options.ts.
use tephra_js.Base.{
  ℕ, ◌+◌, ◌-◌, ◌*◌, ◌<◌, ◌≤◌, ◌≡◌, refl, true, false, none, some, [], ◌∷◌, ok, err, All, arith,
}
use tephra_js.Failure.{connection_error}
use tephra_js.Connection.{Conn, new_conn}
use tephra_js.Options.{
  Number, not_finite, below_zero, from_zero, flag, ClientOptions, positive_or, bulk_or_default,
  resolve_tls, resolve_config,
}
use tephra_js.Options.Bounds.{resolve_config_bounds}
use tephra_js.Client.{
  Client, on_bulk, pick_bulk, pick_from, connect, close, finite, to_big_int_limit, call_picked,
  if_open, read, range_error,
}
use tephra_js.Text.{Text}
use tephra_js.Client.Address.{trim, trim_start, is_space, parse_address}
use tephra_js.Client.Address.Ports.{PortOf, parse_address-IsPort, parse_address-bracketed}
use tephra_js.Client.Rounds.{picked, pick_bulk_rounds}
use tephra_js.Client.Closing.{AllOrNone, connect-AllOrNone, Rejects, close-Rejects}

abbrev given : ClientOptions ℕ
given = record {
  bulk_connections = some (from_zero 0 true);
  max_inflight_requests = some not_finite;
  request_queue_depth = some (from_zero 0 false);
  max_frame_len = some (from_zero 65536 true);
  tls = some (flag true);
  auth_token = none;
  connect_timeout = some below_zero;
}

given-resolved : resolve_config 7 given ≡ record {
  bulk_connections = 0;
  max_inflight_requests = 1024;
  request_queue_depth = 256;
  max_frame_len = 65536;
  tls = some 7;
  auth_token = none;
  connect_timeout = some below_zero;
}
unfolding resolve_config positive_or bulk_or_default resolve_tls
given-resolved = refl

resolve_config_bounds_example :
    (1 ≤ (resolve_config 7 given).max_inflight_requests)
    × (1 ≤ (resolve_config 7 given).request_queue_depth)
    × (1 ≤ (resolve_config 7 given).max_frame_len)
resolve_config_bounds_example = resolve_config_bounds 7 given

abbrev small : ℕ → Conn
small max = new_conn max 1 1

abbrev three : Client
three = record {
  control = small 16;
  bulk = small 17 ∷ small 18 ∷ small 19 ∷ [];
  next_bulk = 2;
  closed = false;
}

pick_bulk_rounds_example : ((pick_bulk (picked 2 three)).0 ≡ on_bulk 1) × (1 < 3)
pick_bulk_rounds_example = pick_bulk_rounds 2 three (λ e. cc)

connect-AllOrNone_example :
    AllOrNone
      (ok (small 16) ∷ err connection_error ∷ ok (small 18) ∷ [])
      (connect (ok (small 16)) (err connection_error ∷ ok (small 18) ∷ []))
connect-AllOrNone_example =
    connect-AllOrNone (ok (small 16)) (err connection_error ∷ ok (small 18) ∷ [])

close-Rejects_example :
    ((close three).control.dead ≡ true)
    × All (λ (conn : Conn). conn.dead ≡ true) (close three).bulk
    × Rejects (close three)
close-Rejects_example = close-Rejects three refl

-- Decimal digits.
unfoldable decimal_from : ℕ → Text → Number
decimal_from n [] = from_zero n true
decimal_from n (c ∷ cs) = decimal_from (n * 10 + (c - 0x30)) cs

abbrev decimal : Text → Number
decimal digits = decimal_from 0 digits

-- "db:70"
abbrev db : Text
db = 0x64 ∷ 0x62 ∷ 0x3a ∷ 0x37 ∷ 0x30 ∷ []

db_trimmed : trim db ≡ db
unfolding trim trim_start is_space
db_trimmed = refl

parse_address-IsPort_example : PortOf (parse_address decimal db)
parse_address-IsPort_example = parse_address-IsPort decimal db (rw db_trimmed (omega arith))

-- "[::1]:0": a port that does not exist is returned.
abbrev loopback : Text
loopback = 0x5b ∷ 0x3a ∷ 0x3a ∷ 0x31 ∷ 0x5d ∷ 0x3a ∷ 0x30 ∷ []

loopback_trimmed : trim loopback ≡ loopback
unfolding trim trim_start is_space
loopback_trimmed = refl

parse_address-bracketed_example :
    parse_address decimal loopback ≡ ok (0x3a ∷ 0x3a ∷ 0x31 ∷ [], decimal (0x30 ∷ []))
parse_address-bracketed_example =
    parse_address-bracketed decimal (0x3a ∷ 0x3a ∷ 0x31 ∷ []) (0x30 ∷ []) loopback_trimmed
      (omega arith, (omega arith, (omega arith, tt)))

-- A limit of two and a half is refused when the round has gone on, from the third connection to the
-- first.
half_limit-range_error :
    read (record { match_all = true; items = [] }) 0 (some (finite 2 false)) false three
    ≡ (record three { next_bulk = 0 }, err range_error)
unfolding read if_open call_picked to_big_int_limit pick_bulk pick_from
half_limit-range_error = refl
