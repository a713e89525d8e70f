-- ===== src/Client/Address.antt =====
-- parseAddress of src/client.ts. What `Number` reads in a string of digits is a parameter.
pub mod Ports
use tephra_js.Base.{
  ℕ, Bool, true, false, ◌&&◌, Option, none, some, List, [], ◌∷◌, if◌then◌else◌, ◌==◌, leb, Result,
  ok, err,
}
use mathlib.Core.List.{reverse}
use tephra_js.Text.{Text}
use tephra_js.Options.{Number, not_finite, below_zero, from_zero}

-- The TypeError for the address, and for its port.
pub data AddressError : Type 0 where
  invalid_address invalid_port : AddressError

abbrev pub default_port : ℕ
default_port = 9000

-- Blanks and ends of lines, as `trim` takes them off.
abbrev one_of : ℕ → List ℕ → Bool
one_of c [] = false
one_of c (u ∷ us) = if c == u then true else one_of c us

unfoldable pub is_space : ℕ → Bool
is_space c =
    if leb 9 c && leb c 13
    then true
    else if leb 0x2000 c && leb c 0x200a
    then true
    else one_of c (0x20 ∷ 0xa0 ∷ 0x1680 ∷ 0x2028 ∷ 0x2029 ∷ 0x202f ∷ 0x205f ∷ 0x3000 ∷ 0xfeff ∷ [])

unfoldable pub trim_start : Text → Text
trim_start [] = []
trim_start (c ∷ cs) = if is_space c then trim_start cs else c ∷ cs

unfoldable pub trim : Text → Text
trim text = reverse (trim_start (reverse (trim_start text)))

-- `indexOf` and `lastIndexOf` of one unit, with the slices before it and behind it.
abbrev pub after_unit : ℕ → Option (Text × Text) → Option (Text × Text)
after_unit c none = none
after_unit c (some (before, behind)) = some (c ∷ before, behind)

unfoldable pub split_first : ℕ → Text → Option (Text × Text)
split_first u [] = none
split_first u (c ∷ cs) =
    let rest = split_first u cs in if c == u then some ([], cs) else after_unit c rest

abbrev pub split_at : ℕ → ℕ → Text → Option (Text × Text) → Option (Text × Text)
split_at u c cs none = if c == u then some ([], cs) else none
split_at u c cs (some (before, behind)) = some (c ∷ before, behind)

unfoldable pub split_last : ℕ → Text → Option (Text × Text)
split_last u [] = none
split_last u (c ∷ cs) = split_at u c cs (split_last u cs)

abbrev pub valid_port : Number → Bool
valid_port not_finite = false
valid_port below_zero = false
valid_port (from_zero n whole) = whole && leb 1 n && leb n 65535

-- "127.0.0.1" for no host.
abbrev pub or_local : Text → Text
or_local [] = 0x31 ∷ 0x32 ∷ 0x37 ∷ 0x2e ∷ 0x30 ∷ 0x2e ∷ 0x30 ∷ 0x2e ∷ 0x31 ∷ []
or_local (c ∷ cs) = c ∷ cs

module _ (number_of : Text → Number) where
  unfoldable pub port_after : Text → Number
  port_after [] = from_zero default_port true
  port_after (c ∷ digits) = if c == 0x3a then number_of digits else from_zero default_port true

  unfoldable pub bracketed : Option (Text × Text) → Result AddressError (Text × Number)
  bracketed none = err invalid_address
  bracketed (some (host, rest)) = ok (host, port_after rest)

  unfoldable pub with_port : Option (Text × Text) → Text → Result AddressError (Text × Number)
  with_port none text = ok (text, from_zero default_port true)
  with_port (some (host, digits)) text =
      if valid_port (number_of digits)
      then ok (or_local host, number_of digits)
      else err invalid_port

  -- From the trimmed address on: 0x5b is `[`, 0x5d is `]` and 0x3a is `:`.
  unfoldable pub parse_trimmed : Text → Result AddressError (Text × Number)
  parse_trimmed [] = with_port (split_last 0x3a []) []
  parse_trimmed (c ∷ cs) =
      if c == 0x5b
      then bracketed (split_first 0x5d cs)
      else with_port (split_last 0x3a (c ∷ cs)) (c ∷ cs)

  unfoldable pub parse_address : Text → Result AddressError (Text × Number)
  parse_address addr = parse_trimmed (trim addr)
