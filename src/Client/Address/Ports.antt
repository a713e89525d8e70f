-- ===== src/Client/Address/Ports.antt =====
-- The ports that parseAddress of src/client.ts returns.
use tephra_js.Base.{
  ℕ, ◌≤◌, ◌≡◌, ◌≢◌, refl, true, false, Option, none, some, [], ◌∷◌, ◌++◌, ◌==◌, Result, ok, err,
  arith, if-elim, All, ==→eq, eq→==,
}
use tephra_js.Text.{Text}
use tephra_js.Options.{Number, not_finite, below_zero, from_zero}
use tephra_js.Client.Address.{
  AddressError, default_port, trim, valid_port, with_port, parse_trimmed, parse_address, bracketed,
  split_first, port_after,
}

-- A port that TCP knows.
abbrev pub IsPort : Number → Type 0
IsPort p = (n : ℕ) × (p ≡ from_zero n true) × (1 ≤ n) × (n ≤ 65535)

valid_port-IsPort : (p : Number) → valid_port p ≡ true → IsPort p
valid_port-IsPort not_finite h = cc
valid_port-IsPort below_zero h = cc
valid_port-IsPort (from_zero n true) h = (n, refl, ground arith, ground arith)
valid_port-IsPort (from_zero n false) h = cc

unequal : (a b : ℕ) → a ≢ b → a == b ≡ false
unequal a b h = ground arith

-- The text that follows the white space does not begin with a bracket.
abbrev pub Unbracketed : Text → Type 0
Unbracketed [] = Unit {0}
Unbracketed (c ∷ cs) = c ≢ 0x5b

-- The port of an address that was parsed; nothing for an error.
abbrev pub PortOf : Result AddressError (Text × Number) → Type 0
PortOf (err e) = Unit {0}
PortOf (ok (host, port)) = IsPort port

module _ (number_of : Text → Number) where
  with_port-IsPort : (o : Option (Text × Text)) (text : Text) → PortOf (with_port number_of o text)
  unfolding with_port
  with_port-IsPort none text = (default_port, refl, omega arith, omega arith)
  with_port-IsPort (some (host, digits)) text =
      if-elim PortOf (valid_port (number_of digits)) (λ h. valid_port-IsPort _ h) (λ _. tt)

  parse_trimmed-IsPort : (text : Text) → Unbracketed text → PortOf (parse_trimmed number_of text)
  unfolding parse_trimmed
  parse_trimmed-IsPort [] h = with_port-IsPort _ []
  parse_trimmed-IsPort (c ∷ cs) h =
      if-elim PortOf (c == 0x5b) (λ e. absurd (h (==→eq c 0x5b e))) λ _. with_port-IsPort _ (c ∷ cs)

-- When a trimmed address does not begin with a bracket, a port that parseAddress returns is a whole
-- number from 1 to 65535.
pub parse_address-IsPort :
    (number_of : Text → Number) (addr : Text)
    → Unbracketed (trim addr)
    → PortOf (parse_address number_of addr)
unfolding parse_address
parse_address-IsPort number_of addr h = parse_trimmed-IsPort number_of (trim addr) h

split_first-append :
    (u : ℕ) (before cs : Text)
    → All (λ c. c ≢ u) before
    → split_first u (before ++ u ∷ cs) ≡ some (before, cs)
unfolding split_first
split_first-append u [] cs h = rw (eq→== u u refl) refl
split_first-append u (c ∷ before) cs h =
    rw (unequal c u h.0, split_first-append u before cs h.1) refl

-- A trimmed address of a bracketed host without a closing bracket in it, a colon, and any text is
-- parsed to that host and to whatever Number reads in the text.
pub parse_address-bracketed :
    (number_of : Text → Number) (host digits : Text)
    → trim (0x5b ∷ host ++ 0x5d ∷ 0x3a ∷ digits) ≡ 0x5b ∷ host ++ 0x5d ∷ 0x3a ∷ digits
    → All (λ d. d ≢ 0x5d) host
    → parse_address number_of (0x5b ∷ host ++ 0x5d ∷ 0x3a ∷ digits) ≡ ok (host, number_of digits)
unfolding parse_address parse_trimmed bracketed port_after
parse_address-bracketed number_of host digits t h =
    rw (t, split_first-append 0x5d host (0x3a ∷ digits) h) refl
