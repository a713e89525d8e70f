-- ===== src/Messages/Sound.antt =====
-- What a value must meet to come back from its bytes unchanged.
use tephra_js.Base.{length}
use tephra_js.Text.{Text, Bytes, IsText, encode_utf8}
use tephra_js.Wire.Number.{IsSafe}

-- A string that comes back, of a length that a number holds.
pub record IsName (s : Text) : Type 0 where
  pub text : IsText s
  pub safe : IsSafe (length (encode_utf8 s))

-- A message that is valid, in bytes whose count a number holds.
pub record Fits {A : Type 0} (P : A → Type 0) (encode : A → Bytes) (a : A) : Type 0 where
  pub valid : P a
  pub safe : IsSafe (length (encode a))
