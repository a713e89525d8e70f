-- ===== src/Framing/Header.antt =====
-- The length prefix of src/framing.ts: its four bytes, written and read.
use tephra_js.Base.{
  ℕ, ◌+◌, ◌*◌, ◌/◌, ◌%◌, ◌^◌, ◌<◌, ◌≤◌, ◌≡◌, ap, ◌∙◌, [], ◌∷◌, ◌++◌, bit_or, ltb, ok, err, length,
  arith, ltb→lt, ltb→le, Bool-cases, inl, inr, ◌⊎◌,
}
use tephra_js.Base.Bits.{and_mask, or_shifted}
use tephra_js.Text.{Bytes}
use tephra_js.Framing.{frame_too_large, shifted_byte, write_frame, read_u32_be}

abbrev pub header : ℕ → Bytes
header len =
    shifted_byte len 24 ∷ shifted_byte len 16 ∷ shifted_byte len 8 ∷ shifted_byte len 0 ∷ []

-- Two ors of bytes in their places are a sum.
join_bytes :
    (a b c : ℕ)
    → b < 256
    → c < 256
    → bit_or (bit_or (a * 2 ^ 16) (b * 2 ^ 8)) c ≡ a * 2 ^ 16 + b * 2 ^ 8 + c
join_bytes a b c hb hc =
    ap (λ t. bit_or t c) (or_shifted 16 a (b * 2 ^ 8) (omega arith) ∙ regroup)
    ∙ or_shifted 8 (a * 2 ^ 8 + b) c hc
    ∙ omega arith
  where
    regroup : a * 2 ^ 16 + b * 2 ^ 8 ≡ (a * 2 ^ 8 + b) * 2 ^ 8
    regroup = omega arith

low_byte : (len k : ℕ) → shifted_byte len k ≡ len % 2 ^ 32 / 2 ^ k % 256
low_byte len k = and_mask 8 (len % 2 ^ 32 / 2 ^ k)

-- The four bytes of a length prefix, whatever follows them, are read back as the length modulo
-- 2^32.
pub read_u32_be-header :
    (len : ℕ) (rest : Bytes) → read_u32_be (header len ++ rest) 0 ≡ len % 2 ^ 32
unfolding read_u32_be
read_u32_be-header len rest =
    rw (low_byte len 24, low_byte len 16, low_byte len 8, low_byte len 0)
      (ap (λ t. n / 2 ^ 24 % 256 * 0x100_0000 + t)
          (join_bytes (n / 2 ^ 16 % 256) (n / 2 ^ 8 % 256) (n / 2 ^ 0 % 256) (omega arith)
            (omega arith))
        ∙ omega arith)
  where
    n : ℕ
    n = len % 2 ^ 32

-- `write_frame` refuses a body above the maximum, and otherwise puts the prefix before the body.
pub write_frame_cases :
    (body : Bytes) (max : ℕ)
    → ((max < length body) × (write_frame body max ≡ err (frame_too_large (length body) max)))
      ⊎ ((length body ≤ max) × (write_frame body max ≡ ok (header (length body) ++ body)))
unfolding write_frame
write_frame_cases body max = elim (Bool-cases (ltb max (length body))) [
  | inl over ↦ inl (ltb→lt max (length body) over, rw over)
  | inr fits ↦ inr (ltb→le max (length body) fits, rw fits)
]
