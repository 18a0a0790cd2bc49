-- ===== src/Socket/Framing.antt =====
-- src/rsb/transport/socket/BusConnection.cpp: the length in front of each message, in four bytes with
-- the lowest first.
use rsb_cpp.Prelude.{
  ℕ, ◌+◌, ◌*◌, ◌/◌, ◌%◌, ◌^◌, ◌<◌, ◌≡◌, arith, [], ◌∷◌, ◌++◌, length, get_or, Text, All,
}

-- The bytes of lengthSendBuffer for a message of that size, which is an uint32_t.
unfoldable pub encode_length : ℕ → Text
encode_length size =
    let n = size % 2 ^ 32 in n % 2 ^ 8 ∷ n % 2 ^ 16 / 2 ^ 8 ∷ n % 2 ^ 24 / 2 ^ 16 ∷ n / 2 ^ 24 ∷ []

-- The size in lengthReceiveBuffer; its four shifted bytes share no bit, so that `|` adds them.
unfoldable pub decode_length : Text → ℕ
decode_length buffer =
    get_or buffer 0 0
    + get_or buffer 1 0 * 2 ^ 8
    + get_or buffer 2 0 * 2 ^ 16
    + get_or buffer 3 0 * 2 ^ 24

bytes_sum :
    (n : ℕ)
    → n % 2 ^ 8 + n % 2 ^ 16 / 2 ^ 8 * 2 ^ 8 + n % 2 ^ 24 / 2 ^ 16 * 2 ^ 16 + n / 2 ^ 24 * 2 ^ 24
      ≡ n
bytes_sum n = omega arith

-- The size that the receiver reads is the one that was sent, up to the width of an uint32_t.
pub decode_length-encode_length : (size : ℕ) → decode_length (encode_length size) ≡ size % 2 ^ 32
unfolding decode_length encode_length
decode_length-encode_length size = bytes_sum (size % 2 ^ 32)

-- What sendEvent writes for a message.
abbrev pub frame : Text → Text
frame message = encode_length (length message) ++ message

-- Every byte of the header is one.
pub encode_length-All : (size : ℕ) → All (λ b. b < 2 ^ 8) (encode_length size)
unfolding encode_length
encode_length-All size = (omega arith, (omega arith, (omega arith, (omega arith, tt))))
