-- ===== src/Knocker.antt =====
-- knocker: the port scanner, in four versions. Here stands what they share: the limits, the check
-- of the port range, and the word that carries a socket and its port through `epoll`.
pub mod Blocking
pub mod Epoll
pub mod Intrusive
mod Tests
pub mod Timer
use low_level_cpp.Base.{
  ℕ, ◌+◌, ◌*◌, ◌/◌, ◌%◌, ◌^◌, ◌<◌, ◌≡◌, Bool, ◌||◌, not, arith, ltb, bit_and, bit_or, ap, ◌∙◌,
}
use low_level_cpp.Base.Bits.{bit_and-ones, bit_or-fields}

abbrev pub max_in_flight : ℕ
max_in_flight = 500

-- `start_port < 1 || end_port > 65535 || start_port > end_port`, for ports that are not negative.
unfoldable pub invalid_range : (start_port end_port : ℕ) → Bool
invalid_range start_port end_port =
    ltb start_port 1 || ltb 65535 end_port || ltb end_port start_port

-- `((uint64_t)sock << 32) | (uint32_t)port`.
unfoldable pub pack : (sock port : ℕ) → ℕ
pack sock port = bit_or (sock * 2 ^ 32 % 2 ^ 64) (port % 2 ^ 32)

-- `int fd = data >> 32`, for a word whose high half is below `2 ^ 31`.
unfoldable pub unpack_fd : ℕ → ℕ
unpack_fd word = word / 2 ^ 32

-- `int p = data & 0xFFFFFFFF`.
unfoldable pub unpack_port : ℕ → ℕ
unpack_port word = bit_and word 0xffff_ffff

-- A socket number and a port survive the way through the 64-bit word.
pub unpack-pack :
    (sock port : ℕ)
    → sock < 2 ^ 31
    → port < 2 ^ 31
    → (unpack_fd (pack sock port) ≡ sock) × (unpack_port (pack sock port) ≡ port)
unfolding pack unpack_fd unpack_port
unpack-pack sock port small_sock small_port =
    let fits : sock * 2 ^ 32 % 2 ^ 64 ≡ sock * 2 ^ 32 = omega arith in
    let low : port % 2 ^ 32 ≡ port = omega arith in
    let word = bit_or-fields 32 sock port (omega arith) in
    rw (fits, low, word) (omega arith, bit_and-ones 32 (sock * 2 ^ 32 + port) ∙ omega arith)
