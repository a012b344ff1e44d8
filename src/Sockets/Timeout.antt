-- ===== src/Sockets/Timeout.antt =====
-- src/sockcan/daemon/_server.py: `_set_send_timeout`, with the time in whole nanoseconds.
use sockcan.Prelude.{ℕ, ◌+◌, ◌*◌, ◌/◌, ◌%◌, ◌^◌, ◌≤◌, ◌<◌, ◌≡◌, ◌↔◌, arith, Bool, true, false}
use sockcan.Prelude.{ltb, if◌then◌else◌, Result, ok, raise, struct_error}

-- The value of SO_SNDTIMEO: milliseconds on Windows, seconds and microseconds elsewhere.
pub data SendTimeout : Type 0 where
  milliseconds : ℕ → SendTimeout
  timeval : ℕ → ℕ → SendTimeout

-- `round(n / d)`: a half goes to the even neighbour.
unfoldable pub round_div : ℕ → ℕ → ℕ
round_div n d =
    if ltb (2 * (n % d)) d
    then n / d
    else if ltb d (2 * (n % d))
    then n / d + 1
    else n / d + n / d % 2

-- The fields are packed as an unsigned int, or as two longs of 64 bits.
unfoldable pub send_timeout_value : Bool → ℕ → Result SendTimeout
unfolding round_div
send_timeout_value true ns =
    if ltb (round_div ns 1000000) (2 ^ 32)
    then ok (milliseconds (round_div ns 1000000))
    else raise struct_error
send_timeout_value false ns =
    if ltb (ns / 1000000000) (2 ^ 63)
    then ok (timeval (ns / 1000000000) (round_div (ns % 1000000000) 1000))
    else raise struct_error

abbrev pub WindowsTimeout : ℕ → Type 0
WindowsTimeout ns =
    (ms : ℕ) × (send_timeout_value true ns ≡ ok (milliseconds ms))
    × (2 * (ms * 1000000) ≤ 2 * ns + 1000000)
    × (2 * ns ≤ 2 * (ms * 1000000) + 1000000)
    × ((ms ≡ 0) ↔ (ns ≤ 500000))

abbrev pub PosixTimeout : ℕ → Type 0
PosixTimeout ns =
    (micros : ℕ) × (send_timeout_value false ns ≡ ok (timeval (ns / 1000000000) micros))
    × (2 * (ns / 1000000000 * 1000000000 + micros * 1000) ≤ 2 * ns + 1000)
    × (2 * ns ≤ 2 * (ns / 1000000000 * 1000000000 + micros * 1000) + 1000)
    × ((micros < 1000000) ↔ (ns % 1000000000 < 999999500))
    × (((ns / 1000000000 ≡ 0) × (micros ≡ 0)) ↔ (ns ≤ 500))

windows_timeout : (ns : ℕ) → ns < 4000000000000000 → WindowsTimeout ns
unfolding send_timeout_value round_div
windows_timeout ns small = (
  round_div ns 1000000,
  ground (arith, small),
  ground (arith, small),
  ground (arith, small),
  ground (arith, small),
)

posix_timeout : (ns : ℕ) → ns < 4000000000000000 → PosixTimeout ns
unfolding send_timeout_value round_div
posix_timeout ns small = (
  round_div (ns % 1000000000) 1000,
  ground (arith, small),
  ground (arith, small),
  ground (arith, small),
  ground (arith, small),
  ground (arith, small),
)

-- The value of every send timeout below about 46 days is packed without an error, and is half a unit
-- off at most. On Windows, the unit is a millisecond: half a millisecond or less becomes 0. Elsewhere
-- it is a microsecond, and 500 nanoseconds or less become 0. There the second field is below a
-- million exactly if the fraction of a second is less than 999999.5 microseconds: it is rounded
-- without a carry, so that a fraction above that is packed as a million microseconds. Whether
-- setsockopt takes the value is not part of this.
pub send_timeout_value-near : (ns : ℕ) → ns < 4000000000000000 → WindowsTimeout ns × PosixTimeout ns
send_timeout_value-near ns small = (windows_timeout ns small, posix_timeout ns small)
