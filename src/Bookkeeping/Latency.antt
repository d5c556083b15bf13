-- ===== src/Bookkeeping/Latency.antt =====
-- The moving average of an upstream server's times (include/bookkeeping/server.hpp, and
-- `processUpstreamResponse` of src/dns/server.cpp). A std::time_t is a word of 64 bits.
use dns_wrapper.Common.{ℕ, ◌+◌, ◌-◌, ◌*◌, ◌/◌, ◌%◌, ◌^◌, ltb, ◌==◌, if◌then◌else◌}

abbrev pub two_64 : ℕ
two_64 = 2 ^ 64

-- `Latency` and `MMA` of `stats`.
pub record Times : Type 0 where
  pub latency : ℕ
  pub mma : ℕ

-- The difference of two words.
abbrev pub minus : ℕ → ℕ → ℕ
minus a b = (a + (two_64 - b)) % two_64

-- The signed quotient by 128, towards zero.
unfoldable pub over_128 : ℕ → ℕ
over_128 w = if ltb w (2 ^ 63) then w / 128 else minus 0 ((two_64 - w) / 128)

-- What an answer at `now` to a request that was forwarded at `sent` does.
unfoldable pub take_time : ℕ → ℕ → Times → Times
unfolding over_128
take_time now sent t =
    let spent = minus now sent in
    let mma =
      if t.latency == 0 then spent * 128 % two_64 else minus ((t.mma + spent) % two_64) t.latency in
    record { latency = over_128 mma; mma = mma }

abbrev pub no_times : Times
no_times = record { latency = 0; mma = 0 }
