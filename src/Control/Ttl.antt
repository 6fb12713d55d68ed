-- ===== src/Control/Ttl.antt =====
-- The time to live that a control request asks for, in seconds, as a duration of 64 bits.
use agent_community.Common.{
  ℕ, ◌+◌, ◌*◌, ◌/◌, ◌%◌, ◌^◌, ◌≤◌, ◌<◌, ◌≡◌, refl, ap, ◌∙◌, true, ltb, arith,
}
use agent_community.Common.Int.{pos}
use agent_community.Webhook.{second, duration_bits}
use agent_community.Control.{signed, ttl_of, seconds_of}

small_product : (n : ℕ) → n ≤ 9223372036 → n * second % 2 ^ 64 ≡ n * second
small_product n h = omega (arith, h)

exact : (n : ℕ) → n ≤ 9223372036 → ttl_of (pos n) ≡ pos (n * second)
unfolding ttl_of duration_bits
exact n h =
    let below : ltb (n * second) (2 ^ 63) ≡ true = ground (arith, h) in
    rw (small_product n h, below) refl

wrapped : (n : ℕ) → ttl_of (pos (n + 2 ^ 55)) ≡ ttl_of (pos n)
unfolding ttl_of duration_bits
wrapped n = ap signed (omega arith)

-- A time to live goes through a control request in whole seconds.
pub ttl_of-seconds_of :
    (n : ℕ) → n < 2 ^ 63 → ttl_of (seconds_of (pos n)) ≡ pos (n / second * second)
unfolding seconds_of
ttl_of-seconds_of n h = exact (n / second) (omega (arith, h))

-- A number of seconds that fits a duration is that duration, and a number that is larger by 2^55 is
-- taken for the same, since 2^55 seconds are a multiple of 2^64 nanoseconds: so numbers of seconds
-- far beyond the longest time to live are accepted as short ones.
pub ttl_of_bounds :
    (n : ℕ)
    → n ≤ 9223372036
    → (ttl_of (pos n) ≡ pos (n * second)) × (ttl_of (pos (n + 2 ^ 55)) ≡ pos (n * second))
ttl_of_bounds n h = (exact n h, wrapped n ∙ exact n h)
