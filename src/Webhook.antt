-- ===== src/Webhook.antt =====
-- The delivery of events to callbacks: internal/communityserver/webhook.go.
pub mod Attempt
pub mod Resolve
use agent_community.Common.{
  ℕ, zero, suc, ◌+◌, ◌-◌, ◌*◌, ◌^◌, ◌%◌, String, Bool, true, false, ◌&&◌, ◌||◌, not, Option, none,
  some, ltb, leb, eqb, ◌==◌, if◌then◌else◌,
}
use Prim.Native.Char.{len_utf8}
use agent_community.Common.Int.{ℤ, pos, negsuc}
use agent_community.Discussion.Model.{Time, DeliveryRecord}
use agent_community.Discussion.Exec.{Result}
use agent_community.Discussion.Deliveries.{Store, retry_delivery, complete_delivery}

-- a second in nanoseconds
abbrev pub second : ℕ
second = 10 ^ 9

-- `5*time.Minute`
abbrev pub longest_wait : ℕ
longest_wait = 300 * second

-- What is taken from outside: `strings.TrimSpace`, `strconv.Atoi`, `http.ParseTime`, and the text of
-- a status in an error.
pub record Parsing : Type 0 where
  pub trim_space : String → String
  pub atoi : String → Option ℤ
  pub parse_time : String → Option Time
  pub status_text : ℕ → String

unfoldable pub retryable_status : ℕ → Bool
retryable_status status =
    (eqb status 408 || eqb status 409 || eqb status 425 || eqb status 429)
    || leb 500 status
    || leb 300 status && ltb status 400

unfoldable pub delivery_backoff : ℕ → ℕ
delivery_backoff attempts =
    if eqb attempts 0
    then second
    else if eqb attempts 1
    then 2 * second
    else if eqb attempts 2
    then 5 * second
    else if eqb attempts 3
    then 10 * second
    else if eqb attempts 4
    then 30 * second
    else 60 * second

-- The 64 bits of `time.Duration(seconds) * time.Second`.
unfoldable pub duration_bits : ℤ → ℕ
duration_bits (pos n) = n * second % 2 ^ 64
duration_bits (negsuc n) = (2 ^ 64 - (n + 1) * second % 2 ^ 64) % 2 ^ 64

-- `duration > 0 && duration <= 5*time.Minute`, of its 64 bits; 0 where it is not so.
unfoldable pub within_wait : ℕ → ℕ
within_wait duration = if ltb 0 duration && leb duration longest_wait then duration else 0

-- The difference of two times is at most 0 where natural subtraction gives 0.
unfoldable pub wait_for : Parsing → String → Time → ℕ
unfolding within_wait duration_bits
wait_for parsing raw at = elim (parsing.atoi raw) [
  | some seconds ↦ within_wait (duration_bits seconds)
  | none ↦ elim (parsing.parse_time raw) [ none ↦ 0 | some date ↦ within_wait (date - at) ]
]

unfoldable pub retry_after : Parsing → ℕ → String → Time → ℕ
unfolding wait_for
retry_after parsing status header at =
    let raw = parsing.trim_space header in
    if raw == "" || not (eqb status 429) && not (eqb status 503) then 0 else wait_for parsing raw at

-- What came of the call: an error before or during it, or the answer, read to its end, with its
-- Retry-After header.
pub data Answer : Type 0 where
  broken : String → Answer
  answered : ℕ → String → Answer

abbrev pub delay_of : ℕ → ℕ → ℕ
delay_of attempts retry_after_duration =
    if eqb retry_after_duration 0 then delivery_backoff attempts else retry_after_duration

-- The characters that fit in so many bytes. The bytes of a character that the cut splits are left
-- out, where the source keeps them and their encoding as JSON replaces them.
unfoldable pub truncate : String → ℕ → String
truncate String.[] limit = String.[]
truncate (String.◌∷◌ c s) limit =
    let rest = truncate s (limit - len_utf8 c) in
    if leb (len_utf8 c) limit then String.◌∷◌ c rest else String.[]

-- `retry`, with the reading of the clock that it makes.
unfoldable pub retry : DeliveryRecord → String → ℕ → Time → Store → Result (Unit {0}) × Store
retry delivery reason retry_after_duration at =
    retry_delivery delivery.id (at + delay_of delivery.attempts retry_after_duration)
      (truncate reason 500)

-- `deliver` behind the call; `at` and `later` are the two readings of the clock.
unfoldable pub deliver :
    Parsing → DeliveryRecord → Answer → Time → Time → Store → Result (Unit {0}) × Store
deliver parsing delivery (broken reason) at later store = retry delivery reason 0 later store
deliver parsing delivery (answered status header) at later store =
    if leb 200 status && ltb status 300
    then complete_delivery delivery.id store
    else if retryable_status status
    then retry delivery (parsing.status_text status) (retry_after parsing status header at) later
        store
    else complete_delivery delivery.id store
