-- ===== src/Webhook/Attempt.antt =====
-- What an attempt to deliver an event leaves.
use agent_community.Common.{
  ℕ, ◌+◌, ◌-◌, ◌≤◌, ◌<◌, ◌≡◌, refl, ◌⊎◌, inl, inr, String, Bool, true, false, ◌&&◌, ◌||◌, not, some,
  ltb, leb, ◌==◌, arith, if◌then◌else◌,
}
use agent_community.Common.Int.{ℤ}
use agent_community.Discussion.Model.{Time, DeliveryRecord}
use agent_community.Discussion.Exec.{Result, ok}
use agent_community.Discussion.Deliveries.{
  Store, find_delivery, retried, finished, retry_delivery, complete_delivery,
}
use agent_community.Discussion.Deliveries.Update.{update_delivery-IsStored}
use agent_community.Webhook.{
  longest_wait, Parsing, retryable_status, delivery_backoff, duration_bits, within_wait, wait_for,
  retry_after, Answer, broken, answered, delay_of, truncate, retry, deliver,
}

within_wait-bound : (duration : ℕ) → within_wait duration ≤ longest_wait
unfolding within_wait
within_wait-bound duration = ground arith

retry_after-bound :
    (parsing : Parsing) (status : ℕ) (header : String) (at : Time)
    → retry_after parsing status header at ≤ longest_wait
unfolding retry_after wait_for
retry_after-bound parsing status header at = ground (
  arith,
  λ (z : ℤ). within_wait-bound (duration_bits z),
  λ (date : Time). within_wait-bound (date - at),
)

delivery_backoff-bound :
    (attempts : ℕ) → (0 < delivery_backoff attempts) × (delivery_backoff attempts ≤ longest_wait)
unfolding delivery_backoff
delivery_backoff-bound attempts = (ground arith, ground arith)

delay_of-bound :
    (attempts duration : ℕ)
    → duration ≤ longest_wait
    → (0 < delay_of attempts duration) × (delay_of attempts duration ≤ longest_wait)
delay_of-bound attempts duration h =
    let (positive, below) = delivery_backoff-bound attempts in
    (ground (arith, h, positive), ground (arith, h, below))

-- The answers that end the attempts: a success, and a status that is not retried.
abbrev pub is_final : Answer → Bool
is_final (broken reason) = false
is_final (answered status header) =
    leb 200 status && ltb status 300 || not (retryable_status status)

-- The delivery `d` is put off: one more attempt is counted, and the next comes behind `at`, but no
-- more than five minutes behind.
pub record PutOff (at : Time) (d after : DeliveryRecord) : Type 0 where
  pub wait : ℕ
  pub positive : 0 < wait
  pub bounded : wait ≤ longest_wait
  pub reason : String
  pub same : after ≡ retried (at + wait) reason d

-- What an attempt leaves of the delivery `d` and of the others.
pub record Attempted (id : String) (d : DeliveryRecord) (answer : Answer) (later : Time)
    (store after : Store) : Type 0 where
  pub now : DeliveryRecord
  pub stored : find_delivery id after ≡ some now
  pub outcome :
      ((is_final answer ≡ true) × (now ≡ finished d))
      ⊎ ((is_final answer ≡ false) × PutOff later d now)
  pub others :
      (other : String)
      → (id == other) ≡ false
      → find_delivery other after ≡ find_delivery other store

abbrev AttemptedBy :
    DeliveryRecord → DeliveryRecord → Answer → Time → Store → Result (Unit {0}) × Store → Type 0
AttemptedBy delivery d answer later store a =
    (a.0 ≡ ok tt) × Attempted delivery.id d answer later store a.1

module _ (delivery d : DeliveryRecord) (answer : Answer) (later : Time) (store : Store)
    (there : find_delivery delivery.id store ≡ some d) where
  completing :
      is_final answer ≡ true
      → AttemptedBy delivery d answer later store (complete_delivery delivery.id store)
  unfolding complete_delivery
  completing final =
      let (done, up) = update_delivery-IsStored delivery.id finished (λ x. refl) store d there in
      (
        done,
        record {
          now = finished d;
          stored = up.own;
          outcome = inl (final, refl);
          others = up.others;
        },
      )

  retrying :
      (reason : String) (duration : ℕ)
      → is_final answer ≡ false
      → duration ≤ longest_wait
      → AttemptedBy delivery d answer later store (retry delivery reason duration later store)
  unfolding retry retry_delivery
  retrying reason duration going le =
      let wait = delay_of delivery.attempts duration in
      let (positive, bounded) = delay_of-bound delivery.attempts duration le in
      let next = retried (later + wait) (truncate reason 500) in
      let (done, up) = update_delivery-IsStored delivery.id next (λ x. refl) store d there in
      (
        done,
        record {
          now = next d;
          stored = up.own;
          outcome = inr (
            going,
            record {
              wait = wait;
              positive = positive;
              bounded = bounded;
              reason = truncate reason 500;
              same = refl;
            },
          );
          others = up.others;
        },
      )

-- The branches on the status of an answer.
answering :
    (delivery d : DeliveryRecord) (status : ℕ) (header reason : String) (later : Time)
    (store : Store) (duration : ℕ) (fine again : Bool)
    → find_delivery delivery.id store ≡ some d
    → duration ≤ longest_wait
    → leb 200 status && ltb status 300 ≡ fine
    → retryable_status status ≡ again
    → AttemptedBy delivery d (answered status header) later store (
        if fine
        then complete_delivery delivery.id store
        else if again
        then retry delivery reason duration later store
        else complete_delivery delivery.id store)
answering delivery d status header reason later store duration true again there le e f =
    completing delivery d (answered status header) later store there (ground (arith, e))
answering delivery d status header reason later store duration false true there le e f =
    retrying delivery d (answered status header) later store there reason duration
      (ground (arith, e, f)) le
answering delivery d status header reason later store duration false false there le e f =
    completing delivery d (answered status header) later store there (ground (arith, e, f))

-- Every attempt to deliver an event that is in a store is recorded. An answer that ends the
-- attempts completes the delivery; after any other, and after an error, it stays as it is but for
-- one more attempt, an error text, and a next attempt later than now and within five minutes. The
-- other deliveries do not change.
pub deliver_outcome :
    (parsing : Parsing) (delivery d : DeliveryRecord) (answer : Answer) (at later : Time)
    (store : Store)
    → find_delivery delivery.id store ≡ some d
    → ((deliver parsing delivery answer at later store).0 ≡ ok tt)
      × Attempted delivery.id d answer later store
          (deliver parsing delivery answer at later store).1
unfolding deliver
deliver_outcome parsing delivery d (broken reason) at later store there =
    retrying delivery d (broken reason) later store there reason 0 refl (omega arith)
deliver_outcome parsing delivery d (answered status header) at later store there =
    answering delivery d status header (parsing.status_text status) later store
      (retry_after parsing status header at) (leb 200 status && ltb status 300)
      (retryable_status status) there (retry_after-bound parsing status header at) refl refl
