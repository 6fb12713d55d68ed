-- ===== src/Server/Handlers/Polling.antt =====
-- That a reader who waits is answered after two reads at most.
use agent_community.Common.{
  ℕ, suc, ◌≡◌, ◌≢◌, ◌≤◌, ◌<◌, [], ◌∷◌, true, false, Bool, if◌then◌else◌, refl, ap, ◌∙◌, ◌⊎◌, inl,
  inr, String, Option, none, some, List, eqb, arith, Bool-cases,
}
use mathlib.Core.Path.{fun_ext}
use agent_community.Discussion.Model.{Discussion, Message}
use agent_community.Discussion.Exec.{Host, Error, Result, ok, err}
use agent_community.Discussion.Access.{is_active}
use agent_community.Server.{Outside, ReadQuery, write_store_error}
use agent_community.Server.World.{World}
use agent_community.Server.Handlers.{
  Answer, Meanwhile, Wake, woken, timed_out, cancelled, after_wait, turn, poll, read_once,
  page_answer, nonempty, wait_duration,
}

-- The answer to a read that does not wait.
abbrev pub last_answer : Result (List Message × Discussion) × World → Answer
last_answer (err e, w) = (some (write_store_error e), w)
last_answer (ok (messages, d), w) = page_answer messages d w

module _ (host : Host) (outside : Outside) (meanwhile : Meanwhile) (id token : String)
    (q : ReadQuery) where
  abbrev answered : World → Answer
  answered v = last_answer (read_once host outside id token q v)

  module _ (wait : ℕ) (w : World) where
    -- The first read has left `v`, with no message of an active discussion, for a request that waits.
    pub record IsIdle (d : Discussion) (v : World) : Type 0 where
      pub found : read_once host outside id token q w ≡ (ok ([], d), v)
      pub active_yet : is_active d.status ≡ true
      pub may_wait : 1 ≤ wait

    -- How the request is answered.
    pub data IsPolled (a : Answer) : Type 0 where
      refused :
          (e : Error) (v : World)
          → read_once host outside id token q w ≡ (err e, v)
          → a ≡ (some (write_store_error e), v)
          → IsPolled a
      -- there is something to say at once
      at_once :
          (messages : List Message) (d : Discussion) (v : World)
          → read_once host outside id token q w ≡ (ok (messages, d), v)
          → (nonempty messages ≡ true) ⊎ (is_active d.status ≡ false) ⊎ (wait ≡ 0)
          → a ≡ page_answer messages d v
          → IsPolled a
      -- the time of the discussion is over, and it is read again
      over :
          (d : Discussion) (v : World)
          → IsIdle d v
          → d.expires_at ≤ outside.clock v.readings
          → a ≡ answered v
          → IsPolled a
      -- a notification or the end of the wait, and it is read again
      waited :
          (d : Discussion) (v : World)
          → IsIdle d v
          → outside.clock v.readings < d.expires_at
          → (meanwhile (wait_duration host outside wait d v) v).0 ≢ cancelled
          → a ≡ answered (meanwhile (wait_duration host outside wait d v) v).1
          → IsPolled a
      -- the sender has gone in the wait
      given_up :
          (d : Discussion) (v : World)
          → IsIdle d v
          → outside.clock v.readings < d.expires_at
          → (meanwhile (wait_duration host outside wait d v) v).0 ≡ cancelled
          → a ≡ (none, (meanwhile (wait_duration host outside wait d v) v).1)
          → IsPolled a

    waiting-IsPolled :
        (d : Discussion) (v : World)
        → IsIdle d v
        → outside.clock v.readings < d.expires_at
        → (o : Wake × World) → meanwhile (wait_duration host outside wait d v) v ≡ o
        → (a : Answer) × (after_wait (λ u. some (answered u)) o ≡ some a) × IsPolled a
    waiting-IsPolled d v idle early (woken, u) e =
        (_, refl, waited d v idle early (λ c. ground (arith, e, c)) (rw e refl))
    waiting-IsPolled d v idle early (timed_out, u) e =
        (_, refl, waited d v idle early (λ c. ground (arith, e, c)) (rw e refl))
    waiting-IsPolled d v idle early (cancelled, u) e =
        (_, refl, given_up d v idle early (ap (λ o. o.0) e) (rw e refl))

    idle-IsPolled :
        (d : Discussion) (v : World)
        → IsIdle d v
        → (b : Bool) → eqb (wait_duration host outside wait d v) 0 ≡ b
        → (a : Answer) × ((if b
              then some (answered v)
              else after_wait
                  (λ u. some (answered u))
                  (meanwhile (wait_duration host outside wait d v) v))
            ≡ some a)
          × IsPolled a
    idle-IsPolled d v idle true e =
        let waits = idle.may_wait in (_, refl, over d v idle (ground (arith, e, waits)) refl)
    idle-IsPolled d v idle false e =
        waiting-IsPolled d v idle (ground (arith, e))
          (meanwhile (wait_duration host outside wait d v) v) refl

    turn-IsPolled :
        (r : Result (List Message × Discussion) × World)
        → read_once host outside id token q w ≡ r
        → (a : Answer) × (turn host outside meanwhile wait (λ v. some (answered v)) r ≡ some a)
          × IsPolled a
    turn-IsPolled (err e, v) found = (_, refl, refused e v found refl)
    turn-IsPolled (ok (m ∷ ms, d), v) found = (_, refl, at_once (m ∷ ms) d v found (inl refl) refl)
    turn-IsPolled (ok ([], d), v) found = elim (Bool-cases (is_active d.status)) [
      | inr ended ↦ (page_answer [] d v, rw ended refl, at_once [] d v found (inr (inl ended)) refl)
      | inl active_yet ↦ elim (Bool-cases (eqb wait 0)) [
        | inl none_left ↦ (
          page_answer [] d v,
          rw (active_yet, none_left) refl,
          at_once [] d v found (inr (inr (ground (arith, none_left)))) refl,
        )
        | inr may_wait ↦
            let (a, e, how) =
              idle-IsPolled d v
                (record {
                  found = found;
                  active_yet = active_yet;
                  may_wait = ground (arith, may_wait);
                })
                (eqb (wait_duration host outside wait d v) 0) refl in
            (a, rw (active_yet, may_wait) e, how)
      ]
    ]

  turn_ends :
      (next : World → Option Answer) (r : Result (List Message × Discussion) × World)
      → turn host outside meanwhile 0 next r ≡ some (last_answer r)
  turn_ends next (err e, w) = refl
  turn_ends next (ok (messages, d), w) = ground arith

  poll_once :
      (fuel : ℕ) (v : World)
      → poll host outside meanwhile id token q 0 (suc fuel) v ≡ some (answered v)
  unfolding poll
  poll_once fuel v =
      turn_ends (poll host outside meanwhile id token q 0 fuel)
        (read_once host outside id token q v)

  polls :
      (wait : ℕ) (w : World)
      → (a : Answer) × ((fuel : ℕ)
          → poll host outside meanwhile id token q wait (suc (suc fuel)) w ≡ some a)
        × IsPolled wait w a
  unfolding poll
  polls wait w =
      let (a, e, how) = turn-IsPolled wait w (read_once host outside id token q w) refl in
      (
        a,
        λ fuel.
            ap (λ next. turn host outside meanwhile wait next (read_once host outside id token q w))
              (fun_ext (λ v. poll_once fuel v))
            ∙ e,
        how,
      )

-- A read of messages that may wait comes to an answer by its second turn, whatever happens in
-- between and however much fuel is left. It is answered with what its first read gave where that is
-- an error, has a message, finds the discussion ended or expired, or does not wait; with a second
-- read at once where the time of the discussion is over; with a second read in what the wait has
-- left where it is woken or its time is up; and it is not answered only where its sender has gone
-- in the wait.
pub poll_answers :
    (host : Host) (outside : Outside) (meanwhile : Meanwhile) (id token : String) (q : ReadQuery)
    (wait : ℕ) (w : World)
    → (a : Answer) × ((fuel : ℕ)
        → poll host outside meanwhile id token q wait (suc (suc fuel)) w ≡ some a)
      × IsPolled host outside meanwhile id token q wait w a
poll_answers host outside meanwhile id token q wait w =
    polls host outside meanwhile id token q wait w
