-- ===== src/Discussion/Expiry/Visits.antt =====
-- What a walk of `ExpireDue` leaves of the discussions.
use agent_community.Common.{
  ℕ, suc, ◌≤◌, ◌<◌, ◌≡◌, refl, ap, inl, inr, String, Bool, true, false, List, [], ◌∷◌, ltb, arith,
  Bool-cases,
}
use mathlib.Core.Path.{subst}
use agent_community.Discussion.Model.{active, expired, DiscussionRecord}
use agent_community.Discussion.Exec.{
  Host, Error, Result, ok, err, Dir, Session, ◌>>=◌, ◌>>◌, pure, now,
}
use agent_community.Discussion.Exec.Hoare.{Ensures, Hoare, Hoare-bind, Hoare_intro}
use agent_community.Discussion.Validate.{validate_record}
use agent_community.Discussion.Access.{read_record, is_active, expire}
use agent_community.Discussion.Access.Opened.{Holds, expire-Holds, is_active→eq}
use agent_community.Discussion.Deliveries.{Store}
use agent_community.Discussion.Expiry.{Walk, expire_record, visit, walked_on, expire_due}

-- What a turn leaves of a discussion: as it was, if it was not active or its time had not come at a
-- reading of the clock; marked as expired, if it was active and its time had come.
pub data Visited (host : Host) (d d' : Dir) : Bool → Type 0 where
  closed :
      d'.record_file ≡ d.record_file
      → is_active d.record_file.status ≡ false
      → Visited host d d' false
  early :
      (n : ℕ)
      → d'.record_file ≡ d.record_file
      → host.clock n < d.record_file.expires_at
      → Visited host d d' false
  due :
      (n : ℕ)
      → d.record_file.status ≡ active
      → d.record_file.expires_at ≤ host.clock n
      → d'.record_file ≡ record d.record_file { status = expired }
      → Visited host d d' true

-- The messages and the subscriptions are left alone.
pub record SameContent (d d' : Dir) : Type 0 where
  pub messages : d'.messages ≡ d.messages
  pub subscriptions : d'.subscriptions ≡ d.subscriptions

module _ (host : Host) (d : Dir) where
  abbrev Untouched : Session → Type 0
  Untouched s = Holds d.record_file d.messages d.subscriptions 0 s

  abbrev Turn : Bool → Session → Type 0
  Turn b t = Visited host d t.dir b × SameContent d t.dir

  abbrev Broken : Error → Session → Type 0
  Broken e t = Unit {0}

  same_content :
      (r : DiscussionRecord) (t : Session)
      → Holds r d.messages d.subscriptions 0 t
      → SameContent d t.dir
  same_content r t h = record { messages = h.0.1; subscriptions = h.0.2 }

  expired-Turn :
      (n : ℕ)
      → d.record_file.status ≡ active
      → d.record_file.expires_at ≤ host.clock n
      → Hoare Untouched (expire host d.record_file >> pure true) Turn Broken
  expired-Turn n a late =
      Hoare-bind (expire host d.record_file) (λ _. pure true)
        (Hoare_intro
          {Q = λ r' t.
            Holds (record d.record_file { status = expired }) d.messages d.subscriptions 0 t}
          (expire host d.record_file)
          (λ s h r' e. expire-Holds host d.record_file d.messages d.subscriptions 0 0 s h)
          (λ s h _ _. tt))
        (λ _. record {
          at = λ t h.
              (due n a late h.0.0, same_content (record d.record_file { status = expired }) t h);
        })

  if_due-Turn :
      (n : ℕ) (b : Bool)
      → ltb (host.clock n) d.record_file.expires_at ≡ b
      → d.record_file.status ≡ active
      → Hoare Untouched
          (elim b [ true ↦ pure false | false ↦ expire host d.record_file >> pure true ])
          Turn
          Broken
  if_due-Turn n true e a = record {
    at = λ t h. (early n h.0.0 (ground (arith, e)), same_content d.record_file t h);
  }
  if_due-Turn n false e a = expired-Turn n a (ground (arith, e))

  record_as :
      (b : Bool)
      → is_active d.record_file.status ≡ b
      → Hoare Untouched
          (elim b [
            | false ↦ pure false
            | true ↦ now host >>= λ t. elim (ltb t d.record_file.expires_at) [
              | true ↦ pure false
              | false ↦ expire host d.record_file >> pure true
            ]
          ])
          Turn
          Broken
  unfolding now
  record_as false e = record { at = λ t h. (closed h.0.0 e, same_content d.record_file t h) }
  record_as true e =
      let a =
        is_active→eq host d.record_file d.messages d.subscriptions 0 0 d.record_file.status e in
      record {
        at = λ s h.
            (if_due-Turn s.readings (ltb (host.clock s.readings) d.record_file.expires_at) refl
                a).at
              (record s { readings = suc s.readings }) h;
      }

  expire_record-Turn : Hoare Untouched (expire_record host d.record_file) Turn Broken
  unfolding expire_record
  expire_record-Turn = record_as (is_active d.record_file.status) refl

-- A turn reads the record that is there, or stops.
visit-Turn :
    (host : Host) (name : String) (s : Session)
    → Ensures (visit host name s).0 (visit host name s).1 (Turn host s.dir) (Broken host s.dir)
unfolding visit read_record
visit-Turn host name s = elim (Bool-cases (host.parse_ulid name)) [
  | inl parsed ↦ elim (Bool-cases (validate_record host s.dir.record_file name)) [
    | inl valid ↦
        rw (parsed, valid) ((expire_record-Turn host s.dir).at s ((refl, refl, refl), omega arith))
    | inr invalid ↦ rw (parsed, invalid) tt
  ]
  | inr unparsed ↦ rw unparsed tt
]

-- What a walk that comes to its end leaves, with the names that it returns.
pub data Visits (host : Host) : Store → List String → Store → Type 0 where
  none_left : Visits host [] [] []
  kept :
      (name : String) (d d' : Dir) {names : List String} {before after : Store}
      → Visited host d d' false
      → SameContent d d'
      → Visits host before names after
      → Visits host ((name, d) ∷ before) names ((name, d') ∷ after)
  marked :
      (name : String) (d d' : Dir) {names : List String} {before after : Store}
      → Visited host d d' true
      → SameContent d d'
      → Visits host before names after
      → Visits host ((name, d) ∷ before) (name ∷ names) ((name, d') ∷ after)

abbrev listed : Result (List String) → List String
listed (ok names) = names
listed (err e) = []

-- What is said of a walk that has come to its end.
abbrev Done : (Host) → Store → Result (List String) × Walk → Type 0
Done host before (err e, w) = Unit {0}
Done host before (ok names, w) = Visits host before names w.store

walked_on-Done :
    (host : Host) (name : String) (s : Session) (r : Result Bool) (t : Session) (before : Store)
    (a : Result (List String) × Walk)
    → Ensures r t (Turn host s.dir) (Broken host s.dir)
    → Done host before a
    → Done host ((name, s.dir) ∷ before) (walked_on host name (r, t) before a)
walked_on-Done host name s (err e) t before a h k = tt
walked_on-Done host name s (ok true) t before (ok names, w) h k = marked name s.dir t.dir h.0 h.1 k
walked_on-Done host name s (ok true) t before (err e, w) h k = tt
walked_on-Done host name s (ok false) t before (ok names, w) h k = kept name s.dir t.dir h.0 h.1 k
walked_on-Done host name s (ok false) t before (err e, w) h k = tt

expire_due-Done :
    (host : Host) (store : Store) (readings draws : ℕ)
    → Done host store (expire_due host store readings draws)
unfolding expire_due
expire_due-Done host [] readings draws = none_left
expire_due-Done host ((name, d) ∷ rest) readings draws =
    let s : Session = record { dir = d; readings = readings; draws = draws } in
    let a = visit host name s in
    walked_on-Done host name s a.0 a.1 rest (expire_due host rest a.1.readings a.1.draws)
      (visit-Turn host name s) (expire_due-Done host rest a.1.readings a.1.draws)

-- Where `ExpireDue` succeeds, it has gone through every discussion, in order. It has marked as
-- expired, and returned the names of, just those that were active and whose time had come at its
-- reading of the clock; every other was ended or expired before, or its time had not come, and its
-- record is as it was. Messages and subscriptions are as they were.
pub expire_due-Visits :
    (host : Host) (store : Store) (readings draws : ℕ) {names : List String}
    → (expire_due host store readings draws).0 ≡ ok names
    → Visits host store names (expire_due host store readings draws).1.store
expire_due-Visits host store readings draws {names} h =
    go (expire_due host store readings draws) (expire_due-Done host store readings draws) h
  where
    go :
        (a : Result (List String) × Walk)
        → Done host store a
        → a.0 ≡ ok names
        → Visits host store names a.1.store
    go (err e, w) k h = absurd (ground (arith, h))
    go (ok found, w) k h = subst (λ ns. Visits host store ns w.store) (ap listed h) k
