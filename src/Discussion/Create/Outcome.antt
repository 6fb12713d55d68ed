-- ===== src/Discussion/Create/Outcome.antt =====
-- What `Create` makes.
use agent_community.Common.{
  ℕ, ◌+◌, ◌≡◌, refl, sym, String, Bool, true, false, ◌&&◌, List, [], ◌∷◌, all, map, ltb, eqb,
  eq_refl, arith,
}
use mathlib.Core.Path.{subst}
use agent_community.Common.Int.{ℤ, pos, negsuc, exceeds, to_nat}
use agent_community.Discussion.Model.{
  Time, active, DiscussionRecord, Discussion, ParticipantRecord, ParticipantInput, CreateInput,
}
use agent_community.Discussion.Exec.{
  Host, Error, invalid_input, ok, Session, Dir, ◌>>=◌, pure, guard, now, new_ulid,
}
use agent_community.Discussion.Exec.Hoare.{
  Hoare, Hoare_intro, Ensures_ok, Hoare-bind, Hoare-guard, Hoare_given,
}
use agent_community.Discussion.Capability.Roundtrip.{MintsWell}
use agent_community.Discussion.Validate.{
  valid_participant_id, valid_permissions, valid_status, validate_record, validate_create_input,
  no_duplicates,
}
use agent_community.Discussion.Access.{public_discussion}
use agent_community.Discussion.Outbox.Delivered.{DistinctDraws}
use agent_community.Discussion.Create.{Capabilities, new_dir, enroll, create}
use agent_community.Discussion.Create.Enrolled.{
  Enrolled, nobody, another, enroll-Hoare, keys-no_duplicates, Enrolled-ids,
}
use agent_community.Discussion.Create.Admission.{
  participants_valid, IsClocked, LetIn, Enrolled-LetIn,
}

abbrev input_fits : Host → List ParticipantInput → Bool
input_fits host ps =
    all
      (λ (p : ParticipantInput). valid_participant_id host p.id && valid_permissions p.permissions)
      ps

abbrev new_record : CreateInput → Time → String → List ParticipantRecord → DiscussionRecord
new_record input t id records = record {
  id = id;
  status = active;
  created_at = t;
  expires_at = t + to_nat input.ttl;
  participants = records;
}

-- What the validation of the input leaves to know of it.
record IsFit (host : Host) (input : CreateInput) : Type 0 where
  lasts : exceeds input.ttl 0 ≡ true
  some_participant : (elim input.participants [ [] ↦ false | _ ∷ _ ↦ true ]) ≡ true
  fits : input_fits host input.participants ≡ true
  ids_apart : no_duplicates (map (λ (p : ParticipantInput). p.id) input.participants) ≡ true

input-IsFit :
    (host : Host) (input : CreateInput) → validate_create_input host input ≡ true → IsFit host input
unfolding validate_create_input
input-IsFit host input h = record {
  lasts = ground (arith, h);
  some_participant = ground (arith, h);
  fits = ground (arith, h);
  ids_apart = ground (arith, h);
}

lasts_on :
    (ttl : ℤ) (t : Time)
    → exceeds ttl 0 ≡ true
    → (eqb (t + to_nat ttl) 0 ≡ false) × (ltb t (t + to_nat ttl) ≡ true)
lasts_on (pos n) t h = (ground (arith, h), ground (arith, h))
lasts_on (negsuc n) t h = absurd (ground (arith, h))

Enrolled-nonempty :
    (host : Host) (t : Time) (n : ℕ) (ps : List ParticipantInput) (rs : List ParticipantRecord)
    (cs : Capabilities)
    → Enrolled host t n ps rs cs
    → (elim ps [ [] ↦ false | _ ∷ _ ↦ true ]) ≡ true
    → (elim rs [ [] ↦ false | _ ∷ _ ↦ true ]) ≡ true
Enrolled-nonempty host t n ps rs cs (nobody m) h = h
Enrolled-nonempty host t n ps rs cs (another m p ps' r rs' c cs' e rest) h = refl

new_record-valid :
    (host : Host) (input : CreateInput) (t : Time) (id : String) (n : ℕ)
    (rs : List ParticipantRecord) (cs : Capabilities)
    → DistinctDraws host
    → MintsWell host
    → eqb t 0 ≡ false
    → IsFit host input
    → Enrolled host t n input.participants rs cs
    → validate_record host (new_record input t id rs) id ≡ true
unfolding validate_record valid_status
new_record-valid host input t id n rs cs distinct mints tick fit enrolled =
    let (later, after) = lasts_on input.ttl t fit.lasts in
    let ids_apart =
      subst (λ xs. no_duplicates xs ≡ true)
        (sym (Enrolled-ids host t n input.participants rs cs enrolled)) fit.ids_apart in
    ground (
      arith,
      eq_refl id,
      tick,
      later,
      after,
      Enrolled-nonempty host t n input.participants rs cs enrolled fit.some_participant,
      participants_valid host t n input.participants rs cs mints tick fit.fits enrolled,
      ids_apart,
      keys-no_duplicates host t distinct n input.participants rs cs enrolled,
    )

-- A new discussion: active, valid, without messages, subscriptions and deliveries, with the
-- participants that were asked for, each of whom is let in with the token handed out.
pub record Created (host : Host) (input : CreateInput) (a : Dir × Discussion × Capabilities)
    : Type 0 where
  pub made : DiscussionRecord
  pub valid : validate_record host made made.id ≡ true
  pub is_open : made.status ≡ active
  pub until : made.expires_at ≡ made.created_at + to_nat input.ttl
  pub ids :
      map (λ (p : ParticipantRecord). p.id) made.participants
      ≡ map (λ (p : ParticipantInput). p.id) input.participants
  pub dir : a.0 ≡ new_dir made
  pub view : a.1 ≡ public_discussion made 0
  pub let_in : LetIn host made made.participants a.2

module _ (host : Host) (input : CreateInput) (distinct : DistinctDraws host)
    (mints : MintsWell host) (clocked : IsClocked host) where
  created :
      (t : Time) (id : String) (n : ℕ) (rs : List ParticipantRecord) (cs : Capabilities)
      → eqb t 0 ≡ false
      → host.parse_ulid id ≡ true
      → IsFit host input
      → Enrolled host t n input.participants rs cs
      → Created host input
          (new_dir (new_record input t id rs), public_discussion (new_record input t id rs) 0, cs)
  created t id n rs cs tick parsed fit enrolled =
      let valid = new_record-valid host input t id n rs cs distinct mints tick fit enrolled in
      record {
        made = new_record input t id rs;
        valid = valid;
        is_open = refl;
        until = refl;
        ids = Enrolled-ids host t n input.participants rs cs enrolled;
        dir = refl;
        view = refl;
        let_in =
            Enrolled-LetIn host t distinct mints (new_record input t id rs) parsed valid n
              input.participants [] rs cs enrolled (λ j a le e. refl) refl;
      }

  abbrev Anyhow : Error → Session → Type 0
  Anyhow e s = Unit {0}

  drawing-Hoare :
      (t : Time)
      → Hoare (λ s. Unit {0}) (new_ulid host t) (λ id s. host.parse_ulid id ≡ true) Anyhow
  unfolding new_ulid
  drawing-Hoare t =
      Hoare_intro (new_ulid host t) (λ s h id e. clocked.parsed t s.draws id (ground (arith, e)))
        (λ s h e _. tt)

  enrolling-Hoare :
      (t : Time) (id : String)
      → eqb t 0 ≡ false
      → IsFit host input
      → host.parse_ulid id ≡ true
      → Hoare
          (λ s. Unit {0})
          (enroll host t input.participants >>= λ a. pure (
            new_dir (new_record input t id a.0),
            public_discussion (new_record input t id a.0) 0,
            a.1,
          ))
          (λ a s. Created host input a)
          Anyhow
  enrolling-Hoare t id tick fit parsed = record {
    at = λ s h.
        (Hoare-bind (enroll host t input.participants)
            (λ a. pure (
              new_dir (new_record input t id a.0),
              public_discussion (new_record input t id a.0) 0,
              a.1,
            ))
            (enroll-Hoare host t s.draws input.participants)
            (λ a. record {
              at = λ u enrolled. created t id s.draws a.0 a.1 tick parsed fit enrolled;
            })).at
          s refl;
  }

  clock-Hoare : Hoare (λ s. Unit {0}) (now host) (λ t s. eqb t 0 ≡ false) Anyhow
  unfolding now
  clock-Hoare = record { at = λ s h. clocked.ticking s.readings }

  create-Hoare : Hoare (λ s. Unit {0}) (create host input) (λ a s. Created host input a) Anyhow
  unfolding create
  create-Hoare =
      Hoare-bind (guard (validate_create_input host input) invalid_input) _
        (Hoare-guard _ _ (λ s h. tt))
        (λ _. Hoare_given _ (λ fine.
          Hoare-bind {Q = λ t s. eqb t 0 ≡ false} (now host) _ clock-Hoare (λ t. record {
            at = λ s tick.
                (Hoare-bind (new_ulid host t) _ (drawing-Hoare t) (λ id. record {
                  at = λ u parsed.
                      (enrolling-Hoare t id tick (input-IsFit host input fine) parsed).at u tt;
                })).at
                  s tt;
          })))

-- If `Create` succeeds, the discussion that it makes is valid and active, lasts as long as was
-- asked for, has no messages, subscriptions or deliveries, and lets in each of its participants, in
-- the order of the input, with the token that was handed out for it.
pub create_outcome :
    (host : Host) (input : CreateInput) (s : Session) {a : Dir × Discussion × Capabilities}
    → DistinctDraws host
    → MintsWell host
    → IsClocked host
    → (create host input s).0 ≡ ok a
    → Created host input a
create_outcome host input s distinct mints clocked done =
    Ensures_ok (λ a _. Created host input a) (λ e _. Unit {0}) (create host input s).0
      (create host input s).1 ((create-Hoare host input distinct mints clocked).at s tt) done
