-- ===== src/Discussion/Create/Admission.antt =====
-- A new discussion's record is valid, and lets in each participant with the token handed out to it.
use agent_community.Common.{
  ℕ, suc, ◌≤◌, ◌≡◌, refl, sym, ◌∙◌, ap, String, len, true, false, ◌&&◌, some, List, [], ◌∷◌, ◌++◌,
  append_assoc, ◌||◌, any, all, find, Bool-cases, inl, inr, eqb, ◌==◌, eq_iff, eq_refl, arith,
}
use Prim.Native.String.{◌++◌ as ◌<>◌}
use native.Mathlib.Nat.{le_refl}
use agent_community.Discussion.Model.{Time, DiscussionRecord, ParticipantRecord, ParticipantInput}
use agent_community.Discussion.Exec.{Host, ok, Session}
use agent_community.Discussion.Capability.{
  capability_prefix, capability_matches, capability_key_id, hex_encode,
}
use agent_community.Discussion.Capability.Hex.{len-hex_encode}
use agent_community.Discussion.Capability.Roundtrip.{
  MintsWell, Minted-capability_matches, hex_decode-hex_encode,
}
use agent_community.Discussion.Validate.{
  valid_participant_id, valid_permissions, valid_digest, valid_participant, validate_record,
}
use agent_community.Discussion.Access.{holds_token, authorize, read_record, find_participant}
use agent_community.Discussion.Outbox.Delivered.{DistinctDraws}
use agent_community.Discussion.Create.{Capabilities}
use agent_community.Discussion.Create.Enrolled.{
  IsEnrolled, Enrolled, nobody, another, key_ids, key-drawn,
}

digest_valid :
    (host : Host) (text : String)
    → MintsWell host
    → valid_digest (hex_encode (host.sha256 text)) ≡ true
unfolding valid_digest
digest_valid host text mints =
    rw
      (
        hex_decode-hex_encode (host.sha256 text) (mints.digest_bytes text),
        len-hex_encode (host.sha256 text) (mints.digest_bytes text),
        mints.digest_length text,
      )
      refl

digest_nonempty :
    (host : Host) (text : String) → MintsWell host → (hex_encode (host.sha256 text) == "") ≡ false
digest_nonempty host text mints = elim (Bool-cases (hex_encode (host.sha256 text) == "")) [
  | inl same ↦
      let bytes = len-hex_encode (host.sha256 text) (mints.digest_bytes text) in
      let none_ : len (hex_encode (host.sha256 text)) ≡ 0 =
        ap len ((eq_iff (hex_encode (host.sha256 text)) "").0 same) in
      absurd (omega (arith, bytes, none_, mints.digest_length text))
  | inr other ↦ other
]

participant_valid :
    (host : Host) (t : Time) (n : ℕ) (p : ParticipantInput) (r : ParticipantRecord)
    (c : String × String)
    → MintsWell host
    → eqb t 0 ≡ false
    → valid_participant_id host p.id && valid_permissions p.permissions ≡ true
    → IsEnrolled host t n p r c
    → valid_participant host r ≡ true
unfolding valid_participant
participant_valid host t n p r c mints tick fine e =
    let text = capability_prefix <> (e.minted.key_id <> ("." <> e.minted.secret)) in
    rw
      (
        e.same_id,
        e.minted.same,
        mints.key_nonempty t n e.minted.key_id e.minted.key_drawn,
        digest_nonempty host text mints,
        digest_valid host text mints,
        tick,
        valid_participant,
      )
      (ground (arith, fine))

pub participants_valid :
    (host : Host) (t : Time) (n : ℕ) (ps : List ParticipantInput) (rs : List ParticipantRecord)
    (cs : Capabilities)
    → MintsWell host
    → eqb t 0 ≡ false
    → all
        (λ (p : ParticipantInput).
          valid_participant_id host p.id && valid_permissions p.permissions)
        ps
      ≡ true
    → Enrolled host t n ps rs cs
    → all (valid_participant host) rs ≡ true
participants_valid host t n ps rs cs mints tick fine (nobody m) = refl
participants_valid host t n ps rs cs mints tick fine (another m p ps' r rs' c cs' e rest) =
    rw (participant_valid host t m p r c mints tick (ground (arith, fine)) e)
      (participants_valid host t (suc (suc m)) ps' rs' cs' mints tick (ground (arith, fine)) rest)

-- What is relied on of the clock and of the ULID package: readings are not Go's zero time, and
-- what is drawn is parsed.
pub record IsClocked (host : Host) : Type 0 where
  pub ticking : (n : ℕ) → eqb (host.clock n) 0 ≡ false
  pub parsed :
      (t : Time) (n : ℕ) (id : String) → host.ulid t n ≡ some id → host.parse_ulid id ≡ true

find_behind :
    (host : Host) (key_id token : String) (before rest : List ParticipantRecord)
    → any (λ y. y == key_id) (key_ids before) ≡ false
    → find (holds_token host key_id token) (before ++ rest)
      ≡ find (holds_token host key_id token) rest
unfolding holds_token
find_behind host key_id token [] rest h = refl
find_behind host key_id token (p ∷ before) rest h =
    ground (arith, find_behind host key_id token before rest)

find_first :
    (host : Host) (token : String) (p : ParticipantRecord) (rest : List ParticipantRecord)
    → capability_matches host token p.capability ≡ true
    → find (holds_token host p.capability.key_id token) (p ∷ rest) ≡ some p
unfolding holds_token
find_first host token p rest h = ground (arith, eq_refl p.capability.key_id, h)

-- A valid record lets in the participant that is found for the token's key id.
authorize-found :
    (host : Host) (token : String) (r : DiscussionRecord) (p : ParticipantRecord) (key_id : String)
    (s : Session)
    → s.dir.record_file ≡ r
    → host.parse_ulid r.id ≡ true
    → validate_record host r r.id ≡ true
    → capability_key_id token ≡ some key_id
    → find (holds_token host key_id token) r.participants ≡ some p
    → (authorize host r.id token s).0 ≡ ok (r, p)
unfolding authorize read_record find_participant
authorize-found host token r p key_id s same parsed valid key found =
    ground (arith, same, parsed, valid, key, found)

-- Each participant has been handed a token that is let in to the discussion as it was made.
pub data LetIn (host : Host) (r : DiscussionRecord)
    : List ParticipantRecord → Capabilities → Type 0 where
  all_in : LetIn host r [] []
  one_in :
      (p : ParticipantRecord) (ps : List ParticipantRecord) (c : String × String)
      (cs : Capabilities)
      → c.0 ≡ p.id
      → ((s : Session) → s.dir.record_file ≡ r → (authorize host r.id c.1 s).0 ≡ ok (r, p))
      → LetIn host r ps cs
      → LetIn host r (p ∷ ps) (c ∷ cs)

module _ (host : Host) (t : Time) (distinct : DistinctDraws host) (mints : MintsWell host)
    (r : DiscussionRecord) (parsed : host.parse_ulid r.id ≡ true)
    (valid : validate_record host r r.id ≡ true) where
  -- No key id drawn from now on is one of an earlier participant.
  abbrev KeysBefore : ℕ → List ParticipantRecord → Type 0
  KeysBefore n before =
      (j : ℕ) (a : String)
      → n ≤ j
      → host.ulid t j ≡ some a
      → any (λ y. y == a) (key_ids before) ≡ false

  KeysBefore-next :
      (n : ℕ) (before : List ParticipantRecord) (p : ParticipantRecord)
      → KeysBefore n before
      → host.ulid t n ≡ some p.capability.key_id
      → KeysBefore (suc (suc n)) (before ++ p ∷ [])
  KeysBefore-next n before p h drawn j a le e = ground (
    arith,
    any_key before,
    h j a (omega arith) e,
    distinct t t n j p.capability.key_id a (omega arith) drawn e,
  )
    where
      any_key :
          (xs : List ParticipantRecord)
          → any (λ y. y == a) (key_ids (xs ++ p ∷ []))
            ≡ (any (λ y. y == a) (key_ids xs) || p.capability.key_id == a)
      any_key [] = ground arith
      any_key (x ∷ xs) = ground (arith, any_key xs)

  pub Enrolled-LetIn :
      (n : ℕ) (ps : List ParticipantInput) (before rs : List ParticipantRecord) (cs : Capabilities)
      → Enrolled host t n ps rs cs
      → KeysBefore n before
      → r.participants ≡ before ++ rs
      → LetIn host r rs cs
  Enrolled-LetIn n ps before rs cs (nobody m) h e = all_in
  Enrolled-LetIn n ps before rs cs (another m p ps' q rs' c cs' en rest) h e =
      let drawn = key-drawn host t m p q c en in
      let matched = Minted-capability_matches host t m p.permissions mints en.minted in
      let found : find (holds_token host q.capability.key_id c.1) r.participants ≡ some q =
        ap (find (holds_token host q.capability.key_id c.1)) e
        ∙ find_behind host q.capability.key_id c.1 before (q ∷ rs')
            (h m q.capability.key_id (le_refl m) drawn)
        ∙ find_first host c.1 q rs' matched.0 in
      one_in q rs' c cs' (en.handed ∙ sym en.same_id)
        (λ s same.
          authorize-found host c.1 r q q.capability.key_id s same parsed valid matched.1 found)
        (Enrolled-LetIn (suc (suc m)) ps' (before ++ q ∷ []) rs' cs' rest
          (KeysBefore-next m before q h drawn) (e ∙ sym (append_assoc before (q ∷ []) rs')))
