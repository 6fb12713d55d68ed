-- ===== src/Discussion/Create/Enrolled.antt =====
-- The participants of a new discussion have distinct, valid capabilities.
use agent_community.Common.{
  ℕ, suc, ◌<◌, ◌≡◌, refl, sym, ◌∙◌, ap, String, true, false, some, List, [], ◌∷◌, any, map, ◌==◌,
  eq_iff, arith, Bool-cases, Option-cases, inl, inr,
}
use mathlib.Core.Bool.{false≢true}
use mathlib.Core.Path.{subst}
use agent_community.Discussion.Model.{Time, ParticipantRecord, ParticipantInput, CapabilityRecord}
use agent_community.Discussion.Exec.{Host, ok, Session, Error, new_ulid, new_secret}
use agent_community.Discussion.Exec.Hoare.{Hoare, Hoare_intro, Hoare-bind, Hoare_given}
use agent_community.Discussion.Capability.{new_capability}
use agent_community.Discussion.Capability.Roundtrip.{IsMinted, new_capability-IsMinted}
use agent_community.Discussion.Validate.{no_duplicates}
use agent_community.Discussion.Outbox.Delivered.{DistinctDraws}
use agent_community.Discussion.Create.{Capabilities, enroll}

-- The record and the handed out capability of one participant, made at draw `n`.
pub record IsEnrolled (host : Host) (t : Time) (n : ℕ) (p : ParticipantInput)
    (r : ParticipantRecord) (c : String × String) : Type 0 where
  pub same_id : r.id ≡ p.id
  pub handed : c.0 ≡ p.id
  pub minted : IsMinted host t n p.permissions c.1 r.capability

-- Each participant takes two draws.
pub data Enrolled (host : Host) (t : Time)
    : ℕ → List ParticipantInput → List ParticipantRecord → Capabilities → Type 0 where
  nobody : (n : ℕ) → Enrolled host t n [] [] []
  another :
      (n : ℕ) (p : ParticipantInput) (ps : List ParticipantInput) (r : ParticipantRecord)
      (rs : List ParticipantRecord) (c : String × String) (cs : Capabilities)
      → IsEnrolled host t n p r c
      → Enrolled host t (suc (suc n)) ps rs cs
      → Enrolled host t n (p ∷ ps) (r ∷ rs) (c ∷ cs)

draws_of :
    (host : Host) (t : Time) (p : ParticipantInput) (s : Session) {a : String × CapabilityRecord}
    → (new_capability host t p.permissions s).0 ≡ ok a
    → (new_capability host t p.permissions s).1.draws ≡ suc (suc s.draws)
unfolding new_capability new_ulid new_secret
draws_of host t p s h = elim (Option-cases (host.ulid t s.draws)) [
  | inl missing ↦ absurd (ground (arith, missing))
  | inr (key_id, drawn) ↦ elim (Option-cases (host.secret (suc s.draws))) [
    | inl missing ↦ absurd (ground (arith, missing, drawn))
    | inr (secret, found) ↦ ground (arith, drawn, found)
  ]
]

abbrev Anyhow : Error → Session → Type 0
Anyhow e s = Unit {0}

minting-Hoare :
    (host : Host) (t : Time) (n : ℕ) (p : ParticipantInput)
    → Hoare
        (λ s. s.draws ≡ n)
        (new_capability host t p.permissions)
        (λ a s. (s.draws ≡ suc (suc n)) × IsMinted host t n p.permissions a.0 a.1)
        Anyhow
minting-Hoare host t n p =
    Hoare_intro (new_capability host t p.permissions)
      (λ s h a e. (
        draws_of host t p s e ∙ ap (λ k. suc (suc k)) h,
        subst (λ k. IsMinted host t k p.permissions a.0 a.1) h
            (new_capability-IsMinted host t p.permissions s e),
      ))
      (λ s h e _. tt)

pub enroll-Hoare :
    (host : Host) (t : Time) (n : ℕ) (ps : List ParticipantInput)
    → Hoare (λ s. s.draws ≡ n) (enroll host t ps) (λ a s. Enrolled host t n ps a.0 a.1) Anyhow
unfolding enroll
enroll-Hoare host t n [] = record { at = λ s h. nobody n }
enroll-Hoare host t n (p ∷ ps) =
    Hoare-bind (new_capability host t p.permissions) _ (minting-Hoare host t n p) (λ a.
      Hoare_given _ (λ made.
        Hoare-bind (enroll host t ps) _ (enroll-Hoare host t (suc (suc n)) ps) (λ b. record {
          at = λ s h.
              another n p ps (record { id = p.id; capability = a.1 }) b.0 (p.id, a.0) b.1
                (record { same_id = refl; handed = refl; minted = made }) h;
        })))

abbrev pub key_ids : List ParticipantRecord → List String
key_ids rs = map (λ (r : ParticipantRecord). r.capability.key_id) rs

differs : (a b : String) → (a == b) ≡ false → (b == a) ≡ false
differs a b h = elim (Bool-cases (b == a)) [
  | inl same ↦ absurd (false≢true (sym h ∙ (eq_iff a b).1 (sym ((eq_iff b a).0 same))))
  | inr other ↦ other
]

pub key-drawn :
    (host : Host) (t : Time) (n : ℕ) (p : ParticipantInput) (r : ParticipantRecord)
    (c : String × String)
    → IsEnrolled host t n p r c
    → host.ulid t n ≡ some r.capability.key_id
key-drawn host t n p r c e =
    e.minted.key_drawn ∙ ap some (ap (λ (k : CapabilityRecord). k.key_id) (sym e.minted.same))

module _ (host : Host) (t : Time) (distinct : DistinctDraws host) where
  -- An earlier draw is the key id of no later participant.
  pub key_apart :
      (n i : ℕ) (ps : List ParticipantInput) (rs : List ParticipantRecord) (cs : Capabilities)
      (a : String)
      → Enrolled host t n ps rs cs
      → i < n
      → host.ulid t i ≡ some a
      → any (λ y. y == a) (key_ids rs) ≡ false
  key_apart n i ps rs cs a (nobody m) lt h = refl
  key_apart n i ps rs cs a (another m p ps' r rs' c cs' e rest) lt h =
      let apart =
        differs a r.capability.key_id
          (distinct t t i m a r.capability.key_id lt h (key-drawn host t m p r c e)) in
      rw apart (key_apart (suc (suc m)) i ps' rs' cs' a rest (omega (arith, lt)) h)

  pub keys-no_duplicates :
      (n : ℕ) (ps : List ParticipantInput) (rs : List ParticipantRecord) (cs : Capabilities)
      → Enrolled host t n ps rs cs
      → no_duplicates (key_ids rs) ≡ true
  unfolding no_duplicates
  keys-no_duplicates n ps rs cs (nobody m) = refl
  keys-no_duplicates n ps rs cs (another m p ps' r rs' c cs' e rest) =
      rw
        (key_apart (suc (suc m)) m ps' rs' cs' r.capability.key_id rest (omega arith)
          (key-drawn host t m p r c e))
        (keys-no_duplicates (suc (suc m)) ps' rs' cs' rest)

-- The record has the participants that were asked for, in their order.
pub Enrolled-ids :
    (host : Host) (t : Time) (n : ℕ) (ps : List ParticipantInput) (rs : List ParticipantRecord)
    (cs : Capabilities)
    → Enrolled host t n ps rs cs
    → map (λ (r : ParticipantRecord). r.id) rs ≡ map (λ (p : ParticipantInput). p.id) ps
Enrolled-ids host t n ps rs cs (nobody m) = refl
Enrolled-ids host t n ps rs cs (another m p ps' r rs' c cs' e rest) =
    λ i. e.same_id i ∷ Enrolled-ids host t (suc (suc m)) ps' rs' cs' rest i
