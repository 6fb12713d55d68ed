-- ===== src/Colony/Urgency.antt =====
-- The urgency that a message of a colony gets.
use agent_community.Common.{
  ◌⊎◌, ℕ, ◌≤◌, ◌≡◌, refl, ap, ◌∙◌, String, true, false, ◌||◌, Option, none, some, arith, eqb,
  Bool-cases, inl, inr, if◌then◌else◌,
}
use agent_community.Common.Int.{ℤ, pos, negsuc, is_negative, exceeds, is_zero}
use agent_community.Discussion.Model.{Time}
use agent_community.Colony.{
  Message, MessageType, ColonyOptions, default_urgency, or_default, colony_urgency, new_colony,
}

default-bound : (type : MessageType) (d : ℕ) → default_urgency type ≡ some d → d ≤ 5
unfolding default_urgency
default-bound type d h = ground (arith, h)

pub record IsUrgent (opts : ColonyOptions) (m : Message) : Type 0 where
  pub level : ℕ
  pub same : m.urgency ≡ pos level
  pub bounded : level ≤ 5
  pub chosen :
      ((is_zero opts.urgency ≡ false) × (m.urgency ≡ opts.urgency))
      ⊎ ((is_zero opts.urgency ≡ true)
          × (m.urgency ≡ or_default (pos 0) (default_urgency opts.type)))

-- What is kept of the input of a message that was made.
record IsMade (author body context : String) (opts : ColonyOptions) (m : Message) : Type 0 where
  fits : is_negative opts.urgency || exceeds opts.urgency 5 ≡ false
  urgent : m.urgency ≡ colony_urgency opts

new_colony-IsMade :
    (now : Time) (ulid : Option String) (author body context : String) (opts : ColonyOptions)
    {m : Message}
    → new_colony now ulid author body context opts ≡ some m
    → IsMade author body context opts m
unfolding new_colony
new_colony-IsMade now none author body context opts h = absurd (ground (arith, h))
new_colony-IsMade now (some id) author body context opts h = record {
  fits = ground (arith, h);
  urgent = ground (arith, h);
}

levelled :
    (z : ℤ) (d : Option ℕ)
    → ((n : ℕ) → d ≡ some n → n ≤ 5)
    → is_negative z || exceeds z 5 ≡ false
    → (level : ℕ) × ((if is_zero z then or_default z d else z) ≡ pos level) × (level ≤ 5)
levelled (negsuc n) d b h = absurd (ground (arith, h))
levelled (pos n) none b h = (n, ground arith, ground (arith, h))
levelled (pos n) (some m) b h = elim (Bool-cases (eqb n 0)) [
  | inl z ↦ (m, ground (arith, z), b m refl)
  | inr nz ↦ (n, ground (arith, nz), ground (arith, h))
]

zero_default : (z : ℤ) (d : Option ℕ) → is_zero z ≡ true → or_default z d ≡ or_default (pos 0) d
zero_default (negsuc n) d h = absurd (ground (arith, h))
zero_default (pos n) none h = ap pos (ground (arith, h))
zero_default (pos n) (some m) h = refl

-- A message of a colony has an urgency from 0 to 5: the one that was asked for, unless that is 0,
-- and then the default of its type, or 0 for a type that has none.
pub new_colony-IsUrgent :
    (now : Time) (ulid : Option String) (author body context : String) (opts : ColonyOptions)
    {m : Message}
    → new_colony now ulid author body context opts ≡ some m
    → IsUrgent opts m
unfolding colony_urgency
new_colony-IsUrgent now ulid author body context opts h =
    let made = new_colony-IsMade now ulid author body context opts h in
    let (level, same, bounded) =
      levelled opts.urgency (default_urgency opts.type) (default-bound opts.type) made.fits in
    record {
      level = level;
      same = made.urgent ∙ same;
      bounded = bounded;
      chosen = elim (Bool-cases (is_zero opts.urgency)) [
        | inl zero_ ↦ inr (
          zero_,
          made.urgent ∙ rw zero_ (zero_default opts.urgency (default_urgency opts.type) zero_),
        )
        | inr nonzero ↦ inl (nonzero, made.urgent ∙ rw nonzero refl)
      ];
    }
