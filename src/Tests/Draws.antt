-- ===== src/Tests/Draws.antt =====
-- What the ids of the concrete host satisfy.
use agent_community.Common.{
  ℕ, zero, suc, ◌≡◌, refl, sym, ap, ◌∙◌, String, Bool, false, Option, some, none, [], ◌==◌, eq_iff,
  arith, Bool-cases, inl, inr, if◌then◌else◌,
}
use agent_community.Discussion.Outbox.Delivered.{FreshFrom, DistinctDraws}
use agent_community.Discussion.Post.Readback.{IsFresh}
use agent_community.Tests.Fixture.{host, ids}

abbrev index_of : String → ℕ
index_of a = if a == "A0" then 0 else if a == "B1" then 1 else if a == "C2" then 2 else 3

abbrev or_index : ℕ → Option String → ℕ
or_index n none = n
or_index n (some a) = index_of a

-- The index of a drawn id is the number of its draw.
drawn_index : (i : ℕ) → or_index i (ids i) ≡ i
drawn_index zero = refl
drawn_index (suc zero) = refl
drawn_index (suc (suc zero)) = refl
drawn_index (suc (suc (suc zero))) = refl
drawn_index (suc (suc (suc (suc n)))) = refl

index_of_drawn : (i : ℕ) (a : String) → ids i ≡ some a → index_of a ≡ i
index_of_drawn i a h = sym (ap (or_index i) h) ∙ drawn_index i

pub host-DistinctDraws : DistinctDraws host
host-DistinctDraws t u i j a b lt h k = elim (Bool-cases (a == b)) [
  | inl same ↦
      let e : i ≡ j =
        sym (index_of_drawn i a h) ∙ ap index_of ((eq_iff a b).0 same) ∙ index_of_drawn j b k in
      absurd (omega (arith, e, lt))
  | inr differ ↦ differ
]

pub host-FreshFrom : FreshFrom host 0 []
host-FreshFrom t j id le h = refl

abbrev pub is_empty : Option String → Bool
is_empty none = false
is_empty (some a) = a == ""

pub drawn_nonempty : (j : ℕ) → is_empty (ids j) ≡ false
drawn_nonempty zero = refl
drawn_nonempty (suc zero) = refl
drawn_nonempty (suc (suc zero)) = refl
drawn_nonempty (suc (suc (suc zero))) = refl
drawn_nonempty (suc (suc (suc (suc n)))) = refl

pub host-IsFresh : IsFresh host 0 []
host-IsFresh = record {
  ticking = λ n. ground arith;
  nonempty = λ n j id le h. sym (ap is_empty h) ∙ drawn_nonempty j;
  unused = λ n j id le h. refl;
}
