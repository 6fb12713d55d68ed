-- ===== src/Watch/Lines.antt =====
-- The lines of some bytes by themselves, and that the loop of `drain` emits them, given its fuel.
use agent_community.Common.{
  ℕ, zero, suc, ◌<◌, ◌≡◌, refl, sym, ap, ◌∙◌, ◌⊎◌, inl, inr, false, Option, none, some, List, [],
  ◌∷◌, ◌++◌, length, eqb, arith, Bool-cases, Option-cases, if◌then◌else◌,
}
use mathlib.Core.Path.{subst}
use agent_community.Watch.{
  Bytes, newline, next_line, Drained, drained, stopped, emit_line, emit_lines,
}

-- A line's first byte in front of what the bytes behind it are split into.
abbrev onto_first : ℕ → List Bytes × Bytes → List Bytes × Bytes
onto_first b ([], rest) = ([], b ∷ rest)
onto_first b (line ∷ lines, rest) = ((b ∷ line) ∷ lines, rest)

abbrev end_line : List Bytes × Bytes → List Bytes × Bytes
end_line (lines, rest) = ([] ∷ lines, rest)

-- The lines that a newline ends, and the bytes behind the last newline.
unfoldable pub split_lines : Bytes → List Bytes × Bytes
split_lines [] = ([], [])
split_lines (b ∷ bs) =
    let split = split_lines bs in if eqb b newline then end_line split else onto_first b split

next_line-none : (bs : Bytes) → next_line bs ≡ none → split_lines bs ≡ ([], bs)
unfolding next_line split_lines
next_line-none [] h = refl
next_line-none (b ∷ bs) h = elim (Bool-cases (eqb b newline)) [
  | inl hit ↦ absurd (ground (arith, h, hit))
  | inr miss ↦ elim (Option-cases (next_line bs)) [
    | inl none_here ↦ rw (miss, next_line-none bs none_here) refl
    | inr (found, here) ↦ absurd (ground (arith, h, miss, here))
  ]
]

abbrev parts : Bytes × Bytes → Option (Bytes × Bytes) → Bytes × Bytes
parts p none = p
parts p (some q) = q

abbrev IsFirst : Bytes → Bytes × Bytes → Type 0
IsFirst bs p =
    (split_lines bs ≡ (p.0 ∷ (split_lines p.1).0, (split_lines p.1).1)) × (length p.1 < length bs)

-- The first line and what is behind it.
next_line-some : (bs : Bytes) (p : Bytes × Bytes) → next_line bs ≡ some p → IsFirst bs p
unfolding next_line split_lines
next_line-some [] p h = absurd (ground (arith, h))
next_line-some (b ∷ bs) p h = elim (Bool-cases (eqb b newline)) [
  | inl hit ↦
      let same : some ([], bs) ≡ some p = sym (rw hit refl) ∙ h in
      subst (IsFirst (b ∷ bs)) (ap (parts p) same) (rw hit refl, omega arith)
  | inr miss ↦ elim (Option-cases (next_line bs)) [
    | inl none_here ↦ absurd (ground (arith, h, miss, none_here))
    | inr (q, here) ↦
        let (split, shorter) = next_line-some bs q here in
        let same : some (b ∷ q.0, q.1) ≡ some p = sym (rw (miss, here) refl) ∙ h in
        subst (IsFirst (b ∷ bs)) (ap (parts p) same) (rw (miss, split) refl, omega (arith, shorter))
  ]
]

-- What follows the last newline holds none.
pub split_lines-rest : (bs : Bytes) → split_lines (split_lines bs).1 ≡ ([], (split_lines bs).1)
unfolding split_lines
split_lines-rest [] = refl
split_lines-rest (b ∷ bs) = elim (Bool-cases (eqb b newline)) [
  | inl hit ↦ rw hit (split_lines-rest bs)
  | inr miss ↦ rw miss (behind (split_lines bs) (split_lines-rest bs) miss)
]
  where
    behind :
        (split : List Bytes × Bytes)
        → split_lines split.1 ≡ ([], split.1)
        → eqb b newline ≡ false
        → split_lines (onto_first b split).1 ≡ ([], (onto_first b split).1)
    behind ([], rest) h miss = rw (miss, h) refl
    behind (line ∷ lines, rest) h miss = h

-- Lines in front of the lines of what follows.
abbrev pub before_lines : List Bytes → List Bytes × Bytes → List Bytes × Bytes
before_lines lines (more, rest) = (lines ++ more, rest)

-- To split bytes that come in two parts, split the first, and its rest with the second.
pub split_lines-append :
    (xs ys : Bytes)
    → split_lines (xs ++ ys)
      ≡ before_lines (split_lines xs).0 (split_lines ((split_lines xs).1 ++ ys))
unfolding split_lines
split_lines-append [] ys = refl
split_lines-append (b ∷ xs) ys = elim (Bool-cases (eqb b newline)) [
  | inl hit ↦ rw (hit, split_lines-append xs ys) refl
  | inr miss ↦ rw (miss, split_lines-append xs ys) (behind (split_lines xs) miss)
]
  where
    behind :
        (split : List Bytes × Bytes)
        → eqb b newline ≡ false
        → onto_first b (before_lines split.0 (split_lines (split.1 ++ ys)))
          ≡ before_lines (onto_first b split).0 (split_lines ((onto_first b split).1 ++ ys))
    behind ([], rest) miss = rw miss refl
    behind (line ∷ lines, rest) miss = refl

module _ {S E : Type 0} (emit : Bytes → S → (E × S) ⊎ S) where
  -- The lines one after the other, and the rest left pending.
  unfoldable pub emit_each : List Bytes → Bytes → S → Drained S E
  emit_each [] rest s = drained s rest
  emit_each (line ∷ lines) rest s = elim (emit_line emit line s) [
    | inl (e, t) ↦ stopped e t
    | inr t ↦ emit_each lines rest t
  ]

  emit_step :
      (line rest : Bytes) (lines : List Bytes) (left : Bytes) (fuel : ℕ) (r : (E × S) ⊎ S)
      → ((t : S) → emit_lines emit fuel rest t ≡ emit_each lines left t)
      → ◌≡◌ {A = Drained S E}
          (elim r [ inl (e, t) ↦ stopped e t | inr t ↦ emit_lines emit fuel rest t ])
          (elim r [ inl (e, t) ↦ stopped e t | inr t ↦ emit_each lines left t ])
  emit_step line rest lines left fuel (inl (e, t)) h = refl
  emit_step line rest lines left fuel (inr t) h = h t

  -- With fuel for each byte, the loop emits every line.
  pub emit_lines-eq :
      (fuel : ℕ) (bs : Bytes) (s : S)
      → length bs < fuel
      → emit_lines emit fuel bs s ≡ emit_each (split_lines bs).0 (split_lines bs).1 s
  unfolding emit_lines emit_each
  emit_lines-eq zero bs s h = absurd (omega arith)
  emit_lines-eq (suc fuel) bs s h = elim (Option-cases (next_line bs)) [
    | inl none_here ↦ rw (none_here, next_line-none bs none_here, emit_lines) refl
    | inr (p, here) ↦
        let (split, shorter) = next_line-some bs p here in
        rw (here, split, emit_lines)
          (emit_step p.0 p.1 (split_lines p.1).0 (split_lines p.1).1 fuel (emit_line emit p.0 s)
            (λ t. emit_lines-eq fuel p.1 t (omega (arith, shorter, h))))
  ]
