-- ===== src/Discussion/Deliveries/Due/Ordering.antt =====
-- The order that the due deliveries are listed in, and what sorting and cutting keep.
use agent_community.Common.{
  ℕ, zero, suc, ◌≤◌, ◌≡◌, sym, true, false, inl, inr, List, [], ◌∷◌, ◌++◌, length, take, arith,
  Bool-cases, text_lt_asymm, if◌then◌else◌,
}
use mathlib.Core.Path.{subst}
use agent_community.Discussion.Model.{Delivery}
use agent_community.Discussion.Deliveries.Due.{sooner, insert, sort}

abbrev pub Every : (Delivery → Type 0) → List Delivery → Type 0
Every P [] = Unit {0}
Every P (x ∷ xs) = P x × Every P xs

-- No delivery comes before the one in front of it.
abbrev pub Ordered : List Delivery → Type 0
Ordered [] = Unit {0}
Ordered (x ∷ []) = Unit {0}
Ordered (x ∷ (y ∷ ys)) = (sooner y x ≡ false) × Ordered (y ∷ ys)

sooner_asymm : (a b : Delivery) → sooner a b ≡ true → sooner b a ≡ false
unfolding sooner
sooner_asymm a b h = ground (arith, h, text_lt_asymm a.id b.id)

module _ (P : Delivery → Type 0) where
  pub Every-append : (xs ys : List Delivery) → Every P xs → Every P ys → Every P (xs ++ ys)
  Every-append [] ys h k = k
  Every-append (x ∷ xs) ys h k = (h.0, Every-append xs ys h.1 k)

  Every-insert : (x : Delivery) (xs : List Delivery) → P x → Every P xs → Every P (insert x xs)
  unfolding insert
  Every-insert x [] p h = (p, tt)
  Every-insert x (y ∷ ys) p h =
      elim (sooner y x) as (λ b. Every P (if b then y ∷ insert x ys else x ∷ y ∷ ys)) [
        | true ↦ (h.0, Every-insert x ys p h.1)
        | false ↦ (p, h)
      ]

  pub Every-sort : (xs : List Delivery) → Every P xs → Every P (sort xs)
  unfolding sort
  Every-sort [] h = tt
  Every-sort (x ∷ xs) h = Every-insert x (sort xs) h.0 (Every-sort xs h.1)

  pub Every-take : (n : ℕ) (xs : List Delivery) → Every P xs → Every P (take n xs)
  Every-take zero xs h = tt
  Every-take (suc n) [] h = tt
  Every-take (suc n) (x ∷ xs) h = (h.0, Every-take n xs h.1)

pub length-take : (n : ℕ) (xs : List Delivery) → length (take n xs) ≤ n
length-take zero xs = omega arith
length-take (suc n) [] = omega arith
length-take (suc n) (x ∷ xs) = omega (arith, length-take n xs)

-- `x` stands in front of an ordered list.
abbrev Fronts : Delivery → List Delivery → Type 0
Fronts x [] = Unit {0}
Fronts x (y ∷ ys) = sooner y x ≡ false

in_front : (x : Delivery) (xs : List Delivery) → Fronts x xs → Ordered xs → Ordered (x ∷ xs)
in_front x [] f o = tt
in_front x (y ∷ ys) f o = (f, o)

front_of : (x : Delivery) (xs : List Delivery) → Ordered (x ∷ xs) → Fronts x xs
front_of x [] o = tt
front_of x (y ∷ ys) o = o.0

behind_front : (x : Delivery) (xs : List Delivery) → Ordered (x ∷ xs) → Ordered xs
behind_front x [] o = tt
behind_front x (y ∷ ys) o = o.1

Fronts-insert :
    (z x : Delivery) (xs : List Delivery)
    → sooner x z ≡ false
    → Fronts z xs
    → Fronts z (insert x xs)
unfolding insert
Fronts-insert z x [] e f = e
Fronts-insert z x (y ∷ ys) e f =
    elim (sooner y x) as (λ b. Fronts z (if b then y ∷ insert x ys else x ∷ y ∷ ys)) [
      | true ↦ f
      | false ↦ e
    ]

Ordered-insert : (x : Delivery) (xs : List Delivery) → Ordered xs → Ordered (insert x xs)
unfolding insert
Ordered-insert x [] o = tt
Ordered-insert x (y ∷ ys) o = elim (Bool-cases (sooner y x)) [
  | inl before ↦
      let rest =
        in_front y (insert x ys) (Fronts-insert y x ys (sooner_asymm y x before) (front_of y ys o))
          (Ordered-insert x ys (behind_front y ys o)) in
      subst (λ b. Ordered (if b then y ∷ insert x ys else x ∷ y ∷ ys)) (sym before) rest
  | inr after ↦
      subst (λ b. Ordered (if b then y ∷ insert x ys else x ∷ y ∷ ys)) (sym after) (after, o)
]

pub Ordered-sort : (xs : List Delivery) → Ordered (sort xs)
unfolding sort
Ordered-sort [] = tt
Ordered-sort (x ∷ xs) = Ordered-insert x (sort xs) (Ordered-sort xs)

pub Ordered-take : (n : ℕ) (xs : List Delivery) → Ordered xs → Ordered (take n xs)
Ordered-take zero xs o = tt
Ordered-take (suc n) [] o = tt
Ordered-take (suc zero) (x ∷ xs) o = tt
Ordered-take (suc (suc n)) (x ∷ []) o = tt
Ordered-take (suc (suc n)) (x ∷ (y ∷ ys)) o = (o.0, Ordered-take (suc n) (y ∷ ys) o.1)
