-- ===== src/Args/Reorder.antt =====
-- What the reordering of the arguments keeps, and what becomes of the terminator.
use agent_community.Common.{
  ◌≡◌, refl, ap, String, Bool, true, false, not, List, [], ◌∷◌, ◌++◌, all, ◌==◌, arith, Bool-cases,
  inl, inr, if◌then◌else◌,
}
use agent_community.Args.{
  FlagSet, Split, is_flag_token, takes_next, flag_first, positional_first, split_args, reorder_args,
}

-- The third list has the elements of the other two, each of the two in its order: the first has the
-- flags, each with the argument behind it if it takes one, and the second all other arguments.
pub data Merged (flags : FlagSet) : List String → List String → List String → Type 0 where
  none_left : Merged flags [] [] []
  flag :
      (a : String) {xs ys zs : List String}
      → is_flag_token a ≡ true
      → takes_next flags a ≡ false
      → Merged flags xs ys zs
      → Merged flags (a ∷ xs) ys (a ∷ zs)
  with_value :
      (a b : String) {xs ys zs : List String}
      → is_flag_token a ≡ true
      → takes_next flags a ≡ true
      → Merged flags xs ys zs
      → Merged flags (a ∷ (b ∷ xs)) ys (a ∷ (b ∷ zs))
  -- the last argument is a flag, whose value, if it takes one, is missing
  last_flag : (a : String) → is_flag_token a ≡ true → Merged flags (a ∷ []) [] (a ∷ [])
  positional :
      (a : String) {xs ys zs : List String}
      → is_flag_token a ≡ false
      → Merged flags xs ys zs
      → Merged flags xs (a ∷ ys) (a ∷ zs)

abbrev pub unterminated : List String → Bool
unterminated args = all (λ a. not (a == "--")) args

abbrev pub no_flags : List String → Bool
no_flags args = all (λ a. not (is_flag_token a)) args

-- The two lists of `split_args`: the arguments, and no flag among the positional ones.
abbrev IsSplit : FlagSet → List String → Split → Type 0
IsSplit flags args split = Merged flags split.0 split.1 args × (no_flags split.1 ≡ true)

module _ (flags : FlagSet) where
  positional-IsSplit :
      (a : String) (args : List String) (split : Split)
      → is_flag_token a ≡ false
      → IsSplit flags args split
      → IsSplit flags (a ∷ args) (positional_first a split)
  positional-IsSplit a args split e h = (positional a e h.0, rw e h.1)

  choose-IsSplit :
      (a b : String) (rest : List String) (behind behind_value : Split)
      → (a == "--") ≡ false
      → IsSplit flags (b ∷ rest) behind
      → IsSplit flags rest behind_value
      → IsSplit flags (a ∷ (b ∷ rest)) (
          if a == "--"
          then ([], b ∷ rest)
          else if is_flag_token a
          then if takes_next flags a
            then flag_first a (flag_first b behind_value)
            else flag_first a behind
          else positional_first a behind)
  choose-IsSplit a b rest behind behind_value e h k = elim (Bool-cases (is_flag_token a)) [
    | inl is_flag ↦ elim (Bool-cases (takes_next flags a)) [
      | inl takes ↦ rw (e, is_flag, takes) (with_value a b is_flag takes k.0, k.1)
      | inr alone ↦ rw (e, is_flag, alone) (flag a is_flag alone h.0, h.1)
    ]
    | inr other ↦ rw (e, other) (positional-IsSplit a (b ∷ rest) behind other h)
  ]

  split_args-IsSplit :
      (args : List String) → unterminated args ≡ true → IsSplit flags args (split_args flags args)
  unfolding split_args
  split_args-IsSplit [] h = (none_left, refl)
  split_args-IsSplit (a ∷ []) h =
      let e : (a == "--") ≡ false = ground (arith, h) in
      elim (Bool-cases (is_flag_token a)) [
        | inl is_flag ↦ rw (e, is_flag) (last_flag a is_flag, refl)
        | inr other ↦ rw (e, other) (positional a other none_left, rw other refl)
      ]
  split_args-IsSplit (a ∷ (b ∷ rest)) h =
      choose-IsSplit a b rest (split_args flags (b ∷ rest)) (split_args flags rest)
        (ground (arith, h)) (split_args-IsSplit (b ∷ rest) (ground (arith, h)))
        (split_args-IsSplit rest (ground (arith, h)))

-- Without a terminator the reordered arguments are the flags, each followed by its value if it takes
-- one from the next argument, and then the positional arguments, none of which is a flag, each of
-- the two in the order of the input and nothing added or lost.
pub reorder_args-Merged :
    (flags : FlagSet) (args : List String)
    → unterminated args ≡ true
    → (flags_out : List String) × (others : List String) × (reorder_args flags args
        ≡ flags_out ++ others)
      × Merged flags flags_out others args
      × (no_flags others ≡ true)
unfolding reorder_args
reorder_args-Merged flags args h =
    let (flags_out, others) = split_args flags args in
    let (merged, none_) = split_args-IsSplit flags args h in
    (flags_out, others, refl, merged, none_)

split_terminated :
    (flags : FlagSet) (before rest : List String)
    → unterminated before ≡ true
    → no_flags before ≡ true
    → split_args flags (before ++ "--" ∷ rest) ≡ ([], before ++ rest)
unfolding split_args
split_terminated flags [] [] h k = refl
split_terminated flags [] (b ∷ rest) h k = refl
split_terminated flags (a ∷ []) rest h k =
    let e : (a == "--") ≡ false = ground (arith, h) in
    let p : is_flag_token a ≡ false = ground (arith, k) in
    rw (e, p, split_terminated flags [] rest refl refl) refl
split_terminated flags (a ∷ (b ∷ before)) rest h k =
    let e : (a == "--") ≡ false = ground (arith, h) in
    let p : is_flag_token a ≡ false = ground (arith, k) in
    rw (e, p, split_terminated flags (b ∷ before) rest (ground (arith, h)) (ground (arith, k))) refl

-- A terminator behind positional arguments is dropped, and nothing marks what followed it: the
-- arguments are those that would be without it.
pub reorder_args-terminator :
    (flags : FlagSet) (before rest : List String)
    → unterminated before ≡ true
    → no_flags before ≡ true
    → reorder_args flags (before ++ "--" ∷ rest) ≡ before ++ rest
unfolding reorder_args
reorder_args-terminator flags before rest h k =
    ap (λ (q : Split). q.0 ++ q.1) (split_terminated flags before rest h k)
