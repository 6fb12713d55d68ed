-- ===== src/Client/Query.antt =====
-- That the options of a client's read come through the query.
use agent_community.Common.{
  ℕ, ◌≡◌, refl, sym, ap, String, Bool, true, false, ◌&&◌, ◌||◌, not, some, List, [], ◌∷◌, ◌++◌,
  ◌==◌, arith, Bool-cases, inl, inr, if◌then◌else◌,
}
use agent_community.Common.Int.{ℤ, pos, negsuc, is_zero, is_negative, exceeds, to_nat}
use agent_community.Discussion.Model.{max_read_limit}
use agent_community.Server.{
  Outside, valid_query, query_get, max_long_poll_wait, checked_sequence, checked_limit,
  checked_wait, parse_read_query, or_else,
}
use agent_community.Client.{ReadOptions, query_of}

-- What is relied on of the printers of numbers and durations, and of their parsers.
pub record AreInverse (outside : Outside) (itoa duration_text : ℤ → String) : Type 0 where
  pub atoi_itoa : (z : ℤ) → outside.atoi (itoa z) ≡ some z
  pub itoa_nonempty : (z : ℤ) → (itoa z == "") ≡ false
  pub parse_text : (z : ℤ) → outside.parse_duration (duration_text z) ≡ some z
  pub text_nonempty : (z : ℤ) → (duration_text z == "") ≡ false

-- The options of a read that the server accepts.
pub record AreAcceptable (opts : ReadOptions) : Type 0 where
  pub sequence_fits : is_negative opts.after_sequence ≡ false
  pub limit_fits : is_negative opts.limit || exceeds opts.limit max_read_limit ≡ false
  pub wait_fits : is_negative opts.wait || exceeds opts.wait max_long_poll_wait ≡ false

zero_number : (z : ℤ) → is_zero z ≡ true → z ≡ pos 0
zero_number (pos n) h = ap pos (ground (arith, h))
zero_number (negsuc n) h = absurd (ground (arith, h))

in_range :
    (z : ℤ) (bound : ℕ)
    → is_zero z ≡ false
    → is_negative z || exceeds z bound ≡ false
    → exceeds z 0 && not (exceeds z bound) ≡ true
in_range (pos n) bound h k = ground (arith, h, k)
in_range (negsuc n) bound h k = absurd (ground (arith, k))

module _ (outside : Outside) (itoa duration_text : ℤ → String)
    (inverse : AreInverse outside itoa duration_text) (opts : ReadOptions)
    (fits : AreAcceptable opts) where
  abbrev text_unless_zero : (ℤ → String) → ℤ → String
  text_unless_zero print z = if is_zero z then "" else print z

  abbrev sent : List (String × List String)
  sent = query_of itoa duration_text opts

  sent-valid : valid_query sent ≡ true
  unfolding query_of
  sent-valid = by_cases (is_zero opts.after_sequence) (is_zero opts.limit) (is_zero opts.wait)
    where
      by_cases :
          (a b c : Bool)
          → valid_query (
              (if a then [] else ("after_sequence", itoa opts.after_sequence ∷ []) ∷ [])
              ++ (if b then [] else ("limit", itoa opts.limit ∷ []) ∷ [])
              ++ (if c then [] else ("wait", duration_text opts.wait ∷ []) ∷ []))
            ≡ true
      by_cases true true true = refl
      by_cases true true false = refl
      by_cases true false true = refl
      by_cases true false false = refl
      by_cases false true true = refl
      by_cases false true false = refl
      by_cases false false true = refl
      by_cases false false false = refl

  sent_sequence : query_get "after_sequence" sent ≡ text_unless_zero itoa opts.after_sequence
  unfolding query_of query_get
  sent_sequence = ground arith

  sent_limit : query_get "limit" sent ≡ text_unless_zero itoa opts.limit
  unfolding query_of query_get
  sent_limit = ground arith

  sent_wait : query_get "wait" sent ≡ text_unless_zero duration_text opts.wait
  unfolding query_of query_get
  sent_wait = ground arith

  sequence_back :
      or_else
        (pos 0)
        (text_unless_zero itoa opts.after_sequence)
        (checked_sequence (outside.atoi (text_unless_zero itoa opts.after_sequence)))
      ≡ some opts.after_sequence
  sequence_back = elim (Bool-cases (is_zero opts.after_sequence)) [
    | inl zero_ ↦ rw zero_ (ap some (sym (zero_number opts.after_sequence zero_)))
    | inr nonzero ↦
        rw
          (
            nonzero,
            inverse.itoa_nonempty opts.after_sequence,
            inverse.atoi_itoa opts.after_sequence,
            fits.sequence_fits,
          )
          refl
  ]

  limit_back :
      or_else
        (pos 50)
        (text_unless_zero itoa opts.limit)
        (checked_limit (outside.atoi (text_unless_zero itoa opts.limit)))
      ≡ some (if is_zero opts.limit then pos 50 else opts.limit)
  limit_back = elim (Bool-cases (is_zero opts.limit)) [
    | inl zero_ ↦ rw zero_ refl
    | inr nonzero ↦
        let within = in_range opts.limit max_read_limit nonzero fits.limit_fits in
        rw (nonzero, inverse.itoa_nonempty opts.limit, inverse.atoi_itoa opts.limit, within) refl
  ]

  wait_back :
      or_else 0
        (text_unless_zero duration_text opts.wait)
        (checked_wait (outside.parse_duration (text_unless_zero duration_text opts.wait)))
      ≡ some (to_nat opts.wait)
  wait_back = elim (Bool-cases (is_zero opts.wait)) [
    | inl zero_ ↦ rw zero_ (ap some (sym (ap to_nat (zero_number opts.wait zero_))))
    | inr nonzero ↦
        let within = in_range opts.wait max_long_poll_wait nonzero fits.wait_fits in
        rw (nonzero, inverse.text_nonempty opts.wait, inverse.parse_text opts.wait, within) refl
  ]

  query_back :
      parse_read_query outside (query_of itoa duration_text opts)
      ≡ some (record {
        after_sequence = opts.after_sequence;
        limit = if is_zero opts.limit then pos 50 else opts.limit;
        wait = to_nat opts.wait;
      })
  unfolding parse_read_query
  query_back =
      rw (sent-valid, sent_sequence, sent_limit, sent_wait, sequence_back, limit_back, wait_back)
        refl

-- The options of a client's read come through the query: the cursor as it is, the limit with 50 for
-- 0, and the wait.
pub query_roundtrip :
    (outside : Outside) (itoa duration_text : ℤ → String) (opts : ReadOptions)
    → AreInverse outside itoa duration_text
    → AreAcceptable opts
    → parse_read_query outside (query_of itoa duration_text opts)
      ≡ some (record {
        after_sequence = opts.after_sequence;
        limit = if is_zero opts.limit then pos 50 else opts.limit;
        wait = to_nat opts.wait;
      })
query_roundtrip outside itoa duration_text opts inverse fits =
    query_back outside itoa duration_text inverse opts fits
