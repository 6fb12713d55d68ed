-- ===== src/Discussion/Messages/Log.antt =====
-- What the reader of a log guarantees of the messages that it accepts.
use agent_community.Common.{
  ℕ, suc, ◌+◌, ◌≡◌, ◌∙◌, List, [], ◌∷◌, ◌++◌, append-nil, append_assoc, length, arith, inl, inr,
  eqb_iff,
}
use agent_community.Discussion.Model.{DiscussionRecord, MessageRecord}
use agent_community.Discussion.Exec.{Host, ok, Result-cases}
use native.Mathlib.Nat.{add-zero}
use agent_community.Discussion.Validate.{validate_stored_message, valid_place}
use agent_community.Discussion.Messages.{read_line, read_lines, read_messages}

-- The messages stand in the order of their sequence numbers, without a gap, from `n` on.
abbrev pub IsNumbered : ℕ → List MessageRecord → Type 0
IsNumbered n [] = Unit
IsNumbered n (m ∷ ms) = (m.message.sequence ≡ n) × IsNumbered (suc n) ms

add_move : (n k : ℕ) → suc n + k ≡ n + suc k
add_move n k = omega arith

module _ (host : Host) (r : DiscussionRecord) where
  -- An accepted line holds the message whose number it has.
  pub read_line-sequence :
      (n : ℕ) (earlier : List MessageRecord) (m : MessageRecord)
      → read_line host r n earlier m ≡ ok tt
      → m.message.sequence ≡ n
  unfolding read_line validate_stored_message valid_place
  read_line-sequence n earlier m h = ground (arith, eqb_iff m.message.sequence n)

  -- A log that is read is read whole.
  pub read_lines-append :
      (n : ℕ) (earlier rest : List MessageRecord) {out : List MessageRecord}
      → read_lines host r n earlier rest ≡ ok out
      → out ≡ earlier ++ rest
  unfolding read_lines
  read_lines-append n earlier [] h = cc (append-nil earlier)
  read_lines-append n earlier (m ∷ rest) h = elim (Result-cases (read_line host r n earlier m)) [
    | inl (_, e) ↦
        read_lines-append (suc n) (earlier ++ m ∷ []) rest (rw (e, read_lines) at h)
        ∙ append_assoc earlier (m ∷ []) rest
    | inr (_, e) ↦ cc
  ]

  pub read_lines-IsNumbered :
      (n : ℕ) (earlier rest : List MessageRecord) {out : List MessageRecord}
      → read_lines host r n earlier rest ≡ ok out
      → IsNumbered n rest
  unfolding read_lines
  read_lines-IsNumbered n earlier [] h = tt
  read_lines-IsNumbered n earlier (m ∷ rest) h =
      elim (Result-cases (read_line host r n earlier m)) [
        | inl (_, e) ↦ (
          read_line-sequence n earlier m e,
          read_lines-IsNumbered (suc n) (earlier ++ m ∷ []) rest (rw (e, read_lines) at h),
        )
        | inr (_, e) ↦ cc
      ]

  -- Reading on behind an accepted part.
  pub read_lines-concat :
      (n : ℕ) (earlier rest more : List MessageRecord) {out : List MessageRecord}
      → read_lines host r n earlier rest ≡ ok out
      → read_lines host r n earlier (rest ++ more)
        ≡ read_lines host r (n + length rest) (earlier ++ rest) more
  unfolding read_lines
  read_lines-concat n earlier [] more h = cc (append-nil earlier, add-zero n)
  read_lines-concat n earlier (m ∷ rest) more h =
      elim (Result-cases (read_line host r n earlier m)) [
        | inl (_, e) ↦
            rw (e, read_lines)
              (cc (
                read_lines-concat (suc n) (earlier ++ m ∷ []) rest more (rw (e, read_lines) at h),
                append_assoc earlier (m ∷ []) rest,
                add_move n (length rest),
              ))
        | inr (_, e) ↦ cc
      ]

  -- A log is valid if the reader accepts it; what the reader then returns is the log.
  abbrev pub IsReadable : List MessageRecord → Type 0
  IsReadable file = read_messages host r file ≡ ok file

  pub read_messages-eq-file :
      (file : List MessageRecord) {out : List MessageRecord}
      → read_messages host r file ≡ ok out
      → out ≡ file
  unfolding read_messages
  read_messages-eq-file file h = read_lines-append 1 [] file h

  pub IsReadable-IsNumbered : (file : List MessageRecord) → IsReadable file → IsNumbered 1 file
  unfolding read_messages
  IsReadable-IsNumbered file h = read_lines-IsNumbered 1 [] file h

  -- A readable log with one line more is read as the verdict on that line says.
  pub read_messages-append :
      (file : List MessageRecord) (m : MessageRecord)
      → IsReadable file
      → read_messages host r (file ++ m ∷ []) ≡ read_lines host r (1 + length file) file (m ∷ [])
  unfolding read_messages
  read_messages-append file m h = read_lines-concat 1 [] file (m ∷ []) h
