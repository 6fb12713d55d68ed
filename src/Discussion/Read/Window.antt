-- ===== src/Discussion/Read/Window.antt =====
-- `Read` returns a window of the log.
use mathlib.Core.Path.{subst}
use agent_community.Common.{
  ℕ, zero, suc, ◌+◌, ◌<◌, ◌≡◌, refl, sym, ◌∙◌, List, [], ◌∷◌, ◌++◌, map, append-nil, append_assoc,
  length, length-append, take, drop, arith,
}
use agent_community.Discussion.Model.{Message, MessageRecord}
use agent_community.Discussion.Messages.Log.{IsNumbered}
use agent_community.Discussion.Read.{read_loop}

-- At most `limit` elements, or all for a limit of 0.
abbrev pub at_most {ℓ} : {A : Type ℓ} → ℕ → List A → List A
at_most zero xs = xs
at_most (suc n) xs = take (suc n) xs

abbrev pub messages_in : List MessageRecord → List Message
messages_in = map (λ (m : MessageRecord). m.message)

-- Behind the cursor every message is taken, until the limit.
read_loop_unlimited :
    (cursor n : ℕ) (filtered : List Message) (ms : List MessageRecord)
    → IsNumbered n ms
    → cursor < n
    → read_loop cursor 0 filtered ms ≡ filtered ++ messages_in ms
unfolding read_loop
read_loop_unlimited cursor n filtered [] h lt = sym (append-nil filtered)
read_loop_unlimited cursor n filtered (m ∷ ms) h lt = ground (
  arith,
  read_loop_unlimited cursor (suc n) (filtered ++ m.message ∷ []) ms h.1,
  append_assoc filtered (m.message ∷ []) (messages_in ms),
)

read_loop_limited :
    (cursor n room limit : ℕ) (filtered : List Message) (ms : List MessageRecord)
    → IsNumbered n ms
    → cursor < n
    → limit ≡ length filtered + suc room
    → read_loop cursor limit filtered ms ≡ filtered ++ messages_in (take (suc room) ms)
unfolding read_loop
read_loop_limited cursor n room limit filtered [] h lt e = sym (append-nil filtered)
read_loop_limited cursor n zero limit filtered (m ∷ ms) h lt e =
    ground (arith, length-append filtered (m.message ∷ []))
read_loop_limited cursor n (suc room) limit filtered (m ∷ ms) h lt e = ground (
  arith,
  length-append filtered (m.message ∷ []),
  read_loop_limited cursor (suc n) room limit (filtered ++ m.message ∷ []) ms h.1,
  append_assoc filtered (m.message ∷ []) (messages_in (take (suc room) ms)),
)

-- Up to the cursor no message is taken.
read_loop-drop :
    (cursor n k limit : ℕ) (ms : List MessageRecord)
    → IsNumbered n ms
    → n + k ≡ cursor + 1
    → read_loop cursor limit [] ms ≡ read_loop cursor limit [] (drop k ms)
unfolding read_loop
read_loop-drop cursor n zero limit ms h e = refl
read_loop-drop cursor n (suc k) limit [] h e = refl
read_loop-drop cursor n (suc k) limit (m ∷ ms) h e =
    ground (arith, read_loop-drop cursor (suc n) k limit ms h.1)

IsNumbered-drop :
    (n k j : ℕ) (ms : List MessageRecord) → j ≡ n + k → IsNumbered n ms → IsNumbered j (drop k ms)
IsNumbered-drop n zero j ms e h = subst (λ i. IsNumbered i ms) (omega arith) h
IsNumbered-drop n (suc k) j [] e h = tt
IsNumbered-drop n (suc k) j (m ∷ ms) e h = IsNumbered-drop (suc n) k j ms (omega arith) h.1

read_loop_behind :
    (cursor limit : ℕ) (ms : List MessageRecord)
    → IsNumbered (cursor + 1) ms
    → read_loop cursor limit [] ms ≡ messages_in (at_most limit ms)
read_loop_behind cursor zero ms h = read_loop_unlimited cursor (cursor + 1) [] ms h (omega arith)
read_loop_behind cursor (suc room) ms h =
    read_loop_limited cursor (cursor + 1) room (suc room) [] ms h (omega arith) (omega arith)

-- The loop over a log that is numbered from 1 returns what stands behind the cursor, up to the limit.
pub read_loop_window :
    (cursor limit : ℕ) (ms : List MessageRecord)
    → IsNumbered 1 ms
    → read_loop cursor limit [] ms ≡ messages_in (at_most limit (drop cursor ms))
read_loop_window cursor limit ms h =
    read_loop-drop cursor 1 cursor limit ms h (omega arith)
    ∙ read_loop_behind cursor limit (drop cursor ms)
        (IsNumbered-drop 1 cursor (cursor + 1) ms (omega arith) h)
