-- ===== src/Discussion/Capability/Hex.antt =====
-- The digest of a capability in hex has twice as many characters as bytes.
use agent_community.Common.{
  ℕ, zero, suc, ◌+◌, ◌*◌, ◌/◌, ◌%◌, ◌<◌, ◌≡◌, refl, String, len, true, List, [], ◌∷◌, all, length,
  ltb, arith,
}
use Prim.Native.Char.{len_utf8}
use Prim.Native.String.len
use agent_community.Discussion.Capability.{hex_digit, hex_encode}

digit_width : (n : ℕ) → n < 16 → len_utf8 (hex_digit n) ≡ 1
unfolding hex_digit
digit_width zero h = refl
digit_width (suc zero) h = refl
digit_width (suc (suc zero)) h = refl
digit_width (suc (suc (suc zero))) h = refl
digit_width (suc (suc (suc (suc zero)))) h = refl
digit_width (suc (suc (suc (suc (suc zero))))) h = refl
digit_width (suc (suc (suc (suc (suc (suc zero)))))) h = refl
digit_width (suc (suc (suc (suc (suc (suc (suc zero))))))) h = refl
digit_width (suc (suc (suc (suc (suc (suc (suc (suc zero)))))))) h = refl
digit_width (suc (suc (suc (suc (suc (suc (suc (suc (suc zero))))))))) h = refl
digit_width (suc (suc (suc (suc (suc (suc (suc (suc (suc (suc zero)))))))))) h = refl
digit_width (suc (suc (suc (suc (suc (suc (suc (suc (suc (suc (suc zero))))))))))) h = refl
digit_width (suc (suc (suc (suc (suc (suc (suc (suc (suc (suc (suc (suc zero)))))))))))) h = refl
digit_width (suc (suc (suc (suc (suc (suc (suc (suc (suc (suc (suc (suc (suc zero))))))))))))) h =
    refl
digit_width (suc (suc (suc (suc (suc (suc (suc (suc (suc (suc (suc (suc (suc (suc zero))))))))))))))
      h =
    refl
digit_width
      (suc (suc (suc (suc (suc (suc (suc (suc (suc (suc (suc (suc (suc (suc (suc zero)))))))))))))))
      h =
    refl
digit_width
      (suc
        (suc (suc (suc (suc (suc (suc (suc (suc (suc (suc (suc (suc (suc (suc (suc n))))))))))))))))
      h =
    absurd (omega (arith, h))

two_wide :
    (x y : ℕ) (s : String)
    → x < 16
    → y < 16
    → len (String.◌∷◌ (hex_digit x) (String.◌∷◌ (hex_digit y) s)) ≡ 2 + len s
two_wide x y s h k =
    let outer : len (String.◌∷◌ (hex_digit x) (String.◌∷◌ (hex_digit y) s))
        ≡ len_utf8 (hex_digit x) + len (String.◌∷◌ (hex_digit y) s) =
      len.cons (hex_digit x) (String.◌∷◌ (hex_digit y) s) in
    let inner : len (String.◌∷◌ (hex_digit y) s) ≡ len_utf8 (hex_digit y) + len s =
      len.cons (hex_digit y) s in
    omega (arith, outer, inner, digit_width x h, digit_width y k)

pub len-hex_encode :
    (bs : List ℕ) → all (λ b. ltb b 256) bs ≡ true → len (hex_encode bs) ≡ 2 * length bs
unfolding hex_encode
len-hex_encode [] h = len.nil
len-hex_encode (b ∷ bs) h =
    let first = two_wide (b / 16) (b % 16) (hex_encode bs) (ground arith) (omega arith) in
    let rest = len-hex_encode bs (ground arith) in omega (arith, first, rest)
