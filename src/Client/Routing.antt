-- ===== src/Client/Routing.antt =====
-- That the server takes from a header the token that a client has put there.
use agent_community.Common.{
  ◌≡◌, refl, sym, ap, String, Char, Bool, true, false, some, ◌==◌, eq_iff, Bool-cases, inl, inr,
  strip_prefix-append,
}
use Prim.Native.String.{◌++◌ as ◌<>◌}
use mathlib.Core.Bool.{false≢true}
use agent_community.Server.{unbroken, bearer_token}

abbrev is_cons : String → Bool
is_cons String.[] = false
is_cons (String.◌∷◌ c s) = true

pub cons_nonempty : (c : Char) (t : String) → (String.◌∷◌ c t == "") ≡ false
cons_nonempty c t = elim (Bool-cases (String.◌∷◌ c t == "")) [
  | inl h ↦ absurd (false≢true (sym (ap is_cons ((eq_iff (String.◌∷◌ c t) "").0 h))))
  | inr h ↦ h
]

pub bearer_token-own :
    (token : String)
    → (token == "") ≡ false
    → unbroken token ≡ true
    → bearer_token ("Bearer " <> token) ≡ some token
unfolding bearer_token
bearer_token-own token nonempty whole =
    rw (strip_prefix-append "Bearer " token, nonempty, whole) refl
