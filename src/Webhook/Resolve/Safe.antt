-- ===== src/Webhook/Resolve/Safe.antt =====
-- What a callback address that is let through is.
use agent_community.Common.{
  ◌≡◌, refl, sym, ap, ◌∙◌, String, Bool, true, false, ◌||◌, not, Option, none, some, List, [], ◌∷◌,
  ◌==◌, arith, Bool-cases, Option-cases, inl, inr,
}
use mathlib.Core.Path.{subst}
use agent_community.Webhook.Resolve.{
  Address, CallbackUrl, Network, public_webhook_address, validated, looked_up, forbidden_literal,
  parsed_webhook, resolve_webhook_url,
}

-- All the addresses of a resolver's answer, each of them public.
pub data ArePublic : List (Option Address) → List Address → Type 0 where
  none_left : ArePublic [] []
  one_more :
      (a : Address) {answer : List (Option Address)} {addresses : List Address}
      → public_webhook_address a ≡ true
      → ArePublic answer addresses
      → ArePublic (some a ∷ answer) (a ∷ addresses)

abbrev addresses_of : Option (List Address) → List Address
addresses_of none = []
addresses_of (some addresses) = addresses

validated-ArePublic :
    (answer : List (Option Address)) {addresses : List Address}
    → validated answer ≡ some addresses
    → ArePublic answer addresses
unfolding validated
validated-ArePublic [] h = subst (ArePublic []) (ap addresses_of h) none_left
validated-ArePublic (none ∷ rest) h = absurd (ground (arith, h))
validated-ArePublic (some a ∷ rest) {addresses} h = elim (Bool-cases (public_webhook_address a)) [
  | inl public ↦ elim (Option-cases (validated rest)) [
    | inl missing ↦ absurd (ground (arith, h, public, missing))
    | inr (behind, here) ↦
        let same : some (a ∷ behind) ≡ some addresses = sym (rw (public, here) refl) ∙ h in
        subst (ArePublic (some a ∷ rest)) (ap addresses_of same)
          (one_more a public (validated-ArePublic rest here))
  ]
  | inr private_ ↦ absurd (ground (arith, h, private_))
]

abbrev is_empty : List Address → Bool
is_empty [] = true
is_empty (a ∷ rest) = false

ArePublic-nonempty :
    {a : Option Address} {answer : List (Option Address)} {addresses : List Address}
    → ArePublic (a ∷ answer) addresses
    → is_empty addresses ≡ false
ArePublic-nonempty (one_more a h k) = refl

-- What the resolver answered.
pub record IsAnswered (o : Option (List (Option Address))) (addresses : List Address) : Type 0 where
  pub answer : List (Option Address)
  pub answered : o ≡ some answer
  pub all_public : ArePublic answer addresses
  pub nonempty : is_empty addresses ≡ false

abbrev result_of :
    CallbackUrl × List Address → Option (CallbackUrl × List Address) → CallbackUrl × List Address
result_of a none = a
result_of a (some b) = b

looked_up-IsAnswered :
    (u : CallbackUrl) (o : Option (List (Option Address))) {a : CallbackUrl × List Address}
    → looked_up u o ≡ some a
    → (a.0 ≡ u) × IsAnswered o a.1
looked_up-IsAnswered u none h = absurd (ground (arith, h))
looked_up-IsAnswered u (some []) h = absurd (ground (arith, h))
looked_up-IsAnswered u (some (x ∷ rest)) {a} h = elim (Option-cases (validated (x ∷ rest))) [
  | inl missing ↦ absurd (ground (arith, h, missing))
  | inr (addresses, here) ↦
      let same : some (u, addresses) ≡ some a = sym (rw here refl) ∙ h in
      let public = validated-ArePublic (x ∷ rest) here in
      subst (λ (b : CallbackUrl × List Address). (b.0 ≡ u) × IsAnswered (some (x ∷ rest)) b.1)
        (ap (result_of a) same)
        (
          refl,
          record {
            answer = x ∷ rest;
            answered = refl;
            all_public = public;
            nonempty = ArePublic-nonempty public;
          },
        )
]

-- The URL and the addresses that a call may go to.
pub record IsSafe (network : Network) (raw : String) (u : CallbackUrl) (addresses : List Address)
    : Type 0 where
  pub parsed : network.parse_url raw ≡ some u
  pub is_https : (u.scheme == "https") ≡ true
  pub has_host : (u.host == "") ≡ false
  pub no_user : u.has_user ≡ false
  pub no_fragment : (u.fragment == "") ≡ true
  pub literal_public : forbidden_literal (network.parse_address u.hostname) ≡ false
  pub resolved : IsAnswered (network.lookup_address u.hostname) addresses

parsed-IsSafe :
    (network : Network) (raw : String) (o : Option CallbackUrl) {a : CallbackUrl × List Address}
    → network.parse_url raw ≡ o
    → parsed_webhook network o ≡ some a
    → IsSafe network raw a.0 a.1
parsed-IsSafe network raw none e h = absurd (ground (arith, h))
parsed-IsSafe network raw (some u) {a} e h =
    elim (Bool-cases (not (u.scheme == "https") || u.host == "")) [
      | inl bad ↦ absurd (ground (arith, h, bad))
      | inr fine ↦ elim (Bool-cases (u.has_user || not (u.fragment == ""))) [
        | inl bad ↦ absurd (ground (arith, h, fine, bad))
        | inr bare ↦ elim (Bool-cases (forbidden_literal (network.parse_address u.hostname))) [
          | inl bad ↦ absurd (ground (arith, h, fine, bare, bad))
          | inr free ↦
              let reached : looked_up u (network.lookup_address u.hostname) ≡ some a =
                sym (rw (fine, bare, free) refl) ∙ h in
              let (same, answered) =
                looked_up-IsAnswered u (network.lookup_address u.hostname) reached in
              subst (λ (v : CallbackUrl). IsSafe network raw v a.1) (sym same)
                (record {
                  parsed = e;
                  is_https = ground (arith, fine);
                  has_host = ground (arith, fine);
                  no_user = ground (arith, bare);
                  no_fragment = ground (arith, bare);
                  literal_public = free;
                  resolved = answered;
                })
        ]
      ]
    ]

-- A callback that is let through is an absolute HTTPS URL without credentials or fragment, whose
-- host is no forbidden literal address, and the addresses that a call is pinned to are all those of
-- the resolver's answer, at least one, and every one of them public.
pub resolve_webhook_url-IsSafe :
    (network : Network) (raw : String) {u : CallbackUrl} {addresses : List Address}
    → resolve_webhook_url network raw ≡ some (u, addresses)
    → IsSafe network raw u addresses
unfolding resolve_webhook_url
resolve_webhook_url-IsSafe network raw h = parsed-IsSafe network raw (network.parse_url raw) refl h
