-- ===== src/Discussion/Capability/Roundtrip.antt =====
-- A new capability's token matches its record.
use agent_community.Common.{
  ℕ, zero, suc, ◌+◌, ◌*◌, ◌/◌, ◌%◌, ◌<◌, ◌≡◌, refl, String, code, true, false, none, some, List, [],
  ◌∷◌, all, length, ltb, ◌==◌, eq_refl, arith, strip_prefix-append, cut, Option-cases, inl, inr,
}
use text.Mathlib.TextLemmas.{nil-append, cons-append}
use Prim.Native.String.{◌++◌ as ◌<>◌}
use agent_community.Discussion.Model.{Time, Permission, CapabilityRecord}
use agent_community.Discussion.Exec.{Host, ok, Session, new_ulid, new_secret}
use agent_community.Discussion.Capability.{
  capability_prefix, hex_digit, hex_value, hex_encode, hex_decode, bytes_equal, capability_key_id,
  capability_matches, new_capability,
}

hex_value-hex_digit : (n : ℕ) → n < 16 → hex_value (code (hex_digit n)) ≡ some n
unfolding hex_digit hex_value
hex_value-hex_digit zero h = refl
hex_value-hex_digit (suc zero) h = refl
hex_value-hex_digit (suc (suc zero)) h = refl
hex_value-hex_digit (suc (suc (suc zero))) h = refl
hex_value-hex_digit (suc (suc (suc (suc zero)))) h = refl
hex_value-hex_digit (suc (suc (suc (suc (suc zero))))) h = refl
hex_value-hex_digit (suc (suc (suc (suc (suc (suc zero)))))) h = refl
hex_value-hex_digit (suc (suc (suc (suc (suc (suc (suc zero))))))) h = refl
hex_value-hex_digit (suc (suc (suc (suc (suc (suc (suc (suc zero)))))))) h = refl
hex_value-hex_digit (suc (suc (suc (suc (suc (suc (suc (suc (suc zero))))))))) h = refl
hex_value-hex_digit (suc (suc (suc (suc (suc (suc (suc (suc (suc (suc zero)))))))))) h = refl
hex_value-hex_digit (suc (suc (suc (suc (suc (suc (suc (suc (suc (suc (suc zero))))))))))) h = refl
hex_value-hex_digit (suc (suc (suc (suc (suc (suc (suc (suc (suc (suc (suc (suc zero)))))))))))) h =
    refl
hex_value-hex_digit
      (suc (suc (suc (suc (suc (suc (suc (suc (suc (suc (suc (suc (suc zero))))))))))))) h =
    refl
hex_value-hex_digit
      (suc (suc (suc (suc (suc (suc (suc (suc (suc (suc (suc (suc (suc (suc zero)))))))))))))) h =
    refl
hex_value-hex_digit
      (suc (suc (suc (suc (suc (suc (suc (suc (suc (suc (suc (suc (suc (suc (suc zero)))))))))))))))
      h =
    refl
hex_value-hex_digit
      (suc
        (suc (suc (suc (suc (suc (suc (suc (suc (suc (suc (suc (suc (suc (suc (suc n))))))))))))))))
      h =
    absurd (omega (arith, h))

pub hex_decode-hex_encode :
    (bs : List ℕ) → all (λ b. ltb b 256) bs ≡ true → hex_decode (hex_encode bs) ≡ some bs
unfolding hex_decode hex_encode
hex_decode-hex_encode [] h = refl
hex_decode-hex_encode (b ∷ bs) h =
    let high = hex_value-hex_digit (b / 16) (ground arith) in
    let low = hex_value-hex_digit (b % 16) (omega arith) in
    let rest = hex_decode-hex_encode bs (ground arith) in
    let digits : b / 16 * 16 + b % 16 ≡ b = omega arith in rw (high, low, rest, digits) refl

cut-append : (k s : String) → cut b'.' k ≡ none → cut b'.' (k <> ("." <> s)) ≡ some (k, s)
unfolding cut
cut-append String.[] s h =
    rw (nil-append ("." <> s), cons-append "." String.[] s, nil-append s) refl
cut-append (String.◌∷◌ c k) s h = rw (cons-append c k ("." <> s)) (ground (arith, cut-append k s))

bytes_equal_refl : (bs : List ℕ) → bytes_equal bs bs ≡ true
unfolding bytes_equal
bytes_equal_refl [] = refl
bytes_equal_refl (b ∷ bs) = ground (arith, bytes_equal_refl bs)

-- What is relied on of the ULID package, of base64 and of SHA-256: a key id is a text without a
-- full stop, neither text is empty, and a digest has 32 bytes.
pub record MintsWell (host : Host) : Type 0 where
  pub key_nonempty : (t : Time) (n : ℕ) (id : String) → host.ulid t n ≡ some id → (id == "") ≡ false
  pub key_undotted : (t : Time) (n : ℕ) (id : String) → host.ulid t n ≡ some id → cut b'.' id ≡ none
  pub secret_nonempty : (n : ℕ) (x : String) → host.secret n ≡ some x → (x == "") ≡ false
  pub digest_length : (text : String) → length (host.sha256 text) ≡ 32
  pub digest_bytes : (text : String) → all (λ b. ltb b 256) (host.sha256 text) ≡ true

abbrev token_of : String → String → String
token_of key_id secret = capability_prefix <> (key_id <> ("." <> secret))

minted_matches :
    (host : Host) (key_id secret : String) (permissions : List Permission) (t : Time)
    → cut b'.' key_id ≡ none
    → (key_id == "") ≡ false
    → (secret == "") ≡ false
    → MintsWell host
    → capability_matches host (token_of key_id secret) (record {
      key_id = key_id;
      token_digest = hex_encode (host.sha256 (token_of key_id secret));
      permissions = permissions;
      created_at = t;
    })
      ≡ true
unfolding capability_matches capability_key_id
minted_matches host key_id secret permissions t u k s mints =
    let digest = host.sha256 (token_of key_id secret) in
    rw
      (
        strip_prefix-append capability_prefix (key_id <> ("." <> secret)),
        cut-append key_id secret u,
        k,
        s,
        eq_refl key_id,
        hex_decode-hex_encode digest (mints.digest_bytes (token_of key_id secret)),
        mints.digest_length (token_of key_id secret),
        bytes_equal_refl digest,
        capability_matches,
      )
      refl

-- A capability made at draw `n`: its key id and its secret, and the token and the record of them.
pub record IsMinted (host : Host) (t : Time) (n : ℕ) (permissions : List Permission)
    (token : String) (c : CapabilityRecord) : Type 0 where
  pub key_id : String
  pub secret : String
  pub key_drawn : host.ulid t n ≡ some key_id
  pub secret_drawn : host.secret (suc n) ≡ some secret
  pub same_token : token ≡ token_of key_id secret
  pub same : c ≡ record {
    key_id = key_id;
    token_digest = hex_encode (host.sha256 (token_of key_id secret));
    permissions = permissions;
    created_at = t;
  }

pub new_capability-IsMinted :
    (host : Host) (t : Time) (permissions : List Permission) (s : Session) {token : String}
    {c : CapabilityRecord}
    → (new_capability host t permissions s).0 ≡ ok (token, c)
    → IsMinted host t s.draws permissions token c
unfolding new_capability new_ulid new_secret
new_capability-IsMinted host t permissions s h = elim (Option-cases (host.ulid t s.draws)) [
  | inl missing ↦ absurd (ground (arith, missing))
  | inr (key_id, drawn) ↦ elim (Option-cases (host.secret (suc s.draws))) [
    | inl missing ↦ absurd (ground (arith, missing, drawn))
    | inr (secret, found) ↦ record {
      key_id = key_id;
      secret = secret;
      key_drawn = drawn;
      secret_drawn = found;
      same_token = ground (arith, drawn, found);
      same = ground (arith, drawn, found);
    }
  ]
]

pub Minted-capability_matches :
    (host : Host) (t : Time) (n : ℕ) (permissions : List Permission) {token : String}
    {c : CapabilityRecord}
    → MintsWell host
    → IsMinted host t n permissions token c
    → (capability_matches host token c ≡ true)
      × (capability_key_id token ≡ some c.key_id)
      × (c.permissions ≡ permissions)
unfolding capability_key_id
Minted-capability_matches host t n permissions mints made =
    let u = mints.key_undotted t n made.key_id made.key_drawn in
    let k = mints.key_nonempty t n made.key_id made.key_drawn in
    let x = mints.secret_nonempty (suc n) made.secret made.secret_drawn in
    rw (made.same_token, made.same)
      (
        minted_matches host made.key_id made.secret permissions t u k x mints,
        rw
            (
              strip_prefix-append capability_prefix (made.key_id <> ("." <> made.secret)),
              cut-append made.key_id made.secret u,
              k,
              x,
            )
            refl,
        refl,
      )

-- The token of a new capability matches the record that is stored of it, which holds only its
-- digest, and the record has the permissions that were asked for.
pub new_capability-capability_matches :
    (host : Host) (t : Time) (permissions : List Permission) (s : Session) {token : String}
    {c : CapabilityRecord}
    → MintsWell host
    → (new_capability host t permissions s).0 ≡ ok (token, c)
    → (capability_matches host token c ≡ true)
      × (capability_key_id token ≡ some c.key_id)
      × (c.permissions ≡ permissions)
new_capability-capability_matches host t permissions s mints h =
    Minted-capability_matches host t s.draws permissions mints
      (new_capability-IsMinted host t permissions s h)
