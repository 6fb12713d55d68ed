-- ===== src/Discussion/Exec.antt =====
-- How the operations of internal/discussion run. What an operation wrote before it failed stays
-- written, so the state comes back beside an error too.
pub mod Hoare
use agent_community.Common.{
  ℕ, String, Bool, true, false, List, Option, none, some, suc, ◌≡◌, refl, ◌⊎◌, inl, inr,
}
use agent_community.Discussion.Model.{
  Time, DiscussionRecord, MessageRecord, SubscriptionRecord, DeliveryRecord,
}

-- The sentinel errors of model.go that a caller tells apart by `errors.Is`. `internal` is any other
-- error, which the server answers with status 500.
pub data Error : Type 0 where
  unauthorized forbidden invalid_input idempotency_conflict : Error
  discussion_ended discussion_expired message_limit : Error
  subscription_exists not_exist internal : Error

pub data Result {ℓ} (A : Type ℓ) : Type ℓ where
  ok : A → Result A
  err : Error → Result A

-- To split on a computed result and keep the equation.
pub Result-cases {ℓ} :
    {A : Type ℓ} (r : Result A) → ((a : A) × (r ≡ ok a)) ⊎ ((e : Error) × (r ≡ err e))
Result-cases (ok a) = inl (a, refl)
Result-cases (err e) = inr (e, refl)

-- What the program reads off a parsed URL.
pub record Url : Type 0 where
  pub scheme : String
  pub host : String
  pub has_user : Bool
  pub fragment : String

-- What the store takes from outside: the clock, randomness, the ULID package, SHA-256, `url.Parse`,
-- the format of times and the Unicode tables.
pub record Host : Type 0 where
  -- the n-th reading of `s.now().UTC()`
  pub clock : ℕ → Time
  -- `ulid.New(ulid.Timestamp(t), rand.Reader)` on the n-th draw of randomness
  pub ulid : Time → ℕ → Option String
  -- 32 random bytes in unpadded URL base64, on the n-th draw
  pub secret : ℕ → Option String
  -- `ulid.ParseStrict` succeeds
  pub parse_ulid : String → Bool
  pub sha256 : String → List ℕ
  -- the bytes of a time as `time.Time.MarshalJSON` writes it
  pub time_length : Time → ℕ
  pub parse_url : String → Option Url
  pub is_letter : ℕ → Bool
  pub is_digit : ℕ → Bool

-- The files of one discussion's directory, decoded. The outbox is in the order of its writes.
pub record Dir : Type 0 where
  pub record_file : DiscussionRecord
  pub messages : List MessageRecord
  pub subscriptions : List SubscriptionRecord
  pub outbox : List DeliveryRecord

-- What an operation works on while it holds the discussion's lock, with the number of clock
-- readings and of random draws made so far.
pub record Session : Type 0 where
  pub dir : Dir
  pub readings : ℕ
  pub draws : ℕ

abbrev pub Exec : Type 0 → Type 0
Exec A = Session → Result A × Session

abbrev pub continue : {A B : Type 0} → Result A → (A → Exec B) → Exec B
continue (ok a) f s = f a s
continue (err e) f s = (err e, s)

infixl 10 ◌>>=◌ ◌>>◌
abbrev pub ◌>>=◌ : {A B : Type 0} → Exec A → (A → Exec B) → Exec B
◌>>=◌ m f s = let (r, t) = m s in continue r f t

abbrev pub ◌>>◌ : {A B : Type 0} → Exec A → Exec B → Exec B
m >> k = m >>= λ _. k

abbrev pub pure : {A : Type 0} → A → Exec A
pure a s = (ok a, s)

abbrev pub raise : {A : Type 0} → Error → Exec A
raise e s = (err e, s)

abbrev pub lift : {A : Type 0} → Result A → Exec A
lift r s = (r, s)

-- `if !b { return err }`
abbrev pub guard : Bool → Error → Exec (Unit {0})
guard true e s = (ok tt, s)
guard false e s = (err e, s)

-- A read of one of the directory's files.
abbrev pub gets : {A : Type 0} → (Dir → A) → Exec A
gets f s = (ok (f s.dir), s)

-- A write of one of them.
abbrev pub modify : (Dir → Dir) → Exec (Unit {0})
modify f s = (ok tt, record s { dir = f s.dir })

module _ (host : Host) where
  unfoldable pub now : Exec Time
  now s = (ok (host.clock s.readings), record s { readings = suc s.readings })

  abbrev drawn : {A : Type 0} → Option A → Exec A
  drawn none s = (err Error.internal, record s { draws = suc s.draws })
  drawn (some a) s = (ok a, record s { draws = suc s.draws })

  -- `ulid.New`, with its error wrapped
  unfoldable pub new_ulid : Time → Exec String
  new_ulid t s = drawn (host.ulid t s.draws) s

  -- `rand.Read` of 32 bytes, encoded
  unfoldable pub new_secret : Exec String
  new_secret s = drawn (host.secret s.draws) s
