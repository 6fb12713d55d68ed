-- ===== src/Discussion/Exec/Hoare.antt =====
-- A Hoare logic for the actions of `Exec`: a precondition on the state, a postcondition on the
-- result and the state, and one on an error and the state that it leaves.
use mathlib.Core.Path.{subst}
use agent_community.Common.{ℕ, suc, ◌≡◌, refl, Bool, true, false, Option, none, some, String}
use agent_community.Discussion.Model.{Time}
use agent_community.Discussion.Exec.{
  Host, Error, Result, ok, err, Dir, Session, Exec, continue, ◌>>=◌, pure, raise, lift, guard, gets,
  modify, now, drawn, new_ulid,
}

abbrev pub Ensures :
    {A : Type 0} → Result A → Session → (A → Session → Type 0) → (Error → Session → Type 0) → Type 0
Ensures (ok a) s Q E = Q a s
Ensures (err e) s Q E = E e s

-- What a postcondition says of a success.
pub Ensures_ok :
    {A : Type 0} (Q : A → Session → Type 0) (E : Error → Session → Type 0) (r : Result A)
    (t : Session) {a : A}
    → Ensures r t Q E
    → r ≡ ok a
    → Q a t
Ensures_ok Q E (ok b) t {a} h e = let same : b ≡ a = cc in subst (λ c. Q c t) same h
Ensures_ok Q E (err x) t h e = cc

-- A stronger postcondition of a success.
pub Ensures_map :
    {A : Type 0} (Q Q' : A → Session → Type 0) (E : Error → Session → Type 0) (r : Result A)
    (t : Session)
    → ((a : A) → Q a t → Q' a t)
    → Ensures r t Q E
    → Ensures r t Q' E
Ensures_map Q Q' E (ok a) t f h = f a h
Ensures_map Q Q' E (err e) t f h = h

Ensures_intro :
    {A : Type 0} (Q : A → Session → Type 0) (E : Error → Session → Type 0) (r : Result A)
    (t : Session)
    → ((a : A) → r ≡ ok a → Q a t)
    → ((e : Error) → r ≡ err e → E e t)
    → Ensures r t Q E
Ensures_intro Q E (ok a) t q e = q a refl
Ensures_intro Q E (err x) t q e = e x refl

pub record Hoare {A : Type 0} (P : Session → Type 0) (m : Exec A) (Q : A → Session → Type 0)
    (E : Error → Session → Type 0) : Type 0 where
  pub at : (s : Session) → P s → Ensures (m s).0 (m s).1 Q E

-- A triple from what holds of each kind of outcome.
pub Hoare_intro :
    {A : Type 0} {P : Session → Type 0} {Q : A → Session → Type 0} {E : Error → Session → Type 0}
    (m : Exec A)
    → ((s : Session) → P s → (a : A) → (m s).0 ≡ ok a → Q a (m s).1)
    → ((s : Session) → P s → (e : Error) → (m s).0 ≡ err e → E e (m s).1)
    → Hoare P m Q E
Hoare_intro {Q} {E} m q e = record { at = λ s h. Ensures_intro Q E (m s).0 (m s).1 (q s h) (e s h) }

-- Behind a guard its condition holds.
pub Hoare-guard :
    {P : Session → Type 0} {E : Error → Session → Type 0} (b : Bool) (e : Error)
    → ((s : Session) → P s → E e s)
    → Hoare P (guard b e) (λ _ s. P s × (b ≡ true)) E
Hoare-guard true e k = record { at = λ s h. (h, refl) }
Hoare-guard false e k = record { at = λ s h. k s h }

-- A fact that the precondition holds apart from the state.
pub Hoare_given :
    {A : Type 0} {P : Session → Type 0} {F : Type 0} {Q : A → Session → Type 0}
    {E : Error → Session → Type 0} (m : Exec A)
    → (F → Hoare P m Q E)
    → Hoare (λ s. P s × F) m Q E
Hoare_given m k = record { at = λ s h. (k h.1).at s h.0 }

pub Hoare_pre :
    {A : Type 0} {P P' : Session → Type 0} {Q : A → Session → Type 0} {E : Error → Session → Type 0}
    (m : Exec A)
    → ((s : Session) → P' s → P s)
    → Hoare P m Q E
    → Hoare P' m Q E
Hoare_pre m k hm = record { at = λ s h. hm.at s (k s h) }

continue-Ensures :
    {A B : Type 0} {Q : A → Session → Type 0} {R : B → Session → Type 0}
    {E : Error → Session → Type 0} (r : Result A) (t : Session) (f : A → Exec B)
    → ((a : A) → Hoare (Q a) (f a) R E)
    → Ensures r t Q E
    → Ensures (continue r f t).0 (continue r f t).1 R E
continue-Ensures (ok a) t f k h = (k a).at t h
continue-Ensures (err e) t f k h = h

-- The rule for a bind, and so for a line of a `do` block.
pub Hoare-bind :
    {A B : Type 0} {P : Session → Type 0} {Q : A → Session → Type 0} {R : B → Session → Type 0}
    {E : Error → Session → Type 0} (m : Exec A) (f : A → Exec B)
    → Hoare P m Q E
    → ((a : A) → Hoare (Q a) (f a) R E)
    → Hoare P (m >>= f) R E
Hoare-bind {Q} {R} {E} m f hm k = record {
  at = λ s h. let (r, t) = m s in continue-Ensures {Q = Q} {R = R} {E = E} r t f k (hm.at s h);
}

-- An action keeps a property of the directory and of the number of draws if it holds of what any
-- outcome leaves.
pub record Keeps {A : Type 0} (P : Dir → ℕ → Type 0) (m : Exec A) : Type 0 where
  pub at : (s : Session) → P s.dir s.draws → P (m s).1.dir (m s).1.draws

module _ {P : Dir → ℕ → Type 0} where
  pub Keeps-pure : {A : Type 0} (a : A) → Keeps P (pure a)
  Keeps-pure a = record { at = λ s h. h }

  pub Keeps-raise : {A : Type 0} (e : Error) → Keeps P (raise {A = A} e)
  Keeps-raise e = record { at = λ s h. h }

  pub Keeps-lift : {A : Type 0} (r : Result A) → Keeps P (lift r)
  Keeps-lift r = record { at = λ s h. h }

  pub Keeps-guard : (b : Bool) (e : Error) → Keeps P (guard b e)
  Keeps-guard true e = record { at = λ s h. h }
  Keeps-guard false e = record { at = λ s h. h }

  pub Keeps-gets : {A : Type 0} (f : Dir → A) → Keeps P (gets f)
  Keeps-gets f = record { at = λ s h. h }

  pub Keeps-modify : (f : Dir → Dir) → ((d : Dir) (n : ℕ) → P d n → P (f d) n) → Keeps P (modify f)
  Keeps-modify f k = record { at = λ s h. k s.dir s.draws h }

  pub Keeps-now : (host : Host) → Keeps P (now host)
  unfolding now
  Keeps-now host = record { at = λ s h. h }

  pub Keeps-new_ulid :
      (host : Host) (t : Time)
      → ((d : Dir) (n : ℕ) → P d n → P d (suc n))
      → Keeps P (new_ulid host t)
  unfolding new_ulid
  Keeps-new_ulid host t mono = record { at = λ s h. go (host.ulid t s.draws) s h }
    where
      go :
          (o : Option String) (s : Session)
          → P s.dir s.draws
          → P (drawn host o s).1.dir (drawn host o s).1.draws
      go none s h = mono s.dir s.draws h
      go (some a) s h = mono s.dir s.draws h

  pub Keeps-bind :
      {A B : Type 0} (m : Exec A) (f : A → Exec B)
      → Keeps P m
      → ((a : A) → Keeps P (f a))
      → Keeps P (m >>= f)
  Keeps-bind {A} m f hm k = record { at = λ s h. let (r, t) = m s in go r t (hm.at s h) }
    where
      go :
          (r : Result A) (t : Session)
          → P t.dir t.draws
          → P (continue r f t).1.dir (continue r f t).1.draws
      go (ok a) t h = (k a).at t h
      go (err e) t h = h

pub ruleset keeps_rules = (
  Keeps-pure, Keeps-raise, Keeps-lift, Keeps-guard, Keeps-gets, Keeps-now, Keeps-new_ulid,
  Keeps-bind,
)

pub Hoare_of_Keeps :
    {A : Type 0} {P : Dir → ℕ → Type 0} (m : Exec A)
    → Keeps P m
    → Hoare (λ s. P s.dir s.draws) m (λ _ s. P s.dir s.draws) (λ _ s. P s.dir s.draws)
Hoare_of_Keeps m h = Hoare_intro m (λ s p _ _. h.at s p) (λ s p _ _. h.at s p)

-- Weaker postconditions.
pub Hoare_post :
    {A : Type 0} {P : Session → Type 0} {Q Q' : A → Session → Type 0}
    {E E' : Error → Session → Type 0} (m : Exec A)
    → ((a : A) (s : Session) → Q a s → Q' a s)
    → ((e : Error) (s : Session) → E e s → E' e s)
    → Hoare P m Q E
    → Hoare P m Q' E'
Hoare_post {A} {Q} {Q'} {E} {E'} m q e hm = record { at = λ s h. go (m s).0 (m s).1 (hm.at s h) }
  where
    go : (r : Result A) (t : Session) → Ensures r t Q E → Ensures r t Q' E'
    go (ok a) t g = q a t g
    go (err x) t g = e x t g
