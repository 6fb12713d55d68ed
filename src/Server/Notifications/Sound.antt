-- ===== src/Server/Notifications/Sound.antt =====
-- That no channel is closed twice.
use agent_community.Common.{
  ℕ, ◌<◌, ◌≡◌, ◌⊎◌, refl, sym, ap, ◌∙◌, String, true, false, Option, none, some, List, [], ◌∷◌,
  ◌==◌, eqb, eq_iff, arith, Bool-cases, inl, inr,
}
use mathlib.Core.Path.{subst}
use mathlib.Core.Bool.{false≢true}
use agent_community.Server.Notifications.{
  Registry, make_channel, close_present, notification, notify, Call, waits, notifies, call, run,
  no_channels,
}

-- The channels of the map are made and open, and each is of one discussion only.
pub record IsSound (g : Registry) : Type 0 where
  pub is_made : (id : String) (c : ℕ) → g.channel_of id ≡ some c → c < g.made
  pub closed_made : (c : ℕ) → g.is_closed c ≡ true → c < g.made
  pub is_open : (id : String) (c : ℕ) → g.channel_of id ≡ some c → g.is_closed c ≡ false
  pub own :
      (id other : String) (c : ℕ)
      → g.channel_of id ≡ some c
      → g.channel_of other ≡ some c
      → (id == other) ≡ true

-- The same but for a discussion whose channel may be closed.
record IsSoundBut (id : String) (g : Registry) : Type 0 where
  is_made : (other : String) (c : ℕ) → g.channel_of other ≡ some c → c < g.made
  closed_made : (c : ℕ) → g.is_closed c ≡ true → c < g.made
  is_open :
      (other : String) (c : ℕ)
      → (other == id) ≡ false
      → g.channel_of other ≡ some c
      → g.is_closed c ≡ false
  own :
      (one other : String) (c : ℕ)
      → g.channel_of one ≡ some c
      → g.channel_of other ≡ some c
      → (one == other) ≡ true

IsSound-but : (id : String) (g : Registry) → IsSound g → IsSoundBut id g
IsSound-but id g sound = record {
  is_made = sound.is_made;
  closed_made = sound.closed_made;
  is_open = λ other c differ. sound.is_open other c;
  own = sound.own;
}

eq-both : (a b c : String) → (a == c) ≡ true → (b == c) ≡ true → (a == b) ≡ true
eq-both a b c h k = (eq_iff a b).1 ((eq_iff a c).0 h ∙ sym ((eq_iff b c).0 k))

close-IsSoundBut :
    (id : String) (g : Registry) (o : Option ℕ)
    → g.channel_of id ≡ o
    → IsSound g
    → IsSoundBut id (close_present o g)
close-IsSoundBut id g none e sound = IsSound-but id g sound
close-IsSoundBut id g (some c) e sound = record {
  is_made = sound.is_made;
  closed_made = λ d h. elim (Bool-cases (eqb d c)) [
    | inl same ↦ subst (λ x. x < g.made) (sym (ground (arith, same))) (sound.is_made id c e)
    | inr differ ↦ sound.closed_made d (ground (arith, h, differ))
  ];
  is_open = λ other d differ h. elim (Bool-cases (eqb d c)) [
    | inl same ↦
        let d_is_c : d ≡ c = ground (arith, same) in
        absurd (false≢true (sym differ ∙ sound.own other id c (h ∙ ap some d_is_c) e))
    | inr away ↦ rw away (sound.is_open other d h)
  ];
  own = sound.own;
}

module _ (g : Registry) (id : String) (sound : IsSoundBut id g) where
  fresh_open : g.is_closed g.made ≡ false
  fresh_open = elim (Bool-cases (g.is_closed g.made)) [
    | inl closed ↦ absurd (omega (arith, sound.closed_made g.made closed))
    | inr unclosed ↦ unclosed
  ]

  -- Whether a name is the one whose channel is made, and the channel that it then has.
  made_for :
      (other : String) (c : ℕ)
      → (make_channel id g).channel_of other ≡ some c
      → (((other == id) ≡ true) × (g.made ≡ c))
        ⊎ (((other == id) ≡ false) × (g.channel_of other ≡ some c))
  made_for other c h = elim (Bool-cases (other == id)) [
    | inl same ↦ inl (same, ground (arith, h, same))
    | inr differ ↦ inr (differ, ground (arith, h, differ))
  ]

  make_channel-IsSound : IsSound (make_channel id g)
  make_channel-IsSound = record {
    is_made = λ other c h. elim (made_for other c h) [
      | inl (same, new) ↦ omega (arith, new)
      | inr (differ, old) ↦ omega (arith, sound.is_made other c old)
    ];
    closed_made = λ c h. omega (arith, sound.closed_made c h);
    is_open = λ other c h. elim (made_for other c h) [
      | inl (same, new) ↦ ap g.is_closed (sym new) ∙ fresh_open
      | inr (differ, old) ↦ sound.is_open other c differ old
    ];
    own = λ one other c h k. elim (made_for one c h) [
      | inl (same, new) ↦ elim (made_for other c k) [
        | inl (also, _) ↦ eq-both one other id same also
        | inr (differ, old) ↦ absurd (omega (arith, new, sound.is_made other c old))
      ]
      | inr (differ, old) ↦ elim (made_for other c k) [
        | inl (same, new) ↦ absurd (omega (arith, new, sound.is_made one c old))
        | inr (_, also) ↦ sound.own one other c old also
      ]
    ];
  }

pub notify-IsSound : (id : String) (g : Registry) → IsSound g → IsSound (notify id g)
unfolding notify
notify-IsSound id g sound =
    make_channel-IsSound (close_present (g.channel_of id) g) id
      (close-IsSoundBut id g (g.channel_of id) refl sound)

pub notification-IsSound : (id : String) (g : Registry) → IsSound g → IsSound (notification id g).1
unfolding notification
notification-IsSound id g sound =
    elim (g.channel_of id)
      as (λ o.
        IsSound
          (elim o as (λ _. ℕ × Registry) [
            | some c ↦ (c, g)
            | none ↦ (g.made, make_channel id g)
          ]).1) [ some c ↦ sound | none ↦ make_channel-IsSound g id (IsSound-but id g sound) ]

call-IsSound : (c : Call) (g : Registry) → IsSound g → IsSound (call c g)
call-IsSound (waits id) g = notification-IsSound id g
call-IsSound (notifies id) g = notify-IsSound id g

pub run-IsSound : (calls : List Call) (g : Registry) → IsSound g → IsSound (run calls g)
run-IsSound [] g sound = sound
run-IsSound (c ∷ calls) g sound = run-IsSound calls (call c g) (call-IsSound c g sound)

pub no_channels-IsSound : IsSound no_channels
no_channels-IsSound = record {
  is_made = λ id c h. absurd (ground (arith, h));
  closed_made = λ c h. absurd (ground (arith, h));
  is_open = λ id c h. refl;
  own = λ id other c h k. absurd (ground (arith, h));
}

-- From a new server on, and whatever readers and writers do, the channel that is stored for a
-- discussion is not closed; so `notify` closes no channel twice, which would be a panic.
pub run-unclosed :
    (calls : List Call) (id : String) (c : ℕ)
    → (run calls no_channels).channel_of id ≡ some c
    → (run calls no_channels).is_closed c ≡ false
run-unclosed calls id c h = (run-IsSound calls no_channels no_channels-IsSound).is_open id c h
