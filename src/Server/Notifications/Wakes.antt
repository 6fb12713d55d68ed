-- ===== src/Server/Notifications/Wakes.antt =====
-- That a reader that has registered misses no notification.
use agent_community.Common.{
  ℕ, ◌≡◌, refl, sym, ap, ◌∙◌, String, true, false, Option, none, some, List, [], ◌∷◌, ◌==◌, eq_iff,
  eq_refl, any, arith, Bool-cases, inl, inr,
}
use mathlib.Core.Bool.{false≢true}
use agent_community.Server.Notifications.{
  Registry, make_channel, close_present, notification, notify, Call, waits, notifies, call, run,
  is_notify, no_channels,
}
use agent_community.Server.Notifications.Sound.{
  IsSound, notify-IsSound, notification-IsSound, run-IsSound, no_channels-IsSound,
}

close_present-closed :
    (o : Option ℕ) (g : Registry) (c : ℕ)
    → g.is_closed c ≡ true
    → (close_present o g).is_closed c ≡ true
close_present-closed none g c h = h
close_present-closed (some d) g c h = ground (arith, h)

run-closed :
    (calls : List Call) (g : Registry) (c : ℕ)
    → g.is_closed c ≡ true
    → (run calls g).is_closed c ≡ true
unfolding notification notify
run-closed [] g c h = h
run-closed (waits id ∷ calls) g c h =
    run-closed calls (call (waits id) g) c (kept (g.channel_of id))
  where
    kept :
        (o : Option ℕ)
        → (elim o as (λ _. ℕ × Registry) [
          | some d ↦ (d, g)
          | none ↦ (g.made, make_channel id g)
        ]).1.is_closed
            c
          ≡ true
    kept none = h
    kept (some d) = h
run-closed (notifies id ∷ calls) g c h =
    run-closed calls (call (notifies id) g) c (close_present-closed (g.channel_of id) g c h)

-- A reader's channel stays that of its discussion when others wait.
notification-kept :
    (id other : String) (g : Registry) (c : ℕ)
    → g.channel_of id ≡ some c
    → (notification other g).1.channel_of id ≡ some c
unfolding notification
notification-kept id other g c h = kept (g.channel_of other) refl
  where
    kept :
        (o : Option ℕ)
        → g.channel_of other ≡ o
        → (elim o as (λ _. ℕ × Registry) [
          | some d ↦ (d, g)
          | none ↦ (g.made, make_channel other g)
        ]).1.channel_of
            id
          ≡ some c
    kept (some d) e = h
    kept none e = elim (Bool-cases (id == other)) [
      | inl same ↦ absurd (ground (arith, sym (ap g.channel_of ((eq_iff id other).0 same)) ∙ h, e))
      | inr differ ↦ rw differ h
    ]

notification-registered :
    (id : String) (g : Registry) → (notification id g).1.channel_of id ≡ some (notification id g).0
unfolding notification
notification-registered id g = registered (g.channel_of id) refl
  where
    registered :
        (o : Option ℕ)
        → g.channel_of id ≡ o
        → let a = elim o as (λ _. ℕ × Registry) [
          | some d ↦ (d, g)
          | none ↦ (g.made, make_channel id g)
        ] in
          a.1.channel_of id ≡ some a.0
    registered (some d) e = e
    registered none e = rw (eq_refl id) refl

notify-closes :
    (id : String) (g : Registry) (c : ℕ)
    → g.channel_of id ≡ some c
    → (notify id g).is_closed c ≡ true
unfolding notify
notify-closes id g c h = rw h (ground arith)

eq-swap : (a b : String) → (a == b) ≡ false → (b == a) ≡ false
eq-swap a b h = elim (Bool-cases (b == a)) [
  | inl same ↦ absurd (false≢true (sym h ∙ (eq_iff a b).1 (sym ((eq_iff b a).0 same))))
  | inr differ ↦ differ
]

close_present-channel_of :
    (o : Option ℕ) (g : Registry) → (close_present o g).channel_of ≡ g.channel_of
close_present-channel_of none g = refl
close_present-channel_of (some c) g = refl

notify-other :
    (id other : String) (g : Registry) (c : ℕ)
    → (other == id) ≡ false
    → g.channel_of id ≡ some c
    → (notify other g).channel_of id ≡ some c
unfolding notify
notify-other id other g c differ h =
    rw (eq-swap other id differ)
      (ap (λ (f : String → Option ℕ). f id) (close_present-channel_of (g.channel_of other) g) ∙ h)

closed_iff :
    (id : String) (calls : List Call) (g : Registry) (c : ℕ)
    → IsSound g
    → g.channel_of id ≡ some c
    → (run calls g).is_closed c ≡ any (is_notify id) calls
closed_iff id [] g c sound h = sound.is_open id c h
closed_iff id (waits other ∷ calls) g c sound h =
    closed_iff id calls (call (waits other) g) c (notification-IsSound other g sound)
      (notification-kept id other g c h)
closed_iff id (notifies other ∷ calls) g c sound h = elim (Bool-cases (other == id)) [
  | inl same ↦ rw same (
      run-closed calls (notify other g) c
        (ap (λ x. (notify x g).is_closed c) ((eq_iff other id).0 same) ∙ notify-closes id g c h))
  | inr differ ↦ rw differ (
      closed_iff id calls (notify other g) c (notify-IsSound other g sound)
        (notify-other id other g c differ h))
]

-- A reader that registers for a discussion, at any time, finds its channel closed, after whatever
-- calls of readers and writers follow, exactly if one of them has notified of that discussion.
pub notification-closed :
    (before after : List Call) (id : String)
    → let (c, registered) = notification id (run before no_channels) in
      (run after registered).is_closed c ≡ any (is_notify id) after
notification-closed before after id =
    let g = run before no_channels in
    let sound = run-IsSound before no_channels no_channels-IsSound in
    closed_iff id after (notification id g).1 (notification id g).0
      (notification-IsSound id g sound) (notification-registered id g)
