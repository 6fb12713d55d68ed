-- ===== src/Server/Notifications.antt =====
-- The channels by which the server wakes up readers that wait: `notification` and `notify` of
-- internal/communityserver/server.go, whose calls the mutex puts in an order.
pub mod Sound
pub mod Wakes
use agent_community.Common.{
  ℕ, suc, ◌+◌, ◌<◌, ◌≡◌, ◌≢◌, refl, sym, ap, ◌∙◌, String, Bool, true, false, not, ◌||◌, Option,
  none, some, List, [], ◌∷◌, ◌==◌, eqb, eq_iff, eq_refl, any, arith, Bool-cases, Option-cases, inl,
  inr, if◌then◌else◌,
}

-- The map of the server, the number of channels that were made, and which of them are closed.
pub record Registry : Type 0 where
  pub channel_of : String → Option ℕ
  pub made : ℕ
  pub is_closed : ℕ → Bool

-- `make(chan struct{})`, stored for a discussion.
abbrev pub make_channel : String → Registry → Registry
make_channel id g = record g {
  channel_of = λ other. if other == id then some g.made else g.channel_of other;
  made = suc g.made;
}

abbrev pub close : ℕ → Registry → Registry
close c g = record g { is_closed = λ d. eqb d c || g.is_closed d }

unfoldable pub notification : String → Registry → ℕ × Registry
notification id g = elim (g.channel_of id) [ some c ↦ (c, g) | none ↦ (g.made, make_channel id g) ]

abbrev pub close_present : Option ℕ → Registry → Registry
close_present none g = g
close_present (some c) g = close c g

unfoldable pub notify : String → Registry → Registry
notify id g = make_channel id (close_present (g.channel_of id) g)

-- What the requests do to the registry.
pub data Call : Type 0 where
  waits notifies : String → Call

abbrev pub call : Call → Registry → Registry
call (waits id) g = (notification id g).1
call (notifies id) g = notify id g

abbrev pub run : List Call → Registry → Registry
run [] g = g
run (c ∷ calls) g = run calls (call c g)

abbrev pub is_notify : String → Call → Bool
is_notify id (waits other) = false
is_notify id (notifies other) = other == id

abbrev pub no_channels : Registry
no_channels = record { channel_of = λ id. none; made = 0; is_closed = λ c. false }
