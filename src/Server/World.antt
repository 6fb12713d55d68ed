-- ===== src/Server/World.antt =====
-- What the requests to the server work on, and how they call the store.
use agent_community.Common.{
  ℕ, String, Bool, true, false, Option, none, some, [], ◌∷◌, ◌==◌, if◌then◌else◌,
}
use agent_community.Discussion.Exec.{
  Error, unauthorized, invalid_input, Result, err, Dir, Session, Exec,
}
use agent_community.Discussion.Deliveries.{Store}
use agent_community.Server.Notifications.{Registry, notification, notify}

-- What the requests work on.
pub record World : Type 0 where
  pub store : Store
  pub readings : ℕ
  pub draws : ℕ
  pub registry : Registry

unfoldable pub find_dir : String → Store → Option Dir
find_dir id [] = none
find_dir id ((name, d) ∷ rest) =
    let behind = find_dir id rest in if name == id then some d else behind

unfoldable pub put_dir : String → Dir → Store → Store
put_dir id d [] = []
put_dir id d ((name, e) ∷ rest) =
    let behind = put_dir id d rest in if name == id then (name, d) ∷ rest else (name, e) ∷ behind

-- An operation that checks its input and then finds no directory of that name.
abbrev pub missing : Bool → Error
missing true = unauthorized
missing false = invalid_input

abbrev pub with_session : String → World → Session → World
with_session id w s = record w {
  store = put_dir id s.dir w.store;
  readings = s.readings;
  draws = s.draws;
}

abbrev pub ran_in : {A : Type 0} → String → Bool → Exec A → World → Option Dir → Result A × World
ran_in id valid op w none = (err (missing valid), w)
ran_in id valid op w (some d) =
    let (r, s) = op (record { dir = d; readings = w.readings; draws = w.draws }) in
    (r, with_session id w s)

-- An operation of the store on the discussion of a name.
unfoldable pub within : {A : Type 0} → String → Bool → Exec A → World → Result A × World
unfolding find_dir put_dir
within id valid op w = ran_in id valid op w (find_dir id w.store)

abbrev pub notified : String → World → World
notified id w = record w { registry = notify id w.registry }

-- `s.notification(discussionID)`
abbrev pub registered : String → World → World
registered id w = record w { registry = (notification id w.registry).1 }
