-- ===== src/Discussion/Deliveries.antt =====
-- `RetryDelivery` and `CompleteDelivery` of subscription.go, over the directories of all discussions.
pub mod Update
pub mod Due
use agent_community.Common.{
  ◌+◌, ◌≡◌, refl, sym, ap, ◌∙◌, String, Bool, true, false, Option, none, some, List, [], ◌∷◌, ◌==◌,
  eq_iff, arith, Bool-cases, Option-cases, inl, inr, if◌then◌else◌, find,
}
use mathlib.Core.Path.{subst}
use agent_community.Discussion.Model.{Time, DeliveryRecord, completed}
use agent_community.Discussion.Exec.{Error, not_exist, Result, ok, err, Dir}

-- The directories under `discussions`, by name, in the order in which `os.ReadDir` lists them.
abbrev pub Store : Type 0
Store = List (String × Dir)

abbrev pub behind : DeliveryRecord → Option (List DeliveryRecord) → Option (List DeliveryRecord)
behind d none = none
behind d (some outbox) = some (d ∷ outbox)

-- The update of one file of an outbox; `none` if it is not there.
unfoldable pub update_outbox :
    String → (DeliveryRecord → DeliveryRecord) → List DeliveryRecord → Option (List DeliveryRecord)
update_outbox id f [] = none
update_outbox id f (d ∷ outbox) =
    let rest = update_outbox id f outbox in
    if d.id == id then some (f d ∷ outbox) else behind d rest

unfoldable pub update_delivery :
    String → (DeliveryRecord → DeliveryRecord) → Store → Result (Unit {0}) × Store
unfolding update_outbox
update_delivery id f [] = (err not_exist, [])
update_delivery id f ((name, d) ∷ store) =
    let (r, rest) = update_delivery id f store in
    elim (update_outbox id f d.outbox) [
      | none ↦ (r, (name, d) ∷ rest)
      | some outbox ↦ (ok tt, (name, record d { outbox = outbox }) ∷ store)
    ]

abbrev pub retried : Time → String → DeliveryRecord → DeliveryRecord
retried next_attempt_at last_error d = record d {
  attempts = d.attempts + 1;
  next_attempt_at = next_attempt_at;
  last_error = last_error;
}

abbrev pub finished : DeliveryRecord → DeliveryRecord
finished d = record d { status = completed; last_error = "" }

unfoldable pub retry_delivery : String → Time → String → Store → Result (Unit {0}) × Store
unfolding update_delivery
retry_delivery id next_attempt_at last_error =
    update_delivery id (retried next_attempt_at last_error)

unfoldable pub complete_delivery : String → Store → Result (Unit {0}) × Store
unfolding update_delivery
complete_delivery id = update_delivery id finished

-- The delivery of an id: the first in the order of the directories.
unfoldable pub find_delivery : String → Store → Option DeliveryRecord
find_delivery id [] = none
find_delivery id ((name, d) ∷ store) =
    let rest = find_delivery id store in
    elim (find (λ (e : DeliveryRecord). e.id == id) d.outbox) [ none ↦ rest | some e ↦ some e ]
