-- ===== src/Webhook/Resolve.antt =====
-- The check of callback addresses: `resolveWebhookURL` of internal/communityserver/webhook.go.
pub mod Safe
use agent_community.Common.{
  String, Bool, true, false, ◌&&◌, ◌||◌, not, Option, none, some, List, [], ◌∷◌, any, ◌==◌,
  if◌then◌else◌,
}

-- What `netip` says of an address, with IPv4 in IPv6 unmapped.
pub record Address : Type 0 where
  pub is_valid : Bool
  pub is_unspecified : Bool
  pub is_loopback : Bool
  pub is_multicast : Bool
  pub is_private : Bool
  pub is_link_local_unicast : Bool
  pub is_link_local_multicast : Bool
  pub is_in : String → Bool

pub record CallbackUrl : Type 0 where
  pub scheme : String
  pub host : String
  pub hostname : String
  pub has_user : Bool
  pub fragment : String

-- `url.Parse`, `netip.ParseAddr` of a literal, and the resolver, each of whose addresses may be none
-- that `netip.AddrFromSlice` takes.
pub record Network : Type 0 where
  pub parse_url : String → Option CallbackUrl
  pub parse_address : String → Option Address
  pub lookup_address : String → Option (List (Option Address))

abbrev pub forbidden_documentation_prefixes : List String
forbidden_documentation_prefixes =
    "192.0.2.0/24" ∷ "198.51.100.0/24" ∷ "203.0.113.0/24" ∷ "2001:db8::/32" ∷ []

unfoldable pub public_webhook_address : Address → Bool
public_webhook_address a =
    not (
      not a.is_valid
      || a.is_unspecified
      || a.is_loopback
      || a.is_multicast
      || a.is_private
      || a.is_link_local_unicast
      || a.is_link_local_multicast)
    && not (any a.is_in forbidden_documentation_prefixes)

abbrev pub onto_validated : Address → Option (List Address) → Option (List Address)
onto_validated a none = none
onto_validated a (some rest) = some (a ∷ rest)

-- The loop over the addresses; `none` is an error.
unfoldable pub validated : List (Option Address) → Option (List Address)
unfolding public_webhook_address
validated [] = some []
validated (none ∷ rest) = none
validated (some a ∷ rest) =
    let behind = validated rest in
    if public_webhook_address a then onto_validated a behind else none

abbrev pub with_url : CallbackUrl → Option (List Address) → Option (CallbackUrl × List Address)
with_url u none = none
with_url u (some addresses) = some (u, addresses)

abbrev pub looked_up :
    CallbackUrl → Option (List (Option Address)) → Option (CallbackUrl × List Address)
looked_up u none = none
looked_up u (some []) = none
looked_up u (some (a ∷ rest)) = with_url u (validated (a ∷ rest))

abbrev pub forbidden_literal : Option Address → Bool
forbidden_literal none = false
forbidden_literal (some a) = not (public_webhook_address a)

abbrev pub parsed_webhook : Network → Option CallbackUrl → Option (CallbackUrl × List Address)
parsed_webhook network none = none
parsed_webhook network (some u) =
    if not (u.scheme == "https") || u.host == ""
    then none
    else if u.has_user || not (u.fragment == "")
    then none
    else if forbidden_literal (network.parse_address u.hostname)
    then none
    else looked_up u (network.lookup_address u.hostname)

unfoldable pub resolve_webhook_url : Network → String → Option (CallbackUrl × List Address)
unfolding validated
resolve_webhook_url network raw = parsed_webhook network (network.parse_url raw)

-- `ValidateWebhookURL`
abbrev pub validate_webhook_url : Network → String → Bool
validate_webhook_url network raw = elim (resolve_webhook_url network raw) [
  | none ↦ false
  | some _ ↦ true
]
