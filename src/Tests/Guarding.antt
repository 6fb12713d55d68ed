-- ===== src/Tests/Guarding.antt =====
-- A callback whose host resolves to a public address.
use agent_community.Common.{◌≡◌, refl, true, false, none, some, [], ◌∷◌}
use agent_community.Webhook.Resolve.{
  Address, CallbackUrl, Network, public_webhook_address, validated, resolve_webhook_url,
}
use agent_community.Webhook.Resolve.Safe.{IsSafe, resolve_webhook_url-IsSafe}

abbrev public_address : Address
public_address = record {
  is_valid = true;
  is_unspecified = false;
  is_loopback = false;
  is_multicast = false;
  is_private = false;
  is_link_local_unicast = false;
  is_link_local_multicast = false;
  is_in = λ prefix. false;
}

abbrev callback : CallbackUrl
callback = record {
  scheme = "https";
  host = "goat.example";
  hostname = "goat.example";
  has_user = false;
  fragment = "";
}

abbrev pub network : Network
network = record {
  parse_url = λ raw. some callback;
  parse_address = λ host. none;
  lookup_address = λ host. some (some public_address ∷ []);
}

resolves :
    resolve_webhook_url network "https://goat.example/hook" ≡ some (callback, public_address ∷ [])
unfolding resolve_webhook_url validated public_webhook_address
resolves = refl

resolve_webhook_url-IsSafe_example :
    IsSafe network "https://goat.example/hook" callback (public_address ∷ [])
resolve_webhook_url-IsSafe_example =
    resolve_webhook_url-IsSafe network "https://goat.example/hook" resolves
