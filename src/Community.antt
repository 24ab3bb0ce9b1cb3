-- ===== src/Community.antt =====
-- src/community.rs: the configuration of a community.
use buzz_server.Base.{
  ℕ, ◌||◌, not, Option, none, some, List, String, Result, ok, ◌>>◌, fail_if, ◌==◌, nat_eq,
  string_eq, all, map, is_some,
}
use buzz_server.Text.{codes, is_empty, trim, utf8_len, is_ascii_hexdigit, to_ascii_lowercase}
use buzz_server.Text.Validate.{ValidationError, invalid, validate_nonempty}
use buzz_server.Agent.{CommunityConfigId}

-- A parsed `url::Url`, by the accessors that the source reads. Parsing is the crate's.
pub record Url : Type 0 where
  pub href : String
  pub scheme : String
  pub host_str : Option String
  pub username : String
  pub password : Option String
  pub query : Option String
  pub fragment : Option String

pub record CommunityConfig : Type 0 where
  pub id : CommunityConfigId
  pub display_name : String
  pub relay_url : Url
  -- The code points of the public key, once it is set.
  pub identity_pubkey : Option (List ℕ)

unfoldable pub validate : CommunityConfig → Result ValidationError (Unit {0})
unfolding validate_nonempty invalid is_empty
validate c = do
  validate_nonempty "display_name" c.display_name 120
  fail_if (not (c.relay_url.scheme == "ws" || c.relay_url.scheme == "wss"))
      (invalid "relay_url" "must use the ws or wss scheme")
  fail_if (not (is_some c.relay_url.host_str)) (invalid "relay_url" "must include a host")
  fail_if (not (is_empty (codes c.relay_url.username)) || is_some c.relay_url.password)
      (invalid "relay_url" "must not include embedded credentials")
  fail_if (is_some c.relay_url.fragment || is_some c.relay_url.query)
      (invalid "relay_url" "must not include a query or fragment")

-- `CommunityConfig::new`; the id is fresh.
unfoldable pub new : CommunityConfigId → String → Url → Result ValidationError CommunityConfig
unfolding validate
new fresh display_name relay_url = do
  let config : CommunityConfig = record {
    id = fresh;
    display_name = display_name;
    relay_url = relay_url;
    identity_pubkey = none;
  }
  validate config
  ok config

unfoldable pub with_identity_pubkey :
    CommunityConfig → String → Result ValidationError CommunityConfig
unfolding trim utf8_len is_ascii_hexdigit to_ascii_lowercase invalid all
with_identity_pubkey c pubkey = do
  let key = map to_ascii_lowercase (trim (codes pubkey))
  fail_if (not (utf8_len key == 64) || not (all is_ascii_hexdigit key))
      (invalid "identity_pubkey" "must be a 64-character hex Nostr public key")
  ok (record c { identity_pubkey = some key })
