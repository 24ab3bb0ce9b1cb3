-- ===== src/Scenarios/Texts.antt =====
-- An id and a file that are written and read back (src/id.rs, src/agent.rs).
use buzz_server.Base.{
  ℕ, Bool, none, some, [], ◌∷◌, String, ok, ◌≡◌, refl, sym, some-injective, subst, arith,
}
use buzz_server.Agent.Files.{AgentConfigFile, all_channels, anyone}
use buzz_server.Id.{Uuids, Simple}
use buzz_server.Json.Files.{to_json, from_json, parse_runtime}
use buzz_server.Json.Back.{Typed, from_json-to_json}
use buzz_server.Scenarios.Files.{seven}

abbrev only_seven : Uuids
only_seven = record { simple = λ id. "00000000000000000000000000000007"; parse_str = λ s. some 7 }

seven-Simple : Simple only_seven 7
unfolding buzz_server.Text.utf8_len buzz_server.Base.all
seven-Simple = record { long = refl; digits = refl; read = refl }

abbrev full : AgentConfigFile
full = record seven {
  runtime = some "goose";
  environment = ("LEVEL", "1") ∷ ("MODE", "fast") ∷ [];
  filesystem = record { user = some "seven" };
  auto_join_open_channels = all_channels;
  agent_args = "--quiet" ∷ [];
  respond_to = anyone;
  idle_timeout_seconds = some 60;
}

goose : parse_runtime "goose" ≡ ok "goose"
unfolding parse_runtime
goose = refl

full-Typed : Typed full
unfolding buzz_server.AgentFiles.Resolved.extend
full-Typed = record {
  runtime = λ r e. subst (λ x. parse_runtime x ≡ ok x) (some-injective "goose" r e) goose;
  environment = refl;
  parallelism = omega arith;
  idle = λ n e. ground arith;
  longest = λ n e. absurd (ground arith);
}

from_json-to_json_example : from_json only_seven (to_json only_seven full) ≡ ok full
from_json-to_json_example = from_json-to_json only_seven full seven-Simple full-Typed
