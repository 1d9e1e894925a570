-- ===== src/Engagement/Tests.antt =====
-- The validation of a configuration at a concrete input.
use scuttlebot.Engagement.Valid.{validate_iff, IsWellFormed}
use scuttlebot.Common.{pos, bytes, [], ◌∷◌, none, ok, ◌≡◌, ◌↔◌}
use scuttlebot.Engagement.{validate, EngagementConfig}

abbrev config2 : EngagementConfig
config2 = record {
  channels = bytes "#general" ∷ [];
  ops_channels = bytes "#general" ∷ [];
  permissions = [];
  rate_limit = record { messages_per_second = 0; burst = pos 5 };
  rules = record { respond_to_types = []; ignore_nicks = [] };
  system_prompt = [];
  model = [];
  temperature = none;
  tool_allowlist = [];
}

validate_iff_example : (validate config2 ≡ ok tt) ↔ IsWellFormed config2
validate_iff_example = validate_iff config2
