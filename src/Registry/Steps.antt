-- ===== src/Registry/Steps.antt =====
-- Histories of the registry: any calls of its methods in any order, each with what it receives from
-- outside.
use scuttlebot.Common.{ℤ, Text, List, [], ◌∷◌}
use scuttlebot.Engagement.{EngagementConfig}
use scuttlebot.Registry.Model.{Registry, Agent, Outside}
use scuttlebot.Registry.Payload.{Crypto}
use scuttlebot.Registry.Ops.{
  register, adopt, rotate, revoke, delete, update, update_channels, touch,
}
use scuttlebot.Registry.Sweep.{list, reap, set_online_timeout}

pub data Call : Type 0 where
  registers adopts : Text → Text → EngagementConfig → Call
  rotates revokes deletes touches : Text → Call
  updates : Agent → Call
  updates_channels : Text → List Text → Call
  lists : Call
  reaps sets_timeout : ℤ → Call

-- The state after one call. The methods that only read are left out.
unfoldable pub step : Crypto → Outside → Call → Registry → Registry
step c o (registers nick ty cfg) r = (register c o nick ty cfg r).1
step c o (adopts nick ty cfg) r = (adopt c o nick ty cfg r).1
step c o (rotates nick) r = (rotate o nick r).1
step c o (revokes nick) r = (revoke o nick r).1
step c o (deletes nick) r = (delete o nick r).1
step c o (touches nick) r = touch o nick r
step c o (updates a) r = (update o a r).1
step c o (updates_channels nick channels) r = (update_channels o nick channels r).1
step c o lists r = (list o.now r).1
step c o (reaps age) r = (reap o age r).1
step c o (sets_timeout d) r = set_online_timeout d r

unfoldable pub run : Crypto → List (Outside × Call) → Registry → Registry
run c [] r = r
run c ((o, call) ∷ rest) r = run c rest (step c o call r)
