-- ===== src/Command/OnlineTests.antt =====
-- The device of Tests while it is online, with an acknowledgement timer.
use iotaps.Common.{true, false, [], ◌∷◌}
use iotaps.Common.Store.{empty, put}
use iotaps.Command.World.{World, Env, queue_works}
use iotaps.Command.Service.{TenantScope}

abbrev connected : World
connected = record {
  records = empty;
  queues = λ d. [];
  queue_ends = empty;
  online = 3 ∷ [];
  token_cache = empty;
  credentials = record { token = 7; device_id = 3; revoked = false } ∷ [];
  devices = put 3 5 empty;
  broker = [];
  events = [];
  timers = [];
  audit = [];
}

abbrev clear : Env
clear = record {
  now = 1;
  fresh_id = 100;
  accepts = λ t p. true;
  fan_out = true;
  db_up = true;
  queue_calls = queue_works;
}

abbrev owner : TenantScope
owner = record { org_id = 5; bypass = false }
