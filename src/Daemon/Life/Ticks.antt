-- ===== src/Daemon/Life/Ticks.antt =====
-- What a tick of the refresh loop of cmd/daemon.go does to the sessions that are about to expire.
use claviger.Store.Entry.{Entry}
use claviger.Config.Names
use claviger.Config.Names.{IsOwn, recipes-identity}
