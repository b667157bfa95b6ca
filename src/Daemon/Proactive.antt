-- ===== src/Daemon/Proactive.antt =====
-- proactiveRefresh of cmd/daemon.go: the renewal of sessions before they expire. Each tick runs one
-- cycle; the goroutine ends after the last tick before the daemon stops.
use claviger.Prelude.{ℕ, ◌*◌, suc, zero, String, ◌≡◌, arith, List, [], ◌∷◌, some, Error}
use claviger.Store.{Store, entry_of, refresh_expiring, health_of}
use claviger.Store.Entry.{Entry}
use claviger.Store.Frame.{refresh_expiring_spares}

module _ {W : Type 0} (clock : W → ℕ × W) (next_tick : W → W) where
  -- The failures that are logged, cycle by cycle, and the store after the last one.
  unfoldable pub proactive_refresh :
      ℕ → ℕ → Store W → W → List (List (String × Error)) × Store W × W
  proactive_refresh zero interval st w = ([], st, w)
  proactive_refresh (suc ticks) interval st w =
      let (failures, st1, w1) = refresh_expiring clock (2 * interval) st (next_tick w) in
      let (rest, st2, w2) = proactive_refresh ticks interval st1 w1 in (failures ∷ rest, st2, w2)

  -- However often the daemon looks, it leaves an identity as it is that has no session, or one
  -- whose expiry is not known.
  pub proactive_refresh_spares :
      (ticks interval : ℕ) (id : String) (e : Entry W) (st : Store W) (w : W)
      → entry_of id st.entries ≡ some e
      → (health_of id e).expires_at ≡ 0
      → entry_of id (proactive_refresh ticks interval st w).1.entries ≡ some e
  unfolding proactive_refresh health_of
  proactive_refresh_spares zero interval id e st w found unknown = found
  proactive_refresh_spares (suc ticks) interval id e st w found unknown =
      let (failures, st1, w1) = refresh_expiring clock (2 * interval) st (next_tick w) in
      proactive_refresh_spares ticks interval id e st1 w1
        (refresh_expiring_spares clock (2 * interval) id e st (next_tick w) found
          (ground (arith, unknown)))
        unknown
