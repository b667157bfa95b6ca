-- ===== src/Command/Watch.antt =====
-- The watch command of cmd/status.go: the table of the status command, drawn again at each tick
-- until a signal ends it.
use claviger.Prelude.{
  ℕ, suc, zero, String, ◌≡◌, refl, List, [], ◌∷◌, Result, ok, err, length, arith,
}
use claviger.Effect.{Eff}
use claviger.Control.Status.{IdentityStatus}
use claviger.Command.{Tool, client_status}
use claviger.Command.Table.{Table, Printer, render_status, status_client, status_at}

-- One drawing: the time in its title, and the table or the error below.
pub record Frame : Type 0 where
  pub at : ℕ
  pub shows : Result Table

module _ {W J P C : Type 0} (tool : Tool W J P C) (printer : Printer) (next_tick : W → W) where
  abbrev frame : ℕ → Result (List IdentityStatus) × W → Frame × W
  frame at (err x, w) = (record { at = at; shows = err x }, w)
  frame at (ok rows, w) =
      let (now, w') = tool.builder.env.now w in
      (record { at = at; shows = ok (render_status printer rows now) }, w')

  -- draw, without its escape codes
  unfoldable pub draw : String → W → Frame × W
  draw path w = let (at, w') = tool.builder.env.now w in frame at (client_status tool path w')

  -- The drawings at the ticks that come before the signal.
  unfoldable pub redraw : ℕ → String → W → List Frame × W
  redraw zero path w = ([], w)
  redraw (suc ticks) path w =
      let (f, w1) = draw path (next_tick w) in
      let (rest, w2) = redraw ticks path w1 in (f ∷ rest, w2)

  abbrev watch_at : ℕ → Result String → Eff W (List Frame)
  watch_at ticks (err x) w = (err x, w)
  watch_at ticks (ok path) w =
      let (f, w1) = draw path w in let (rest, w2) = redraw ticks path w1 in (ok (f ∷ rest), w2)

  -- RunE of the watch command, with the number of ticks before the signal
  unfoldable pub watch_command : ℕ → String → Eff W (List Frame)
  watch_command ticks flag w = watch_at ticks (status_client tool printer flag) w

  -- A drawing shows what the status command would print just after the time in its title.
  shows-draw :
      (path : String) (w : W)
      → (draw path w).0.shows ≡ (status_at tool printer (ok path) (tool.builder.env.now w).1).0
  unfolding draw
  shows-draw path w = ground arith

  length-redraw : (ticks : ℕ) (path : String) (w : W) → length (redraw ticks path w).0 ≡ ticks
  unfolding redraw
  length-redraw zero path w = refl
  length-redraw (suc ticks) path w =
      omega (arith, length-redraw ticks path (draw path (next_tick w)).1)

  -- However the daemon answers, the monitor that finds its socket draws once at its start and once
  -- for each tick, and ends without an error.
  pub length-watch_command :
      (ticks : ℕ) (flag path : String) (w : W)
      → status_client tool printer flag ≡ ok path
      → (frames : List Frame) × ((watch_command ticks flag w).0 ≡ ok frames)
        × (length frames ≡ suc ticks)
  unfolding watch_command
  length-watch_command ticks flag path w attached =
      rw (attached) (_, refl, omega (arith, length-redraw ticks path (draw path w).1))
