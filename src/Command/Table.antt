-- ===== src/Command/Table.antt =====
-- cmd/status.go: the table of the status command, as cells; the widths and the colors of the printed
-- cells are left out.
use Prim.Native.String.{◌++◌}
use claviger.Prelude.{
  ℕ, ◌-◌, ◌*◌, ◌/◌, String, ◌≡◌, Bool, true, false, List, [], ◌∷◌, Option, none, some, Error,
  bad_input, Result, ok, err, ◌>>=◌, arith, leb, ◌==◌, if◌then◌else◌,
}
use claviger.Prelude.Int.{ℤ, pos, negsuc}
use claviger.Recipe.Expiry.{second}
use claviger.Session.{expired}
use claviger.Effect.{Eff}
use claviger.Store.{health_of}
use claviger.Store.Entry.{Entry, Ref}
use claviger.Control.Status.{IdentityStatus, Rfc3339, derive_state, derive_state-expired, status_of}
use claviger.Command.{Tool, attach_client, client_status}

-- A row as it is printed.
pub record Cells : Type 0 where
  pub name : String
  pub state : String
  pub expires : String
  pub last_refresh : String
  pub last_error : String

pub data Table : Type 0 where
  no_identities : Table
  table : List Cells → Table

-- time.Time.Sub
abbrev minus : ℕ → ℕ → ℤ
minus a b = if leb b a then pos (a - b) else negsuc (b - a - 1)

-- What the printing takes: the time codec, a duration rounded to a second, as text, and the text of
-- an error.
pub record Printer : Type 0 where
  pub rfc : Rfc3339
  pub rounded : ℤ → String
  pub error_text : Error → String

module _ (printer : Printer) where
  abbrev expiry_in : String → ℕ → Option ℕ → String
  expiry_in text now none = text
  expiry_in text now (some t) =
      if leb t now then "expired" else "in " ++ printer.rounded (minus t now)

  -- relExpiry
  unfoldable pub rel_expiry : String → ℕ → String
  rel_expiry text now =
      if text == "" then "unknown" else expiry_in text now (printer.rfc.parse text)

  abbrev time_ago : String → ℕ → Option ℕ → String
  time_ago text now none = text
  time_ago text now (some t) = printer.rounded (minus now t) ++ " ago"

  -- relPast
  unfoldable pub rel_past : String → ℕ → String
  rel_past text now = if text == "" then "never" else time_ago text now (printer.rfc.parse text)

  abbrev error_cell : Option Error → String
  error_cell none = "-"
  error_cell (some x) = printer.error_text x

  -- The row of one identity.
  unfoldable pub cells_of : ℕ → IdentityStatus → Cells
  cells_of now s = record {
    name = s.name;
    state = derive_state printer.rfc s now;
    expires = rel_expiry s.expires_at now;
    last_refresh = rel_past s.last_refresh now;
    last_error = error_cell s.last_error;
  }

  unfoldable pub cells : ℕ → List IdentityStatus → List Cells
  cells now [] = []
  cells now (s ∷ rows) = cells_of now s ∷ cells now rows

  -- renderStatus
  unfoldable pub render_status : List IdentityStatus → ℕ → Table
  render_status [] now = no_identities
  render_status (s ∷ rows) now = table (cells now (s ∷ rows))

module _ {W J P C : Type 0} (tool : Tool W J P C) (printer : Printer) where
  abbrev client_at : String × Bool → Result String
  client_at (path, true) = ok path
  client_at (path, false) = err (bad_input "no daemon running")

  -- statusClient: the socket of the daemon
  unfoldable pub status_client : String → Result String
  status_client flag = attach_client tool flag >>= λ at. client_at at

  abbrev shown : Result (List IdentityStatus) × W → Result Table × W
  shown (err x, w) = (err x, w)
  shown (ok rows, w) =
      let (now, w') = tool.builder.env.now w in (ok (render_status printer rows now), w')

  abbrev pub status_at : Result String → Eff W Table
  status_at (err x) w = (err x, w)
  status_at (ok path) w = shown (client_status tool path w)

  -- RunE of the status command
  unfoldable pub status_command : String → Eff W Table
  status_command flag w = status_at (status_client flag) w

-- The row of an identity whose session has expired says so in both of its cells, the state and the
-- expiry, although the view has its expiry only to the second: for a time that is formatted to a
-- text that is not empty, and parsed back to its whole seconds.
pub cells_of-expired :
    {W : Type 0} (printer : Printer) (id : String) (e : Entry W) (r : Ref) (now : ℕ)
    → e.session ≡ some r
    → expired r.obj now ≡ true
    → (printer.rfc.format r.obj.expires_at == "") ≡ false
    → printer.rfc.parse (printer.rfc.format r.obj.expires_at)
      ≡ some (r.obj.expires_at / second * second)
    → ((cells_of printer now (status_of printer.rfc (health_of id e))).state ≡ "EXPIRED")
      × ((cells_of printer now (status_of printer.rfc (health_of id e))).expires ≡ "expired")
unfolding cells_of rel_expiry status_of health_of expired
cells_of-expired printer id e r now held old shown parsed = (
  derive_state-expired printer.rfc id e r now held old shown parsed,
  rw held (ground (arith, old, shown, parsed)),
)
