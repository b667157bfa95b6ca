-- ===== src/Command/Outcome.antt =====
-- What the commands of cmd show: the header of a daemon's session, and the rows behind an exit.
use Prim.Native.String.{◌++◌}
use claviger.Prelude.{
  ℕ, String, ◌≡◌, ◌≢◌, refl, sym, ap, ◌∙◌, true, false, List, [], ◌∷◌, map, Option, Error, Result,
  ok, err, ◌==◌, arith, all, Bool-cases, inl, inr,
}
use claviger.Text.{trim_prefix, has_prefix}
use claviger.Http.{Request, Response}
use claviger.Httpx.{TlsClientConfig}
use claviger.Session.{Session}
use claviger.Effect.{Eff}
use claviger.Store.{Store}
use claviger.Store
use claviger.Config.{Config}
use claviger.Control.{creds_of, creds_handler, client_creds}
use claviger.Control.Warm.{client_creds-apply}
use claviger.Corpus.Load.{Files}
use claviger.Replay.{run_all}
use claviger.Replay.Rows.{identities-run_all}
use claviger.Replay.Verdict.{has_error, replay_exit_ok}
use claviger.Daemon.Flags.{TlsFlags}
use claviger.Command.{
  Tool, Source, attach_client, source_get, replay_source, session_for, header_line, header_command,
}
use claviger.Command.Replaying.{
  ReplayFlags, runner, run_parts, single_with, single_request, replay_single,
}

module _ {W J P C : Type 0} (tool : Tool W J P C) where
  -- With a daemon at the socket, the configuration and the TLS flags are not looked at: the
  -- session is the daemon's.
  session_for_attached :
      (flag config id path : String) (tls : TlsFlags) (w : W)
      → attach_client tool flag ≡ ok (path, true)
      → session_for tool flag config id tls w ≡ client_creds tool.wire (tool.ask path) id w
  unfolding session_for replay_source source_get
  session_for_attached flag config id path tls w up = rw (up, replay_source) refl

module _ {V J P C : Type 0} (tool : Tool (Store V × V) J P C) (clock : V → ℕ × V) where
  -- Beside a daemon whose store gives a session, the header command prints the line of that
  -- session, whatever the configuration file and the TLS flags of the command say, provided that
  -- the record decodes to what was encoded and that the request reaches the handler under a path
  -- that ends in the identity.
  pub header_command-daemon :
      (flag config id socket path : String) (tls : TlsFlags) (st : Store V) (v : V) (sess : Session)
      → attach_client tool flag ≡ ok (socket, true)
      → (id == "") ≡ false
      → trim_prefix path "/creds/" ≡ id
      → tool.ask socket ("/creds/" ++ tool.wire.path_escape id) (st, v) ≡ (
        ok (creds_handler tool.wire clock path st v).0,
        ((creds_handler tool.wire clock path st v).1, (creds_handler tool.wire clock path st v).2),
      )
      → tool.wire.decode_creds (tool.wire.encode_creds (creds_of sess)) ≡ ok (creds_of sess)
      → (Store.get clock id st v).0 ≡ ok sess
      → (header_command tool flag config id tls (st, v)).0
        ≡ header_line tool id (Store.get clock id st v).0
  unfolding header_command
  header_command-daemon flag config id socket path tls st v sess up named route reached decoded
        found =
      ap (header_line tool id) (
        ap (λ p. p.0) (session_for_attached tool flag config id socket tls (st, v) up)
        ∙ (client_creds-apply tool.wire clock (tool.ask socket) id path st v sess
            tool.builder.env.cookie_pair
            (record { method = "GET"; target = ""; header = []; body = "" }) named route reached
            decoded found).0)
      ∙ ap (header_line tool id) (sym found)

module _ {W J P C : Type 0} (tool : Tool W J P C) (files : Files)
    (dial : TlsClientConfig P C → Request → Eff W (Response × Option Error)) where
  abbrev Parts : Type 0
  Parts = Result (Source W × (Request → Eff W (Response × Option Error)))

  single_with-exit :
      (ids : List String) (req : Request) (parts : Parts) (w : W)
      → ids ≢ []
      → (single_with tool files dial ids req parts w).0.exit ≡ ok tt
      → (map (λ row. row.identity) (single_with tool files dial ids req parts w).0.rows ≡ ids)
        × (all has_error (single_with tool files dial ids req parts w).0.rows ≡ false)
  unfolding run_all
  single_with-exit ids req (err x) w some_ids h = cc
  single_with-exit [] req (ok (src, client)) w some_ids h = absurd (some_ids refl)
  single_with-exit (id ∷ ids) req (ok (src, client)) w some_ids h = (
    identities-run_all (runner tool files dial client) (id ∷ ids) req (src, w),
    replay_exit_ok (run_all (runner tool files dial client) (id ∷ ids) req (src, w)).0 (omega arith)
        h,
  )

  -- A replay of one request under at least one identity that exits without an error had a path
  -- from the root, has one row for each identity, in order, and at least one of them was answered.
  pub replay_single-exit :
      (f : ReplayFlags) (cfg : Config) (w : W)
      → f.ids ≢ []
      → (replay_single tool files dial f cfg w).0.exit ≡ ok tt
      → (has_prefix f.path "/" ≡ true)
        × (map (λ row. row.identity) (replay_single tool files dial f cfg w).0.rows ≡ f.ids)
        × (all has_error (replay_single tool files dial f cfg w).0.rows ≡ false)
  unfolding replay_single
  replay_single-exit f cfg w some_ids h = elim (Bool-cases (has_prefix f.path "/")) [
    | inl rooted ↦
        let (ids, answered) =
          single_with-exit f.ids (single_request tool files dial f cfg)
            (run_parts tool files dial f cfg) w some_ids (rw rooted at h) in
        rw rooted (refl, ids, answered)
    | inr relative ↦ ground (arith, h, relative)
  ]
