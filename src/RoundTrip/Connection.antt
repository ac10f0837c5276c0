-- ===== src/RoundTrip/Connection.antt =====
-- The whole client, and `handle_conn` of the server over the same connection.
mod Examples
use mefsc.Common.{
  ℕ, ◌+◌, ◌≤◌, ◌<◌, ◌≡◌, ◌≢◌, refl, sym, ap, ◌∙◌, true, some, List, [], ◌∷◌, ◌++◌, arith, length,
  All, append_assoc, le_bytes,
}
use mefsc.Constants.{ack_suc, stream_chunk_size}
use mefsc.Platform.{Platform, W}
use mefsc.Platform.Laws.{View, Reliable, Sound, KeyExchange, Prompt}
use mefsc.Platform.Database.{Database, Table}
use mefsc.Outcome.{Outcome}
use mefsc.CText.{query}
use mefsc.Transfer.Messages.{with_nul, HasFrame}
use mefsc.Keys.Agreement.{public_key}
use mefsc.Store.{Request, Reply, IsSealed}
use mefsc.Store.Folder.{Folder, files}
use mefsc.Store.Wire.{CarriesAll}
use mefsc.Server.{Stale}
use mefsc.Server.Upload.Announce.{Sized}
use mefsc.Server.Login.{StaleLogin}
use mefsc.Server.Login.Accepts.{accepts}
use mefsc.Server.Connection.Whole.{Connected, home, housed, handle_conn-Refines}
use mefsc.Client.Program.{Turn, StaleClient, client}
use mefsc.Client.Program.Requests.{SuitsAll, AreRequestsOf, AreRequestsOf-length, IsClient}
use mefsc.Client.Program.Whole.{client-Ran}
use mefsc.RoundTrip.{append_cancel}
use mefsc.RoundTrip.File.{worlds}

module _ ⦃p : Platform⦄ {Paired : p.sodium.Stream → p.sodium.Stream → Type 0}
    (sound : Sound p.sodium Paired) (law : KeyExchange p.sodium) (view : View p.net.Sock)
    (good : Reliable p.net view) (quick : Prompt p.net view) (fuel rounds : ℕ) (stale : Stale)
    (sized : Sized stale) (db : Database) (table : Table db query) (stale_login : StaleLogin)
    (name : List ℕ) (folder : Folder p.storage (home name)) (stale_client : StaleClient)
    (password : List ℕ) where
  open view use {pending, noise, written}
  open p.sodium use {kx_keypair, kx_server_session_keys, kx_client_session_keys}

  -- The client has the server's keys the other way round.
  client_keys :
      (ws wc : W) (rx tx : List ℕ)
      → kx_server_session_keys (public_key ws) (kx_keypair ws.rng).0.1 (public_key wc)
        ≡ some (rx, tx)
      → kx_client_session_keys (public_key wc) (kx_keypair wc.rng).0.1 (public_key ws)
        ≡ some (tx, rx)
  client_keys ws wc rx tx e =
      let (rx', tx', server, client) = law.agrees ws.rng wc.rng in
      let same : some (rx', tx') ≡ some (rx, tx) = sym server ∙ e in
      let first : rx' ≡ rx = cc in let second : tx' ≡ tx = cc in client ∙ ap some (cc)

  -- What the server receives, from what the client sent.
  received :
      (pk f g s up rest : List ℕ) (w : W)
      → pending w.sock ≡ up ++ rest
      → pk ++ ((f ++ g) ++ s) ≡ up
      → pending w.sock ≡ pk ++ (f ++ (g ++ (s ++ rest)))
  received pk f g s up rest w e k =
      e
      ∙ ap (λ x. x ++ rest) (sym k)
      ∙ append_assoc pk ((f ++ g) ++ s) rest
      ∙ ap (◌++◌ pk) (append_assoc (f ++ g) s rest ∙ append_assoc f g (s ++ rest))

  -- The two programs over one connection. Over reliable connections, without signals at the client: the
  -- user's name, which has no NUL, and the password fit in frames; the user is in the table and the
  -- password fits the hash; the client receives the server's public key, the acceptance, and replies that
  -- suit the user's turns, and its arrays have at most the declared sizes; the server receives what the
  -- client sends, the user's directory, once made, is a folder of sealed files, and there are actions for
  -- the turns and fuel for `recv`. Then `handle_conn` runs to its end, and has done to the user's folder,
  -- one after another, what the store may do for the requests that the turns stand for.
  pub handle_conn-client :
      (ts : List Turn) (rs : List Reply) {down : List ℕ} (rx tx up rest rest' : List ℕ)
      (actions : ℕ) (wc wc' ws : W) (d : db.Db) {d' : p.storage.Disk}
      → kx_server_session_keys (public_key ws) (kx_keypair ws.rng).0.1 (public_key wc)
        ≡ some (rx, tx)
      → HasFrame name
      → HasFrame password
      → All (λ b. b ≢ 0) name
      → accepts db table (table.users d name) (with_nul password) ≡ true
      → SuitsAll rounds password wc.disk ts rs d'
      → CarriesAll tx rs down
      → IsClient stale_client
      → noise wc.sock ≡ 0
      → pending wc.sock ≡ public_key ws ++ (le_bytes 4 ack_suc ++ (down ++ rest))
      → client fuel rounds stale_client name password ts wc ≡ Outcome.next 0 wc'
      → written wc'.sock ≡ written wc.sock ++ up
      → pending ws.sock ≡ up ++ rest'
      → stream_chunk_size + 16 + noise ws.sock ≤ fuel
      → folder.Holds
          (housed sound view good fuel rounds stale sized db table stale_login name folder ws)
      → IsSealed rounds (
          files p.storage
            (home name)
            (housed sound view good fuel rounds stale sized db table stale_login name folder ws))
      → length ts < actions
      → (qs : List Request) × AreRequestsOf rounds password wc.disk ts rs d' qs
        × Connected sound view good fuel rounds stale sized db table stale_login name folder actions
            tx qs ws d rest'
  handle_conn-client ts rs rx tx up rest rest' actions wc wc' ws d k hn hp nul fits ss cs c z ec
        runs sends es bs h s m =
      let r =
        client-Ran sound view good quick fuel rounds stale_client (public_key ws) tx rx name
          password rest ts rs wc (law.public_length ws.rng) (client_keys ws wc rx tx k) hn hp ss cs
          c z ec (omega arith) in
      let ends : Outcome.next 0 r.after ≡ Outcome.next 0 wc' = sym r.result ∙ runs in
      let same : public_key wc ++ ((r.name_frame ++ r.password_frame) ++ r.sent) ≡ up =
        append_cancel (written wc.sock)
          (public_key wc ++ ((r.name_frame ++ r.password_frame) ++ r.sent)) up
          (sym r.spoken.added ∙ ap (λ x. written x.sock) (worlds ends) ∙ sends) in
      (
        r.requests,
        r.right,
        handle_conn-Refines sound view good fuel rounds stale sized db table stale_login name folder
            actions (public_key wc) rx tx password rest' r.requests ws d (law.public_length wc.rng)
            k nul r.name_framed r.password_framed fits r.asks r.fair h s
            (omega (arith, AreRequestsOf-length rounds password r.right))
            (received (public_key wc) r.name_frame r.password_frame r.sent up rest' ws es same) bs,
      )
