-- ===== src/Server/Connection/Serving.antt =====
-- The loop of `handle_conn` over the messages of a client in good order.
use mefsc.Common.{
  ℕ, suc, ◌+◌, ◌^◌, ◌≤◌, ◌<◌, ◌≡◌, ◌≢◌, refl, ap, ◌∙◌, List, ◌++◌, arith, le_bytes, ◌==◌,
  if◌then◌else◌,
}
use mefsc.Constants.{new_action, stream_chunk_size}
use mefsc.Platform.{Platform, W}
use mefsc.Platform.Laws.{View, Reliable}
use mefsc.Outcome.{Outcome, bind-next, ◌>>◌}
use mefsc.Wire.Receive.{Received, Received-trans, Gives}
use mefsc.Session.Frames.{Framed}
use mefsc.Server.{Operator, Stale}
use mefsc.Server.Actions.{read_intent-Framed, receive_notice-Framed}
use mefsc.Server.Connection.{perform, serve, serve_round}

module _ ⦃p : Platform⦄ (view : View p.net.Sock) (good : Reliable p.net view) (fuel rounds : ℕ)
    (stale : Stale) (op : Operator) where
  open view use {pending, noise}

  -- Over a reliable connection, a notice of a new action and an intent make the loop perform that
  -- action and go on with what follows.
  pub serve-turn :
      (actions intent : ℕ) {f g : List ℕ} (u : Framed op.server_rx (le_bytes 4 new_action) f)
      (v : Framed op.server_rx (le_bytes 4 intent) g) (rest : List ℕ) (w : W)
      → intent < 2 ^ 32
      → pending w.sock ≡ f ++ (g ++ rest)
      → stream_chunk_size + 16 + noise w.sock ≤ fuel
      → (w' : W) × (serve fuel rounds stale (suc actions) op w
          ≡ (perform fuel rounds stale op intent >> serve fuel rounds stale actions op) w')
        × Received view w rest w'
  unfolding serve serve_round
  serve-turn actions intent {f} {g} u v rest w h e b =
      let (w1, e1, v1) =
        receive_notice-Framed view good fuel stale op new_action u (g ++ rest) w (omega arith) e
          b in
      let (w2, e2, v2) =
        read_intent-Framed view good fuel stale op intent v rest w1 h v1.remaining
          (omega (arith, v1.quieter)) in
      (w2, bind-next _ e1 (bind-next _ e2 refl), Received-trans view v1 v2)

  -- Over a reliable connection, any other notice ends the loop.
  pub serve-goodbye :
      (actions notice : ℕ) {f : List ℕ} (u : Framed op.server_rx (le_bytes 4 notice) f)
      (rest : List ℕ) (w : W)
      → notice < 2 ^ 32
      → notice ≢ new_action
      → pending w.sock ≡ f ++ rest
      → stream_chunk_size + 16 + noise w.sock ≤ fuel
      → Gives view (serve fuel rounds stale (suc actions) op w) tt w rest
  unfolding serve serve_round
  serve-goodbye actions notice u rest w h n e b =
      let (w1, e1, v1) = receive_notice-Framed view good fuel stale op notice u rest w h e b in
      let other : (if notice == new_action then 0 else 1) ≡ 1 = ground arith in
      (w1, bind-next _ (e1 ∙ ap (λ c. Outcome.next c w1) other) refl, v1)

  -- Over a reliable connection: where a client announces an action and sends no intent, the notice of
  -- its next action is taken for the intent, and the intent that follows ends the session, with nothing
  -- performed.
  pub serve-without_intent :
      (actions intent : ℕ) {f g h : List ℕ} (u : Framed op.server_rx (le_bytes 4 new_action) f)
      (v : Framed op.server_rx (le_bytes 4 new_action) g)
      (x : Framed op.server_rx (le_bytes 4 intent) h) (rest : List ℕ) (w : W)
      → intent < 2 ^ 32
      → intent ≢ new_action
      → pending w.sock ≡ f ++ (g ++ (h ++ rest))
      → stream_chunk_size + 16 + noise w.sock ≤ fuel
      → Gives view (serve fuel rounds stale (suc (suc actions)) op w) tt w rest
  unfolding perform
  serve-without_intent actions intent {f} {g} {h} u v x rest w k n e b =
      let (w1, e1, v1) = serve-turn (suc actions) new_action u v (h ++ rest) w (omega arith) e b in
      let (w2, e2, v2) =
        serve-goodbye actions intent x rest w1 k n v1.remaining (omega (arith, v1.quieter)) in
      (w2, e1 ∙ e2, Received-trans view v1 v2)
