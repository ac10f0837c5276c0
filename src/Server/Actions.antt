-- ===== src/Server/Actions.antt =====
-- What the server answers to the messages that start an action.
use mefsc.Common.{
  ℕ, ◌+◌, ◌^◌, ◌≤◌, ◌<◌, ◌≡◌, refl, ap, ◌∙◌, not, List, ◌++◌, arith, length, le_bytes,
  length-le_bytes, ◌==◌, if◌then◌else◌,
}
use mefsc.Constants.{new_action, stream_chunk_size}
use mefsc.Platform.{Platform, W}
use mefsc.Platform.Laws.{View, Reliable}
use mefsc.Outcome.{Outcome, bind-next, pure, return_if, returned, ◌>>◌}
use mefsc.Wire.Receive.{Gives}
use mefsc.Session.Frames.{Framed, read_wrapper-Framed, unwrap-Framed}
use mefsc.Server.{
  Operator, Stale, int_after-le_bytes, expect, receive_notice_of_new_action, read_intent,
}

module _ ⦃p : Platform⦄ (view : View p.net.Sock) (good : Reliable p.net view) where
  open view use {pending, noise}

  -- A framed message that fits the buffer is handed over.
  pub expect-Framed :
      (fuel : ℕ) {rx m f : List ℕ} (capacity corrupt bad : ℕ) (g : Framed rx m f) (rest : List ℕ)
      (w : W)
      → length m ≤ capacity
      → pending w.sock ≡ f ++ rest
      → stream_chunk_size + 16 + noise w.sock ≤ fuel
      → Gives view (expect fuel rx capacity corrupt bad w) m w rest
  unfolding expect
  expect-Framed fuel {rx} {m} {f} capacity corrupt bad g rest w h e b =
      let (w1, e1, v1) = read_wrapper-Framed view good fuel g rest w e b in
      (
        w1,
        bind-next _ e1 (
            ap (λ u. (return_if (not (u.status == 0)) bad >> pure u.decrypted_data) w1)
              (unwrap-Framed view good rx m f capacity g h)),
        v1,
      )

  module _ (fuel : ℕ) (stale : Stale) (op : Operator) where
    -- Over a reliable connection, `read_intent` answers the `int` that the next frame carries, whatever
    -- its variable held.
    pub read_intent-Framed :
        (intent : ℕ) {f : List ℕ} (g : Framed op.server_rx (le_bytes 4 intent) f) (rest : List ℕ)
        (w : W)
        → intent < 2 ^ 32
        → pending w.sock ≡ f ++ rest
        → stream_chunk_size + 16 + noise w.sock ≤ fuel
        → Gives view (read_intent fuel stale op w) intent w rest
    unfolding read_intent
    read_intent-Framed intent g rest w k e b =
        let (w1, e1, v1) =
          expect-Framed fuel 4 _ _ g rest w (omega (arith, length-le_bytes 4 intent)) e b in
        (
          w1,
          ap returned (bind-next _ e1 refl)
              ∙ ap (λ n. Outcome.next n w1) (int_after-le_bytes intent stale.int k),
          v1,
        )

    -- Over a reliable connection, `receive_notice_of_new_action` answers 0 for the notice NEW_ACTION
    -- and 1 for any other `int` in the next frame.
    pub receive_notice-Framed :
        (notice : ℕ) {f : List ℕ} (g : Framed op.server_rx (le_bytes 4 notice) f) (rest : List ℕ)
        (w : W)
        → notice < 2 ^ 32
        → pending w.sock ≡ f ++ rest
        → stream_chunk_size + 16 + noise w.sock ≤ fuel
        → Gives view
            (receive_notice_of_new_action fuel stale op w)
            (if notice == new_action then 0 else 1)
            w
            rest
    unfolding receive_notice_of_new_action
    receive_notice-Framed notice g rest w k e b =
        let (w1, e1, v1) =
          expect-Framed fuel 4 3 2 g rest w (omega (arith, length-le_bytes 4 notice)) e b in
        (
          w1,
          ap returned (bind-next _ e1 refl)
              ∙ ap (λ n. Outcome.next (if n == new_action then 0 else 1) w1)
                  (int_after-le_bytes notice stale.int k),
          v1,
        )
