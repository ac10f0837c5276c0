-- ===== src/Client/Program/Refused.antt =====
-- A login that the server refuses, as the client sees it.
use mefsc.Common.{
  ℕ, ◌≤◌, ◌≡◌, refl, sym, ap, ◌∙◌, List, [], ◌∷◌, ◌++◌, arith, length, length-append, le_bytes,
  length-le_bytes, of_le, of_le-le_bytes_int, append-nil,
}
use mefsc.Constants.{minus, ack_fail, aead_npubbytes}
use mefsc.Platform.{Platform, W}
use mefsc.Platform.Laws.{View, Reliable, Sound, interrupted, arrives}
use mefsc.Outcome.{Outcome, bind-next}
use mefsc.CText.{overwrite}
use mefsc.Wire.Blobs.{Wrote-trans}
use mefsc.Session.Frames.{wrap_and_send-Framed}
use mefsc.Transfer.Messages.{Messages, done, then, with_nul, HasFrame}
use mefsc.Server.{int_after}
use mefsc.Client.Program.{after_status, recv_status, send_credentials}

-- The front of a text, over that text.
overwrite_front :
    (c x text rest : List ℕ)
    → text ++ rest ≡ c ++ x
    → length c ≤ length text
    → overwrite c text ≡ text
overwrite_front [] x text rest e h = refl
overwrite_front (b ∷ c) x [] rest e h = absurd (omega arith)
overwrite_front (b ∷ c) x (a ∷ text) rest e h =
    let tails : text ++ rest ≡ c ++ x = cc in
    let heads : a ≡ b = cc in
    let same : overwrite c text ≡ text = overwrite_front c x text rest tails (omega arith) in cc

module _ ⦃p : Platform⦄ (view : View p.net.Sock) (good : Reliable p.net view) (fuel : ℕ) where
  open view use {pending, written}

  -- However the four bytes of ACK_FAIL arrive, the status is ACK_FAIL.
  recv_status-refused :
      (rest : List ℕ) (w : W)
      → pending w.sock ≡ le_bytes 4 ack_fail ++ rest
      → (w' : W) × (recv_status fuel (minus 1) w ≡ Outcome.next (minus 1) w')
        × (written w'.sock ≡ written w.sock)
  unfolding recv_status after_status
  recv_status-refused rest w e =
      elim (good.receives 4 w.sock (omega arith) (
        omega (
          arith,
          ap length e,
          length-append (le_bytes 4 ack_fail) rest,
          length-le_bytes 4 ack_fail,
        ))) [
          | interrupted s' r q t n ↦ (record w { sock = s'; errno = p.net.eintr }, rw r refl, t)
          | arrives c s' r l m q t n ↦
              let front : overwrite c (le_bytes 4 ack_fail) ≡ le_bytes 4 ack_fail =
                overwrite_front c (pending s') (le_bytes 4 ack_fail) rest (sym e ∙ q)
                  (omega (arith, length-le_bytes 4 ack_fail)) in
              let status : int_after c (minus 1) ≡ minus 1 =
                ap of_le front ∙ of_le-le_bytes_int ack_fail (omega arith) in
              (
                record w { sock = s' },
                ap (after_status fuel (minus 1) w) r
                    ∙ ap (λ n. Outcome.next n (record w { sock = s' })) status,
                t,
              )
        ]

module _ ⦃p : Platform⦄ {Paired : p.sodium.Stream → p.sodium.Stream → Type 0}
    (sound : Sound p.sodium Paired) (view : View p.net.Sock) (good : Reliable p.net view)
    (fuel : ℕ) where
  open view use {pending, written}

  -- Over a reliable connection, for a name and a password that fit in a frame, where the server's
  -- answer is ACK_FAIL: the client has sent the two, each with its NUL, in frames that the holder of the
  -- key opens, and exits with -1, however the answer arrives and whether or not a signal interrupts
  -- the call of `recv`.
  pub send_credentials-refused :
      (tx username password nonce rest : List ℕ) (w : W)
      → length nonce ≡ aead_npubbytes
      → HasFrame username
      → HasFrame password
      → pending w.sock ≡ le_bytes 4 ack_fail ++ rest
      → (w' : W) × (bytes : List ℕ) × (send_credentials fuel tx username password nonce w
          ≡ Outcome.leave (minus 1) w')
        × Messages tx (with_nul username ∷ with_nul password ∷ []) bytes
        × (written w'.sock ≡ written w.sock ++ bytes)
  unfolding send_credentials
  send_credentials-refused tx username password nonce rest w l hu hp e =
      let s1 =
        wrap_and_send-Framed sound view good tx nonce (with_nul username) w l
          (omega (arith, length-append username (0 ∷ []))) in
      let s2 =
        wrap_and_send-Framed sound view good tx s1.nonce' (with_nul password) s1.after
          s1.nonce_length (omega (arith, length-append password (0 ∷ []))) in
      let v = Wrote-trans view s1.wrote s2.wrote in
      let (w3, e3, t) = recv_status-refused view good fuel rest s2.after (v.same_pending ∙ e) in
      (
        w3,
        s1.bytes ++ s2.bytes,
        bind-next _ s1.result (bind-next _ s2.result (bind-next _ e3 refl)),
        then s1.framed (then s2.framed done (sym (append-nil s2.bytes))) refl,
        t ∙ v.added,
      )
