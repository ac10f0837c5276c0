-- ===== src/Session/Parts.antt =====
-- The methods of `SessionEncWrapper` that send a message piece by piece, `send_data_length`, `send_nonce`
-- and `send_data`, which nothing calls, against `send_all`.
use mefsc.Common.{ℕ, ◌≡◌, false, Option, none, some, List, ◌++◌, length, le_bytes}
use mefsc.Platform.{Platform, W}
use mefsc.Platform.Laws.{View, Reliable}
use mefsc.Outcome.{M, pure, ◌>>=◌}
use mefsc.Wire.{send_bytes}
use mefsc.Wire.Blobs.{Sends, Sends-bind, send_bytes-Sends}
use mefsc.Session.{Wrapper, WrapType, reader, sender, send_all, send_typed, send_frame}

module _ ⦃p : Platform⦄ where
  -- `if (this->enc_wrap_type != SENDER) return -1;` and then a piece. `none` is -1.
  abbrev if_sender : WrapType → M W (Option ℕ) → M W (Option ℕ)
  if_sender reader m = pure none
  if_sender sender m = m

  pub send_data : Wrapper → M W (Option ℕ)
  send_data w = if_sender w.enc_wrap_type (send_bytes w.session_encrypted_data)

  pub send_nonce : Wrapper → M W (Option ℕ)
  send_nonce w = if_sender w.enc_wrap_type (send_bytes w.nonce)

  pub send_data_length : Wrapper → M W (Option ℕ)
  send_data_length w =
      if_sender w.enc_wrap_type (send_bytes (le_bytes 8 w.session_encrypted_data_length))

  -- One after another.
  abbrev pub send_parts : Wrapper → M W (Option ℕ)
  send_parts x = do a ← send_data_length x; b ← send_nonce x; send_data x

  -- What `send_all` puts together.
  abbrev pub message_of : Wrapper → List ℕ
  message_of x = le_bytes 8 x.session_encrypted_data_length ++ (x.nonce ++ x.session_encrypted_data)

  module _ (view : View p.net.Sock) (good : Reliable p.net view) where
    -- Over a reliable connection, for a writer's wrapper whose encryption succeeded: `send_all` puts the same
    -- bytes on the wire as the length, the nonce and the data one after another.
    pub send_all-send_parts :
        (x : Wrapper) (w : W)
        → x.enc_wrap_type ≡ sender
        → x.corrupted ≡ false
        → Sends view (send_all x w) (some (length (message_of x))) w (message_of x)
          × Sends view (send_parts x w) (some (length x.session_encrypted_data)) w (message_of x)
    unfolding send_all send_typed send_frame send_data send_nonce send_data_length
    send_all-send_parts x w t c = (
      rw (t, c) (send_bytes-Sends view good (message_of x) w),
      rw t (
          Sends-bind view _
            (send_bytes-Sends view good (le_bytes 8 x.session_encrypted_data_length) w)
            λ w1 v1.
              Sends-bind view _ (send_bytes-Sends view good x.nonce w1)
                λ w2 v2. send_bytes-Sends view good x.session_encrypted_data w2),
    )
