-- ===== src/Session/Examples.antt =====
-- Messages under the session's keys on the connection in memory.
use mefsc.Common.{ℕ, ◌≡◌, refl, List, [], ◌∷◌, ◌++◌, arith}
use mefsc.Platform.Toy.{toy, view, reliable, sound, world}
use mefsc.Wire.Receive.{Gives}
use mefsc.Session.{read_wrapper, unwrap}
use mefsc.Session.Toy.{key, nonce, text_of, frame_of, framed}
use mefsc.Session.Frames.{
  arrived, Framed, SentFramed, read_wrapper-Framed, unwrap-Framed, wrap_and_send-Framed,
}

abbrev message : List ℕ
message = 10 ∷ 11 ∷ []

abbrev framed_message : Framed key message (frame_of message)
framed_message = framed message (omega arith)

wrap_and_send-Framed_example : SentFramed sound view reliable key nonce message (world [] 0)
wrap_and_send-Framed_example =
    wrap_and_send-Framed sound view reliable key nonce message (world [] 0) refl (omega arith)

read_wrapper-Framed_example :
    Gives view
      (read_wrapper 70000 (world (frame_of message ++ (9 ∷ [])) 3))
      (arrived nonce (text_of message))
      (world (frame_of message ++ (9 ∷ [])) 3)
      (9 ∷ [])
read_wrapper-Framed_example =
    read_wrapper-Framed view reliable 70000 framed_message (9 ∷ [])
      (world (frame_of message ++ (9 ∷ [])) 3) refl (omega arith)

unwrap-Framed_example :
    unwrap key 4 (arrived nonce (text_of message))
    ≡ record { status = 0; wrapper = arrived nonce (text_of message); decrypted_data = message }
unwrap-Framed_example =
    unwrap-Framed view reliable key message (frame_of message) 4 framed_message (omega arith)
