-- ===== src/Wire/Blobs.antt =====
-- `send_raw_blob` and `recv_raw_blob` are inverse over a connection in good order.
use mefsc.Common.{
  ℕ, ◌+◌, ◌≤◌, ◌<◌, ◌^◌, ◌≡◌, refl, sym, ap, ◌∙◌, some, List, [], ◌∷◌, ◌++◌, arith, length,
  append_assoc, append-nil, le_bytes, length-le_bytes, of_le-le_bytes_u64, le→ltb, ==_refl,
}
use mefsc.Platform.{Platform, W}
use mefsc.Platform.Laws.{View, Reliable}
use mefsc.Outcome.{M, Outcome, bind}
use mefsc.Wire.{recv_raw_blob, recv_body, send_bytes, send_raw_blob, send_body, sent}
use mefsc.Wire.Receive.{Received-trans, Gives, recv_fully-receives}

-- The wire format: eight bytes for the length, then the bytes.
abbrev pub blob : List ℕ → List ℕ
blob bytes = le_bytes 8 (length bytes) ++ bytes

module _ ⦃p : Platform⦄ (view : View p.net.Sock) where
  open view use {pending, written, noise}

  -- Between two worlds these bytes were sent, and nothing else changed that a program can see.
  pub record Wrote (w : W) (bytes : List ℕ) (w' : W) : Type 0 where
    pub same_pending : pending w'.sock ≡ pending w.sock
    pub same_noise : noise w'.sock ≡ noise w.sock
    pub added : written w'.sock ≡ written w.sock ++ bytes
    pub same_disk : w'.disk ≡ w.disk
    pub same_rng : w'.rng ≡ w.rng

  pub Wrote-trans :
      {w w' w'' : W} {xs ys : List ℕ} → Wrote w xs w' → Wrote w' ys w'' → Wrote w (xs ++ ys) w''
  Wrote-trans {w} {xs = xs} {ys = ys} u v = record {
    same_pending = v.same_pending ∙ u.same_pending;
    same_noise = v.same_noise ∙ u.same_noise;
    added = v.added ∙ ap (λ t. t ++ ys) u.added ∙ append_assoc (written w.sock) xs ys;
    same_disk = v.same_disk ∙ u.same_disk;
    same_rng = v.same_rng ∙ u.same_rng;
  }

  pub Wrote-nil : (w : W) → Wrote w [] w
  Wrote-nil w = record {
    same_pending = refl;
    same_noise = refl;
    added = sym (append-nil (written w.sock));
    same_disk = refl;
    same_rng = refl;
  }

  -- What a call gives that sends `bytes`.
  abbrev pub Sends : {A : Type 0} → Outcome W A → A → W → List ℕ → Type 0
  Sends result a w bytes = (w' : W) × (result ≡ Outcome.next a w') × Wrote w bytes w'

  -- A step that sends something, and the rest of the block after it.
  pub Sends-bind :
      {A B : Type 0} (f : A → M W B) {m : Outcome W A} {a : A} {b : B} {w : W} {xs ys : List ℕ}
      → Sends m a w xs
      → ((w' : W) → Wrote w xs w' → Sends (f a w') b w' ys)
      → Sends (bind m f) b w (xs ++ ys)
  Sends-bind f (w1, e, v) k = let (w2, e', v') = k w1 v in (w2, rw e e', Wrote-trans v v')

  -- The same, where the rest of the block sends nothing.
  pub Sends-then :
      {A B : Type 0} (f : A → M W B) {m : Outcome W A} {a : A} {b : B} {w : W} {xs : List ℕ}
      → Sends m a w xs
      → ((w' : W) → f a w' ≡ Outcome.next b w')
      → Sends (bind m f) b w xs
  Sends-then f (w1, e, v) k = (w1, rw e (k w1), v)

  module _ (good : Reliable p.net view) where
    pub send_bytes-Sends :
        (bytes : List ℕ) (w : W) → Sends (send_bytes bytes w) (some (length bytes)) w bytes
    unfolding send_bytes sent
    send_bytes-Sends bytes w =
        let d = good.sends bytes w.sock in
        (
          record w { sock = d.after },
          rw d.result,
          record {
            same_pending = d.same_pending;
            same_noise = d.same_noise;
            added = d.adds;
            same_disk = refl;
            same_rng = refl;
          },
        )

    send_body-Sends : (bytes : List ℕ) (w : W) → Sends (send_body bytes w) 0 w bytes
    unfolding send_body
    send_body-Sends [] w = (w, refl, Wrote-nil w)
    send_body-Sends (b ∷ bs) w =
        let (w1, e1, v1) = send_bytes-Sends (b ∷ bs) w in
        (w1, rw (e1, ==_refl (length (b ∷ bs))) refl, v1)

    -- Over a reliable connection, it returns 0 and has sent the length and the bytes.
    pub send_raw_blob-Sends :
        (bytes : List ℕ) (w : W) → Sends (send_raw_blob bytes w) 0 w (blob bytes)
    unfolding send_raw_blob
    send_raw_blob-Sends bytes w =
        let (w1, e1, v1) = send_bytes-Sends (le_bytes 8 (length bytes)) w in
        let (w2, e2, v2) = send_body-Sends bytes w1 in
        (w2, rw (e1, length-le_bytes, e2) refl, Wrote-trans v1 v2)

    recv_body-receives :
        (fuel cap : ℕ) (c rest : List ℕ) (w : W)
        → length c ≤ cap
        → cap + noise w.sock ≤ fuel
        → pending w.sock ≡ c ++ rest
        → Gives view (recv_body fuel cap (length c) w) (some c) w rest
    unfolding recv_body
    recv_body-receives fuel cap c rest w h f e =
        rw (le→ltb cap (length c) h)
          (recv_fully-receives view good fuel (length c) c rest w refl e (omega arith))

    -- Over a reliable connection, a blob that fits the buffer is read back, and what follows is left.
    pub recv_raw_blob-receives :
        (fuel cap : ℕ) (c rest : List ℕ) (w : W)
        → length c ≤ cap
        → cap < 2 ^ 64
        → cap + 8 + noise w.sock ≤ fuel
        → pending w.sock ≡ blob c ++ rest
        → Gives view (recv_raw_blob fuel cap w) (some c) w rest
    unfolding recv_raw_blob
    recv_raw_blob-receives fuel cap c rest w h k f e =
        let (w1, e1, v1) =
          recv_fully-receives view good fuel 8 (le_bytes 8 (length c)) (c ++ rest) w
            (length-le_bytes 8 (length c)) (e ∙ append_assoc (le_bytes 8 (length c)) c rest)
            (omega arith) in
        let (w2, e2, v2) =
          recv_body-receives fuel cap c rest w1 h (omega (arith, v1.quieter)) v1.remaining in
        (w2, rw (e1, of_le-le_bytes_u64 (length c) (omega arith)) e2, Received-trans view v1 v2)
