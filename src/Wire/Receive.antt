-- ===== src/Wire/Receive.antt =====
-- `recv_fully` over a connection in good order: it returns, with exactly the next bytes.
use mefsc.Common.{
  ℕ, zero, suc, ◌+◌, ◌≤◌, ◌<◌, ◌≡◌, refl, sym, ap, ◌∙◌, ◌-◌, Option, some, List, [], ◌∷◌, ◌++◌,
  arith, length, append_assoc, append-nil, cut_longer, length-append,
}
use mefsc.Platform.{Platform, W, got, recv_error}
use mefsc.Platform.Laws.{View, Reliable, interrupted, arrives}
use mefsc.Outcome.{M, Outcome, bind}
use mefsc.Wire.{recv_loop, after_recv, recv_fully}

module _ ⦃p : Platform⦄ where
  recv_loop_done :
      (fuel : ℕ) (acc : List ℕ) (w : W) → recv_loop fuel 0 acc w ≡ Outcome.next (some acc) w
  unfolding recv_loop
  recv_loop_done zero acc w = refl
  recv_loop_done (suc fuel) acc w = refl

  pub recv_loop_step :
      (fuel n : ℕ) (acc : List ℕ) (w : W)
      → recv_loop (suc fuel) (suc n) acc w
        ≡ after_recv (recv_loop fuel) (suc n) acc w (p.net.recv (suc n) w.sock)
  unfolding recv_loop
  recv_loop_step fuel n acc w = refl

module _ ⦃p : Platform⦄ (view : View p.net.Sock) where
  open view use {pending, written, noise}

  -- Between two worlds some bytes were received, and `rest` are still to come.
  pub record Received (w : W) (rest : List ℕ) (w' : W) : Type 0 where
    pub remaining : pending w'.sock ≡ rest
    pub quieter : noise w'.sock ≤ noise w.sock
    pub same_written : written w'.sock ≡ written w.sock
    pub same_disk : w'.disk ≡ w.disk
    pub same_rng : w'.rng ≡ w.rng

  after_recv-interrupted :
      (again : ℕ → List ℕ → M W (Option (List ℕ))) (n : ℕ) (acc : List ℕ) (w : W) (s : p.net.Sock)
      → after_recv again n acc w (recv_error p.net.eintr, s)
        ≡ again n acc (record w { sock = s; errno = p.net.eintr })
  unfolding after_recv
  after_recv-interrupted again n acc w s = ground arith

  after_recv-arrives :
      (again : ℕ → List ℕ → M W (Option (List ℕ))) (n : ℕ) (acc c : List ℕ) (w : W) (s : p.net.Sock)
      → 0 < length c
      → after_recv again n acc w (got c, s)
        ≡ again (n - length c) (acc ++ c) (record w { sock = s })
  unfolding after_recv
  after_recv-arrives again n acc [] w s h = absurd (omega arith)
  after_recv-arrives again n acc (b ∷ bs) w s h = refl

  Received-later :
      {w w' : W} {rest : List ℕ} {s : p.net.Sock} {e : ℕ}
      → noise s ≤ noise w.sock
      → written s ≡ written w.sock
      → Received (record w { sock = s; errno = e }) rest w'
      → Received w rest w'
  Received-later h g v = record {
    remaining = v.remaining;
    quieter = omega (arith, v.quieter);
    same_written = v.same_written ∙ g;
    same_disk = v.same_disk;
    same_rng = v.same_rng;
  }

  -- One read after another.
  pub Received-trans :
      {w w' w'' : W} {rest rest' : List ℕ}
      → Received w rest w'
      → Received w' rest' w''
      → Received w rest' w''
  Received-trans u v = record {
    remaining = v.remaining;
    quieter = omega (arith, u.quieter, v.quieter);
    same_written = v.same_written ∙ u.same_written;
    same_disk = v.same_disk ∙ u.same_disk;
    same_rng = v.same_rng ∙ u.same_rng;
  }

  -- What a call gives when `front` comes first of what the peer sent.
  abbrev pub Gives : {A : Type 0} → Outcome W A → A → W → List ℕ → Type 0
  Gives result a w rest = (w' : W) × (result ≡ Outcome.next a w') × Received w rest w'

  pub Received-refl : {w : W} {rest : List ℕ} → pending w.sock ≡ rest → Received w rest w
  Received-refl e = record {
    remaining = e;
    quieter = omega arith;
    same_written = refl;
    same_disk = refl;
    same_rng = refl;
  }

  -- A step that receives something, and the rest of the block after it.
  pub Gives-bind :
      {A B : Type 0} (f : A → M W B) {m : Outcome W A} {a : A} {b : B} {w : W} {mid rest : List ℕ}
      → Gives m a w mid
      → ((w' : W) → Received w mid w' → Gives (f a w') b w' rest)
      → Gives (bind m f) b w rest
  Gives-bind f (w1, e, v) k = let (w2, e', v') = k w1 v in (w2, rw e e', Received-trans v v')

  module _ (good : Reliable p.net view) where
    recv_loop-receives :
        (fuel n : ℕ) (acc front rest : List ℕ) (w : W)
        → length front ≡ n
        → pending w.sock ≡ front ++ rest
        → n + noise w.sock ≤ fuel
        → Gives (recv_loop fuel n acc w) (some (acc ++ front)) w rest
    recv_loop-receives fuel zero acc [] rest w l e h =
        (w, rw append-nil (recv_loop_done fuel acc w), Received-refl e)
    recv_loop-receives fuel zero acc (b ∷ bs) rest w l e h = absurd (omega arith)
    recv_loop-receives zero (suc n) acc front rest w l e h = absurd (omega arith)
    recv_loop-receives (suc fuel) (suc n) acc front rest w l e h =
        elim (good.receives (suc n) w.sock (omega arith)
          (omega (arith, ap length e, length-append front rest))) [
            | interrupted s' r a b c ↦
                let (w', done, v) =
                  recv_loop-receives fuel (suc n) acc front rest
                    (record w { sock = s'; errno = p.net.eintr }) l (a ∙ e) (omega arith) in
                (
                  w',
                  recv_loop_step fuel n acc w
                      ∙ rw r (after_recv-interrupted (recv_loop fuel) (suc n) acc w s')
                      ∙ done,
                  Received-later (omega arith) b v,
                )
            | arrives c s' r a b d g k ↦
                let (front', f, rest') =
                  cut_longer c (pending s') front rest (sym d ∙ e) (omega arith) in
                let (w', done, v) =
                  recv_loop-receives fuel (suc n - length c) (acc ++ c) front' rest
                    (record w { sock = s' }) (omega (arith, ap length f, length-append c front'))
                    rest' (omega arith) in
                (
                  w',
                  recv_loop_step fuel n acc w
                      ∙ rw r (after_recv-arrives (recv_loop fuel) (suc n) acc c w s' a)
                      ∙ done
                      ∙ ap (λ t. Outcome.next (some t) w')
                          (append_assoc acc c front' ∙ ap (◌++◌ acc) (sym f)),
                  Received-later k g v,
                )
          ]

    -- Over a reliable connection, once the peer has sent n bytes and with fuel for n calls and the
    -- signals still to come, it answers exactly these bytes and leaves what follows.
    pub recv_fully-receives :
        (fuel n : ℕ) (front rest : List ℕ) (w : W)
        → length front ≡ n
        → pending w.sock ≡ front ++ rest
        → n + noise w.sock ≤ fuel
        → Gives (recv_fully fuel n w) (some front) w rest
    unfolding recv_fully
    recv_fully-receives fuel n front rest w l e h = recv_loop-receives fuel n [] front rest w l e h
