-- ===== src/Keys/Agreement.antt =====
-- Two ends that run the key exchange with one another have the same keys.
use mefsc.Common.{ℕ, ◌+◌, ◌≤◌, ◌≡◌, refl, ◌∙◌, some, List, ◌++◌, arith, length}
use mefsc.Constants.{kx_publickeybytes}
use mefsc.Platform.{Platform, W}
use mefsc.Platform.Laws.{View, Reliable, KeyExchange}
use mefsc.Outcome.{Outcome, bind-next}
use mefsc.Wire.Receive.{recv_fully-receives}
use mefsc.Wire.Blobs.{send_bytes-Sends}
use mefsc.Wire.Talk.{Talks, Talked}
use mefsc.Keys.{swap_keys, new_keypair, server_crypt_gen, client_crypt_gen}

module _ ⦃p : Platform⦄ where
  -- The public key that an end is about to make.
  abbrev pub public_key : W → List ℕ
  public_key w = (p.sodium.kx_keypair w.rng).0.0

  module _ (view : View p.net.Sock) (good : Reliable p.net view) (fuel : ℕ) where
    open view use {pending, noise}

    swap_keys-Talks :
        (public peer rest : List ℕ) (w : W)
        → length peer ≡ kx_publickeybytes
        → pending w.sock ≡ peer ++ rest
        → kx_publickeybytes + noise w.sock ≤ fuel
        → (w' : W) × (swap_keys fuel public w ≡ Outcome.next peer w') × Talked view w public rest w'
    unfolding swap_keys
    swap_keys-Talks public peer rest w l e h =
        let (w1, e1, v1) = send_bytes-Sends view good public w in
        let (w2, e2, v2) =
          recv_fully-receives view good fuel kx_publickeybytes peer rest w1 l (v1.same_pending ∙ e)
            (omega (arith, v1.same_noise)) in
        (
          w2,
          bind-next _ e1 (bind-next _ e2 refl),
          record {
            remaining = v2.remaining;
            quieter = omega (arith, v1.same_noise, v2.quieter);
            added = v2.same_written ∙ v1.added;
            same_disk = v2.same_disk ∙ v1.same_disk;
          },
        )

    -- After its key pair is made, an end swaps keys from this world.
    keyed : W → W
    keyed w = record w { rng = (p.sodium.kx_keypair w.rng).1 }

    Talked-keyed :
        {w w' : W} {sent rest : List ℕ}
        → Talked view (keyed w) sent rest w'
        → Talked view w sent rest w'
    unfolding keyed
    Talked-keyed v = record {
      remaining = v.remaining;
      quieter = v.quieter;
      added = v.added;
      same_disk = v.same_disk;
    }

    -- One end alone: it sends its public key, takes in the peer's, and has the keys that the two give.
    pub server_crypt_gen-Talks :
        (peer rx tx rest : List ℕ) (w : W)
        → length peer ≡ kx_publickeybytes
        → p.sodium.kx_server_session_keys (public_key w) (p.sodium.kx_keypair w.rng).0.1 peer
          ≡ some (rx, tx)
        → pending w.sock ≡ peer ++ rest
        → kx_publickeybytes + noise w.sock ≤ fuel
        → Talks view (server_crypt_gen fuel w) (rx, tx) w (public_key w) rest
    unfolding server_crypt_gen new_keypair keyed
    server_crypt_gen-Talks peer rx tx rest w l k e h =
        let (w', e1, v) = swap_keys-Talks (public_key w) peer rest (keyed w) l e h in
        (w', bind-next _ e1 (rw k refl), Talked-keyed v)

    pub client_crypt_gen-Talks :
        (peer rx tx rest : List ℕ) (w : W)
        → length peer ≡ kx_publickeybytes
        → p.sodium.kx_client_session_keys (public_key w) (p.sodium.kx_keypair w.rng).0.1 peer
          ≡ some (rx, tx)
        → pending w.sock ≡ peer ++ rest
        → kx_publickeybytes + noise w.sock ≤ fuel
        → Talks view (client_crypt_gen fuel w) (rx, tx) w (public_key w) rest
    unfolding client_crypt_gen new_keypair keyed
    client_crypt_gen-Talks peer rx tx rest w l k e h =
        let (w', e1, v) = swap_keys-Talks (public_key w) peer rest (keyed w) l e h in
        (w', bind-next _ e1 (rw k refl), Talked-keyed v)

    -- Each end sends its public key and takes in the other's, over reliable connections: both go on, and
    -- each receives with the key that the other transmits with.
    pub server_crypt_gen-client_crypt_gen :
        (law : KeyExchange p.sodium) (ws wc : W) (rest rest' : List ℕ)
        → pending ws.sock ≡ public_key wc ++ rest
        → pending wc.sock ≡ public_key ws ++ rest'
        → kx_publickeybytes + noise ws.sock ≤ fuel
        → kx_publickeybytes + noise wc.sock ≤ fuel
        → (rx : List ℕ) × (tx : List ℕ) × Talks view
            (server_crypt_gen fuel ws)
            (rx, tx)
            ws
            (public_key ws)
            rest
          × Talks view (client_crypt_gen fuel wc) (tx, rx) wc (public_key wc) rest'
    server_crypt_gen-client_crypt_gen law ws wc rest rest' es ec hs hc =
        let (rx, tx, server, client) = law.agrees ws.rng wc.rng in
        (
          rx,
          tx,
          server_crypt_gen-Talks (public_key wc) rx tx rest ws (law.public_length wc.rng) server es
              hs,
          client_crypt_gen-Talks (public_key ws) tx rx rest' wc (law.public_length ws.rng) client ec
              hc,
        )
