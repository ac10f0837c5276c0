-- ===== src/Client/Program/Whole.antt =====
-- The client from its connection on: the keys, the login and the session.
use mefsc.Common.{
  ℕ, ◌+◌, ◌≤◌, ◌≡◌, refl, sym, ap, ◌∙◌, subst, some, List, [], ◌∷◌, ◌++◌, arith, length, All,
  length-append, append_assoc, append-nil, le_bytes, length-le_bytes,
}
use mefsc.Constants.{minus, ack_suc, stream_chunk_size, aead_npubbytes, kx_publickeybytes}
use mefsc.Platform.{Platform, W}
use mefsc.Platform.Laws.{View, Reliable, Sound, Prompt}
use mefsc.Outcome.{Outcome, bind-next, returned, with_code}
use mefsc.Wire.Talk.{Spoken, Spoken-trans, Talked, Talked-Spoken}
use mefsc.Wire.Blobs.{Wrote-trans}
use mefsc.Session.Frames.{Framed, wrap_and_send-Framed}
use mefsc.Transfer.Messages.{with_nul, HasFrame}
use mefsc.Keys.Agreement.{public_key, client_crypt_gen-Talks}
use mefsc.Store.{Request, Reply, IsFair}
use mefsc.Store.Wire.{AsksAll, CarriesAll}
use mefsc.Server.{int_after-le_bytes, random_bytes}
use mefsc.Client.{CommsAgent}
use mefsc.Client.Program.{
  Turn, StaleClient, after_status, recv_status, send_credentials, authed_comms, client,
}
use mefsc.Client.Program.Requests.{SuitsAll, AreRequestsOf, IsClient}
use mefsc.Client.Program.Sessions.{turns_of-Asked}

module _ ⦃p : Platform⦄ {Paired : p.sodium.Stream → p.sodium.Stream → Type 0}
    (sound : Sound p.sodium Paired) (view : View p.net.Sock) (good : Reliable p.net view)
    (quick : Prompt p.net view) (fuel : ℕ) where
  open view use {pending, written, noise}

  -- The two frames of a login that is accepted.
  pub record LoggedIn (tx username password nonce : List ℕ) (w : W) (rest : List ℕ) : Type 0 where
    pub after : W
    pub nonce' : List ℕ
    pub name_frame : List ℕ
    pub password_frame : List ℕ
    pub result : send_credentials fuel tx username password nonce w ≡ Outcome.next nonce' after
    pub name_framed : Framed tx (with_nul username) name_frame
    pub password_framed : Framed tx (with_nul password) password_frame
    pub talked : Talked view w (name_frame ++ password_frame) rest after
    pub nonce_length : length nonce' ≡ aead_npubbytes

  -- The acceptance arrives whole where `recv` delivers it at once.
  recv_status-accepted :
      (rest : List ℕ) (w : W)
      → noise w.sock ≡ 0
      → pending w.sock ≡ le_bytes 4 ack_suc ++ rest
      → (w' : W) × (recv_status fuel (minus 1) w ≡ Outcome.next ack_suc w')
        × Talked view w [] rest w'
  unfolding recv_status after_status
  recv_status-accepted rest w z e =
      let (s', r, q, t, n) =
        quick.delivers 4 (le_bytes 4 ack_suc) rest w.sock (length-le_bytes 4 ack_suc) e z in
      (
        record w { sock = s' },
        ap (after_status fuel (minus 1) w) r
            ∙ ap (λ n. Outcome.next n (record w { sock = s' }))
                (int_after-le_bytes ack_suc (minus 1) (omega arith)),
        record {
          remaining = q;
          quieter = omega (arith, n, z);
          added = t ∙ sym (append-nil (written w.sock));
          same_disk = refl;
        },
      )

  send_credentials-LoggedIn :
      (tx username password nonce rest : List ℕ) (w : W)
      → length nonce ≡ aead_npubbytes
      → HasFrame username
      → HasFrame password
      → noise w.sock ≡ 0
      → pending w.sock ≡ le_bytes 4 ack_suc ++ rest
      → LoggedIn tx username password nonce w rest
  unfolding send_credentials
  send_credentials-LoggedIn tx username password nonce rest w l hu hp z e =
      let s1 =
        wrap_and_send-Framed sound view good tx nonce (with_nul username) w l
          (omega (arith, length-append username (0 ∷ []))) in
      let s2 =
        wrap_and_send-Framed sound view good tx s1.nonce' (with_nul password) s1.after
          s1.nonce_length (omega (arith, length-append password (0 ∷ []))) in
      let v = Wrote-trans view s1.wrote s2.wrote in
      let (w3, e3, t) =
        recv_status-accepted rest s2.after (v.same_noise ∙ z) (v.same_pending ∙ e) in
      record {
        after = w3;
        nonce' = s2.nonce';
        name_frame = s1.bytes;
        password_frame = s2.bytes;
        result = bind-next _ s1.result (bind-next _ s2.result (bind-next _ e3 refl));
        name_framed = s1.framed;
        password_framed = s2.framed;
        talked = record {
          remaining = t.remaining;
          quieter = omega (arith, v.same_noise, t.quieter);
          added = t.added ∙ append-nil (written s2.after.sock) ∙ v.added;
          same_disk = t.same_disk ∙ v.same_disk;
        };
        nonce_length = s2.nonce_length;
      }

  -- What the whole client did.
  pub record Ran (rounds : ℕ) (stale : StaleClient) (tx username password : List ℕ) (ts : List Turn)
      (rs : List Reply) (w : W) (rest : List ℕ) (d' : p.storage.Disk) : Type 0 where
    pub after : W
    pub requests : List Request
    pub name_frame : List ℕ
    pub password_frame : List ℕ
    pub sent : List ℕ
    pub result : client fuel rounds stale username password ts w ≡ Outcome.next 0 after
    pub name_framed : Framed tx (with_nul username) name_frame
    pub password_framed : Framed tx (with_nul password) password_frame
    pub asks : AsksAll tx requests sent
    pub fair : All (IsFair rounds) requests
    pub right : AreRequestsOf rounds password w.disk ts rs d' requests
    pub spoken : Spoken view w (public_key w ++ ((name_frame ++ password_frame) ++ sent)) rest after
    pub disk : after.disk ≡ d'

  -- Over a reliable connection where no signal is to come, for a name and a password that fit in frames: the
  -- client takes in the server's public key, of the documented length, from which the session keys are
  -- made, the acceptance, and replies that suit the user's turns; its arrays have at most the declared
  -- sizes. Then it returns 0; it has sent its public key, the name and the password, each with its NUL in a
  -- frame, and fair requests that the turns stand for, in good order; and its disk is the one that the
  -- turns leave.
  pub client-Ran :
      (rounds : ℕ) (stale : StaleClient) (server_pk rx tx username password rest : List ℕ)
      (ts : List Turn) (rs : List Reply) {down : List ℕ} (w : W) {d' : p.storage.Disk}
      → length server_pk ≡ kx_publickeybytes
      → p.sodium.kx_client_session_keys (public_key w) (p.sodium.kx_keypair w.rng).0.1 server_pk
        ≡ some (rx, tx)
      → HasFrame username
      → HasFrame password
      → SuitsAll rounds password w.disk ts rs d'
      → CarriesAll rx rs down
      → IsClient stale
      → noise w.sock ≡ 0
      → pending w.sock ≡ server_pk ++ (le_bytes 4 ack_suc ++ (down ++ rest))
      → stream_chunk_size + 16 ≤ fuel
      → Ran rounds stale tx username password ts rs w rest d'
  unfolding client random_bytes authed_comms
  client-Ran rounds stale server_pk rx tx username password rest ts rs {down} w {d'} l k hu hp ss cs
        c z e b =
      let (w1, e1, v1) =
        client_crypt_gen-Talks view good fuel server_pk rx tx (le_bytes 4 ack_suc ++ (down ++ rest))
          w l k e (omega (arith, z)) in
      let (nonce, rng) = p.sodium.randombytes_buf 8 w1.rng in
      let w2 : W = record w1 { rng = rng } in
      let login =
        send_credentials-LoggedIn tx username password nonce (down ++ rest) w2
          (sound.random_length 8 w1.rng) hu hp (omega (arith, v1.quieter, z)) v1.remaining in
      let ca : CommsAgent = record { client_tx = tx; client_rx = rx } in
      let same : login.after.disk ≡ w.disk = login.talked.same_disk ∙ v1.same_disk in
      let a =
        turns_of-Asked sound view good fuel rounds stale ca password ts rs login.nonce' rest
          login.after (subst (λ x. SuitsAll rounds password x ts rs d') (sym same) ss) cs
          login.nonce_length c login.talked.remaining
          (omega (arith, login.talked.quieter, v1.quieter, z)) in
      let v : Spoken view w2 ((login.name_frame ++ login.password_frame) ++ a.sent) rest a.after =
        Spoken-trans view (Talked-Spoken view login.talked) a.spoken in
      record {
        after = a.after;
        requests = a.requests;
        name_frame = login.name_frame;
        password_frame = login.password_frame;
        sent = a.sent;
        result = ap returned (
            bind-next _ (ap (with_code 1) e1)
              (bind-next _ login.result (bind-next _ (ap returned a.result) refl)));
        name_framed = login.name_framed;
        password_framed = login.password_framed;
        asks = a.asks;
        fair = a.fair;
        right = subst (λ x. AreRequestsOf rounds password x ts rs d' a.requests) same a.right;
        spoken = record {
          remaining = v.remaining;
          quieter = omega (arith, v.quieter, v1.quieter);
          added =
              v.added
              ∙ ap (λ x. x ++ ((login.name_frame ++ login.password_frame) ++ a.sent)) v1.added
              ∙ append_assoc (written w.sock) (public_key w)
                  ((login.name_frame ++ login.password_frame) ++ a.sent);
        };
        disk = a.disk;
      }
