-- ===== src/Client/Program/Turns.antt =====
-- A turn of the client, step by step.
use mefsc.Common.{
  ℕ, ◌≡◌, refl, ap, ◌∙◌, subst, true, false, List, ◌++◌, arith, length, append_assoc, le_bytes,
  length-le_bytes, ◌==◌,
}
use mefsc.Constants.{aead_npubbytes, pwhash_saltbytes, new_action, confusion}
use mefsc.Platform.{Platform, W}
use mefsc.Platform.Laws.{View, Reliable, Sound}
use mefsc.Outcome.{Outcome, bind, bind-next, ◌>>◌, pure}
use mefsc.Wire.Talk.{Spoken, Spoken-trans, Talked, Talked-Spoken}
use mefsc.Session.Frames.{wrap_and_send-Framed}
use mefsc.Store.{Request, IsFair}
use mefsc.Store.Wire.{IsInt, Asks}
use mefsc.Server.{random_bytes}
use mefsc.Client.{CommsAgent, SenderAgent, notify_server_of_action, send_intention}
use mefsc.Client.Upload.{new_sender, set_crypto, or_old}
use mefsc.Client.Program.{Turn, StaleClient, turn, perform, handle, is_intention}
use mefsc.Client.Program.Requests.{IsRequestOf}

module _ ⦃p : Platform⦄ {Paired : p.sodium.Stream → p.sodium.Stream → Type 0}
    (sound : Sound p.sodium Paired) (view : View p.net.Sock) (good : Reliable p.net view)
    (fuel rounds : ℕ) (stale : StaleClient) (ca : CommsAgent) (password : List ℕ) where
  open view use {pending, written, noise}
  open p.sodium use {randombytes_buf}

  -- A turn up to the handler of its intention: the notice and the intention are sent.
  pub record Begun (t : Turn) (nonce : List ℕ) (w : W) : Type 0 where
    pub after : W
    pub nonce' : List ℕ
    pub notice : List ℕ
    pub intent : List ℕ
    pub agent : SenderAgent
    pub ra_nonce : List ℕ
    pub result :
        turn fuel rounds stale ca password t nonce w
        ≡ (handle fuel rounds stale ca password t agent ra_nonce >> pure nonce') after
    pub announced : IsInt ca.client_tx new_action notice
    pub intends : IsInt ca.client_tx t.intention intent
    pub talked : Talked view w (notice ++ intent) (pending w.sock) after
    pub agent_length : length agent.nonce ≡ aead_npubbytes
    pub ra_length : length ra_nonce ≡ aead_npubbytes
    pub nonce_length : length nonce' ≡ aead_npubbytes

  perform_sends :
      (t : Turn) (agent : SenderAgent) (ra_nonce nonce : List ℕ) (w : W)
      → is_intention fuel rounds stale ca password t.intention ≡ true
      → perform fuel rounds stale ca password t agent ra_nonce nonce w
        ≡ bind
            (send_intention ca t.intention nonce w)
            (λ nonce'. handle fuel rounds stale ca password t agent ra_nonce >> pure nonce')
  unfolding perform
  perform_sends t agent ra_nonce nonce w i = rw (i, perform) refl

  pub turn-Begun :
      (t : Turn) (nonce : List ℕ) (w : W)
      → length nonce ≡ aead_npubbytes
      → (t.intention == confusion) ≡ false
      → is_intention fuel rounds stale ca password t.intention ≡ true
      → Begun t nonce w
  unfolding turn notify_server_of_action send_intention new_sender set_crypto random_bytes
  turn-Begun t nonce w l c i =
      let s1 =
        wrap_and_send-Framed sound view good ca.client_tx nonce (le_bytes 4 new_action) w l
          (omega (arith, length-le_bytes 4 new_action)) in
      let w1 : W = s1.after in
      let (fresh, r1) = randombytes_buf 8 w1.rng in
      let (salt, r2) = randombytes_buf pwhash_saltbytes r1 in
      let (ra, r3) = randombytes_buf 8 r2 in
      let w2 : W = record w1 { rng = r3 } in
      let s2 =
        wrap_and_send-Framed sound view good ca.client_tx s1.nonce' (le_bytes 4 t.intention) w2
          s1.nonce_length (omega (arith, length-le_bytes 4 t.intention)) in
      let agent : SenderAgent = record {
        nonce = fresh;
        key = or_old (p.sodium.pwhash password salt) stale.key;
        salt = salt;
      } in
      record {
        after = s2.after;
        nonce' = s2.nonce';
        notice = s1.bytes;
        intent = s2.bytes;
        agent = agent;
        ra_nonce = ra;
        result =
            bind-next _ s1.result
              (rw c (perform_sends t agent ra s1.nonce' w2 i ∙ bind-next _ s2.result refl));
        announced = s1.framed;
        intends = s2.framed;
        talked = record {
          remaining = s2.wrote.same_pending ∙ s1.wrote.same_pending;
          quieter = omega (arith, s1.wrote.same_noise, s2.wrote.same_noise);
          added =
              s2.wrote.added
              ∙ ap (λ x. x ++ s2.bytes) s1.wrote.added
              ∙ append_assoc (written w.sock) s1.bytes s2.bytes;
          same_disk = s2.wrote.same_disk ∙ s1.wrote.same_disk;
        };
        agent_length = sound.random_length 8 w1.rng;
        ra_length = sound.random_length 8 r2;
        nonce_length = s2.nonce_length;
      }

  -- The handler of a turn.
  pub record Handled (t : Turn) (agent : SenderAgent) (ra_nonce : List ℕ) (w : W)
      (sent rest : List ℕ) (d : p.storage.Disk) : Type 0 where
    pub after : W
    pub result : handle fuel rounds stale ca password t agent ra_nonce w ≡ Outcome.next tt after
    pub spoken : Spoken view w sent rest after
    pub disk : after.disk ≡ d

  -- A whole turn: a request in good order and a fair one, which the turn stands for.
  pub record Turned (d : p.storage.Disk) (t : Turn) (nonce : List ℕ) (w : W) (rest : List ℕ)
      (d' : p.storage.Disk) : Type 0 where
    pub after : W
    pub nonce' : List ℕ
    pub request : Request
    pub notice : List ℕ
    pub bytes : List ℕ
    pub result : turn fuel rounds stale ca password t nonce w ≡ Outcome.next nonce' after
    pub announced : IsInt ca.client_tx new_action notice
    pub asks : Asks ca.client_tx request bytes
    pub right : IsRequestOf rounds password d t request
    pub fair : IsFair rounds request
    pub spoken : Spoken view w (notice ++ bytes) rest after
    pub disk : after.disk ≡ d'
    pub nonce_length : length nonce' ≡ aead_npubbytes

  pub Handled-Turned :
      {d d' : p.storage.Disk} {t : Turn} {nonce : List ℕ} {w : W} {sent rest : List ℕ} (q : Request)
      (b : Begun t nonce w)
      → Handled t b.agent b.ra_nonce b.after sent rest d'
      → Asks ca.client_tx q (b.intent ++ sent)
      → IsRequestOf rounds password d t q
      → IsFair rounds q
      → Turned d t nonce w rest d'
  Handled-Turned {w = w} {sent} {rest} q b h a r f = record {
    after = h.after;
    nonce' = b.nonce';
    request = q;
    notice = b.notice;
    bytes = b.intent ++ sent;
    result = b.result ∙ bind-next _ h.result refl;
    announced = b.announced;
    asks = a;
    right = r;
    fair = f;
    spoken =
        subst (λ x. Spoken view w x rest h.after) (append_assoc b.notice b.intent sent)
          (Spoken-trans view (Talked-Spoken view b.talked) h.spoken);
    disk = h.disk;
    nonce_length = b.nonce_length;
  }
