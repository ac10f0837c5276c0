-- ===== src/Client/Program/Sessions.antt =====
-- The turns of a whole session.
use mefsc.Common.{
  ℕ, ◌+◌, ◌≤◌, ◌≡◌, refl, sym, ap, ◌∙◌, subst, List, [], ◌∷◌, ◌++◌, arith, length, All,
  append_assoc, append-nil, le_bytes, length-le_bytes,
}
use mefsc.Constants.{stream_chunk_size, aead_npubbytes, no_action}
use mefsc.Platform.{Platform, W}
use mefsc.Platform.Laws.{View, Reliable, Sound}
use mefsc.Outcome.{Outcome, bind-next}
use mefsc.Wire.Talk.{Spoken, Spoken-trans, Talked-Spoken, Sends-Talks}
use mefsc.Session.Frames.{wrap_and_send-Framed, sent_frame}
use mefsc.Store.{Request, Reply, IsFair}
use mefsc.Store.Wire.{AsksAll, CarriesAll}
use mefsc.Client.{CommsAgent, notify_server_of_action}
use mefsc.Client.Program.{Turn, StaleClient, turns_of, go_on, last_words}
use mefsc.Client.Program.Requests.{
  IsClient, SuitsAll, suits_last, suits_then, AreRequestsOf, are_last, are_then,
}
use mefsc.Client.Program.Replied.{turn-Turned}

module _ ⦃p : Platform⦄ {Paired : p.sodium.Stream → p.sodium.Stream → Type 0}
    (sound : Sound p.sodium Paired) (view : View p.net.Sock) (good : Reliable p.net view)
    (fuel rounds : ℕ) (stale : StaleClient) (ca : CommsAgent) (password : List ℕ) where
  open view use {pending, noise}

  -- What a session of the client was.
  pub record Asked (ts : List Turn) (rs : List Reply) (nonce : List ℕ) (w : W) (rest : List ℕ)
      (d' : p.storage.Disk) : Type 0 where
    pub after : W
    pub requests : List Request
    pub sent : List ℕ
    pub result : turns_of fuel rounds stale ca password ts nonce w ≡ Outcome.next 0 after
    pub asks : AsksAll ca.client_tx requests sent
    pub fair : All (IsFair rounds) requests
    pub right : AreRequestsOf rounds password w.disk ts rs d' requests
    pub spoken : Spoken view w sent rest after
    pub disk : after.disk ≡ d'

  -- Over a reliable connection, for a nonce of its length and arrays of at most the declared sizes, where
  -- the replies arrive that suit the turns: the session returns 0, has sent one after another, in good
  -- order and with the goodbye at the end, fair requests that the turns stand for, and its disk is the one
  -- that the turns leave.
  pub turns_of-Asked :
      (ts : List Turn) (rs : List Reply) {bytes : List ℕ} (nonce rest : List ℕ) (w : W)
      {d' : p.storage.Disk}
      → SuitsAll rounds password w.disk ts rs d'
      → CarriesAll ca.client_rx rs bytes
      → length nonce ≡ aead_npubbytes
      → IsClient stale
      → pending w.sock ≡ bytes ++ rest
      → stream_chunk_size + 16 + noise w.sock ≤ fuel
      → Asked ts rs nonce w rest d'
  unfolding turns_of go_on last_words notify_server_of_action
  turns_of-Asked [] rs nonce rest w ss cs l z e b = elim ss [ ]
  turns_of-Asked (t ∷ ts) [] nonce rest w ss cs l z e b = elim ss [ ]
  turns_of-Asked (t ∷ ts) (r ∷ rs) nonce rest w (suits_last s stop)
        (CarriesAll.then {f} {g} c CarriesAll.done shape) l z e b =
      let v =
        turn-Turned sound view good fuel rounds stale ca password w.disk t r nonce rest w s c refl l
          z (e ∙ ap (λ x. x ++ rest) (shape ∙ append-nil f)) b in
      let n =
        wrap_and_send-Framed sound view good ca.client_tx v.nonce' (le_bytes 4 no_action) v.after
          v.nonce_length (omega (arith, length-le_bytes 4 no_action)) in
      let (w2, e2, v2) = Sends-Talks view v.spoken.remaining (sent_frame sound view good n) in
      record {
        after = w2;
        requests = v.request ∷ [];
        sent = (v.notice ++ v.bytes) ++ n.bytes;
        result = bind-next _ v.result (
            ap
              (λ x.
                go_on fuel rounds stale ca password x
                  (turns_of fuel rounds stale ca password ts v.nonce') v.nonce' v.after)
              stop
            ∙ bind-next _ e2 refl);
        asks =
            AsksAll.then v.announced v.asks
              (AsksAll.goodbye {notice = no_action} (omega arith) (λ e. omega (arith, e)) n.framed)
              (append_assoc v.notice v.bytes n.bytes);
        fair = (v.fair, tt);
        right = are_last s v.right;
        spoken = Spoken-trans view v.spoken (Talked-Spoken view v2);
        disk = v2.same_disk ∙ v.disk;
      }
  turns_of-Asked (t ∷ ts) (r ∷ rs) nonce rest w {d' = d'} (suits_then s more ss)
        (CarriesAll.then {f} {g} c cs shape) l z e b =
      let v =
        turn-Turned sound view good fuel rounds stale ca password w.disk t r nonce (g ++ rest) w s c
          refl l z (e ∙ ap (λ x. x ++ rest) shape ∙ append_assoc f g rest) b in
      let u =
        turns_of-Asked ts rs v.nonce' rest v.after
          (subst (λ x. SuitsAll rounds password x ts rs d') (sym v.disk) ss) cs v.nonce_length z
          v.spoken.remaining (omega (arith, v.spoken.quieter)) in
      record {
        after = u.after;
        requests = v.request ∷ u.requests;
        sent = (v.notice ++ v.bytes) ++ u.sent;
        result = bind-next _ v.result (
            ap
              (λ x.
                go_on fuel rounds stale ca password x
                  (turns_of fuel rounds stale ca password ts v.nonce') v.nonce' v.after)
              more
            ∙ u.result);
        asks = AsksAll.then v.announced v.asks u.asks (append_assoc v.notice v.bytes u.sent);
        fair = (v.fair, u.fair);
        right =
            are_then s v.right
              (subst (λ x. AreRequestsOf rounds password x ts rs d' u.requests) v.disk u.right);
        spoken = Spoken-trans view v.spoken u.spoken;
        disk = u.disk;
      }
