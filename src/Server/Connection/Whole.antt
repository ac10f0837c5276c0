-- ===== src/Server/Connection/Whole.antt =====
-- A whole connection, from the key exchange to the goodbye.
use mefsc.Common.{
  ℕ, ◌+◌, ◌≤◌, ◌<◌, ◌≡◌, ◌≢◌, refl, sym, ap, subst, ◌∙◌, true, some, List, [], ◌∷◌, ◌++◌, arith,
  length, All, append_assoc, le_bytes,
}
use mefsc.Constants.{stream_chunk_size, kx_publickeybytes, ack_suc}
use mefsc.Platform.{Platform, W}
use mefsc.Platform.Laws.{View, Reliable, Sound}
use mefsc.Platform.Database.{Database, Table}
use mefsc.Outcome.{Outcome, bind-next, beside, attempted}
use mefsc.CText.{base_dir, slash, query}
use mefsc.Wire.Blobs.{send_bytes-Sends}
use mefsc.Wire.Talk.{Spoken, Spoken-trans, Talked-Spoken, Received-Spoken}
use mefsc.Keys.Agreement.{public_key, server_crypt_gen-Talks}
use mefsc.Session.Frames.{Framed}
use mefsc.Store.{Request, Reply, DoesAll, IsFair, IsSealed}
use mefsc.Store.Folder.{Folder, files}
use mefsc.Store.Wire.{AsksAll, CarriesAll}
use mefsc.Server.{Operator, Stale, fs_operator, random_bytes}
use mefsc.Server.Login.{StaleLogin}
use mefsc.Server.Login.Accepts.{accepts}
use mefsc.Server.Login.Verified.{verify_credentials-Framed}
use mefsc.Server.Upload.Announce.{Sized}
use mefsc.Server.Connection.{handle_conn, keyed, accepted, verified, Ending}
use mefsc.Server.Connection.Refines.{serve-Refines}

-- The directory of a user.
abbrev pub home : List ℕ → List ℕ
home name = base_dir ++ (name ++ slash)

module _ ⦃p : Platform⦄ {Paired : p.sodium.Stream → p.sodium.Stream → Type 0}
    (sound : Sound p.sodium Paired) (view : View p.net.Sock) (good : Reliable p.net view)
    (fuel rounds : ℕ) (stale : Stale) (sized : Sized stale) (db : Database) (table : Table db query)
    (stale_login : StaleLogin) (name : List ℕ) (folder : Folder p.storage (home name)) where
  open view use {pending, noise}
  open table use {users}
  open p.storage use {create_directories}
  open folder use {Holds}

  -- The disk with the user's directory made.
  abbrev pub housed : W → p.storage.Disk
  housed w = create_directories (home name) w.disk

  -- What a connection did.
  pub record Connected (actions : ℕ) (tx : List ℕ) (qs : List Request) (w : W) (d : db.Db)
      (rest : List ℕ) : Type 0 where
    pub after : W
    pub tables : db.Db
    pub replies : List Reply
    pub sent : List ℕ
    pub result :
        handle_conn fuel rounds stale db stale_login actions (w, d)
        ≡ Outcome.next Ending.finished (after, tables)
    pub does :
        DoesAll rounds
          (files p.storage (home name) (housed w))
          qs
          replies
          (files p.storage (home name) after.disk)
    pub carries : CarriesAll tx replies sent
    pub spoken : Spoken view w (public_key w ++ (le_bytes 4 ack_suc ++ sent)) rest after
    pub same_users : users tables ≡ users d

  -- From the accepted login on.
  record Admitted (actions : ℕ) (rx tx : List ℕ) (qs : List Request) (w : W) (d : db.Db)
      (rest : List ℕ) : Type 0 where
    pub after : W
    pub replies : List Reply
    pub sent : List ℕ
    pub result :
        accepted fuel rounds stale db stale_login actions name rx tx (w, d)
        ≡ Outcome.next Ending.finished (after, d)
    pub does :
        DoesAll rounds
          (files p.storage (home name) (housed w))
          qs
          replies
          (files p.storage (home name) after.disk)
    pub carries : CarriesAll tx replies sent
    pub spoken : Spoken view w (le_bytes 4 ack_suc ++ sent) rest after

  accepted-Admitted :
      (actions : ℕ) (rx tx : List ℕ) (qs : List Request) {bytes : List ℕ} (rest : List ℕ) (w : W)
      (d : db.Db)
      → AsksAll rx qs bytes
      → All (IsFair rounds) qs
      → Holds (housed w)
      → IsSealed rounds (files p.storage (home name) (housed w))
      → length qs < actions
      → pending w.sock ≡ bytes ++ rest
      → stream_chunk_size + 16 + noise w.sock ≤ fuel
      → Admitted actions rx tx qs w d rest
  unfolding accepted fs_operator random_bytes
  accepted-Admitted actions rx tx qs rest w d a fair h s l e b =
      let (w1, e1, v1) = send_bytes-Sends view good (le_bytes 4 ack_suc) w in
      let (nonce, rng) = p.sodium.randombytes_buf 8 w1.rng in
      let op : Operator = record {
        user_dir = home name;
        server_rx = rx;
        server_tx = tx;
        nonce = nonce;
      } in
      let w2 : W = record w1 { disk = housed w1; rng = rng } in
      let same : housed w1 ≡ housed w = ap (create_directories (home name)) v1.same_disk in
      let r =
        serve-Refines sound view good fuel rounds stale sized op folder actions qs rest w2 a fair
          (subst Holds (sym same) h)
          (subst (λ x. IsSealed rounds (files p.storage (home name) x)) (sym same) s) l
          (v1.same_pending ∙ e) (omega (arith, v1.same_noise)) in
      record {
        after = r.after;
        replies = r.replies;
        sent = r.sent;
        result =
            bind-next _ (ap (λ o. beside o d) e1)
              (bind-next _ (ap (λ o. beside o d) r.result) refl);
        does =
            subst
              (λ x.
                DoesAll rounds (files p.storage (home name) x) qs r.replies
                  (files p.storage (home name) r.after.disk))
              same r.does;
        carries = r.carries;
        spoken = record {
          remaining = r.spoken.remaining;
          quieter = omega (arith, v1.same_noise, r.spoken.quieter);
          added =
              r.spoken.added
              ∙ ap (λ t. t ++ r.sent) v1.added
              ∙ append_assoc (view.written w.sock) (le_bytes 4 ack_suc) r.sent;
        };
      }

  -- One connection refines the store. Over a reliable connection, a client sends its public key, of the
  -- documented length, from which the session keys are made; its name, with no NUL, and its password, each
  -- with a NUL behind it, and the user is in the table and the password fits; and then fair requests in good
  -- order and any other notice. The user's directory, once made, is a folder of sealed files, and there
  -- are actions for the requests. Then the function runs to its end; what was sent is the public key, the
  -- acceptance and the replies; the requests have done one after another to the user's folder what the
  -- store may do, with those replies; and the table of users is as it was.
  pub handle_conn-Refines :
      (actions : ℕ) (client_pk rx tx password rest : List ℕ) (qs : List Request)
      {f g bytes : List ℕ} (w : W) (d : db.Db)
      → length client_pk ≡ kx_publickeybytes
      → p.sodium.kx_server_session_keys (public_key w) (p.sodium.kx_keypair w.rng).0.1 client_pk
        ≡ some (rx, tx)
      → All (λ b. b ≢ 0) name
      → Framed rx (name ++ (0 ∷ [])) f
      → Framed rx (password ++ (0 ∷ [])) g
      → accepts db table (users d name) (password ++ (0 ∷ [])) ≡ true
      → AsksAll rx qs bytes
      → All (IsFair rounds) qs
      → Holds (housed w)
      → IsSealed rounds (files p.storage (home name) (housed w))
      → length qs < actions
      → pending w.sock ≡ client_pk ++ (f ++ (g ++ (bytes ++ rest)))
      → stream_chunk_size + 16 + noise w.sock ≤ fuel
      → Connected actions tx qs w d rest
  unfolding handle_conn keyed verified
  handle_conn-Refines actions client_pk rx tx password rest qs {f} {g} {bytes} w d l k n u v fits a
        fair h s m e b =
      let (w1, e1, v1) =
        server_crypt_gen-Talks view good fuel client_pk rx tx (f ++ (g ++ (bytes ++ rest))) w l k e
          (omega arith) in
      let (w2, d2, e2, v2, same_users) =
        verify_credentials-Framed view good db table fuel stale_login rx name password u v
          (bytes ++ rest) w1 d n v1.remaining (omega (arith, v1.quieter)) in
      let same : housed w2 ≡ housed w =
        ap (create_directories (home name)) (v2.same_disk ∙ v1.same_disk) in
      let r =
        accepted-Admitted actions rx tx qs rest w2 d2 a fair (subst Holds (sym same) h)
          (subst (λ x. IsSealed rounds (files p.storage (home name) x)) (sym same) s) m v2.remaining
          (omega (arith, v1.quieter, v2.quieter)) in
      record {
        after = r.after;
        tables = d2;
        replies = r.replies;
        sent = r.sent;
        result =
            bind-next _ (ap (λ o. beside (attempted o) d) e1) (bind-next _ e2 (rw fits r.result));
        does =
            subst
              (λ x.
                DoesAll rounds (files p.storage (home name) x) qs r.replies
                  (files p.storage (home name) r.after.disk))
              same r.does;
        carries = r.carries;
        spoken =
            Spoken-trans view (Talked-Spoken view v1)
              (Spoken-trans view (Received-Spoken view v2) r.spoken);
        same_users = same_users;
      }
