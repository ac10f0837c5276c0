-- ===== src/Server/Login/Verified.antt =====
-- `verify_credentials` for a client that sends a name and a password in good order.
use mefsc.Common.{
  ℕ, ◌+◌, ◌≤◌, ◌≡◌, ◌≢◌, refl, ap, ◌∙◌, some, List, [], ◌∷◌, ◌++◌, arith, length, drop, take-append,
  All, append_assoc, if◌then◌else◌,
}
use mefsc.Constants.{file_encrypted_chunk_size, stream_chunk_size}
use mefsc.Platform.{Platform, W}
use mefsc.Platform.Laws.{View, Reliable}
use mefsc.Platform.Database.{Database, Table}
use mefsc.Outcome.{bind-next, beside, along, next}
use mefsc.CText.{c_str, c_str-append, overwrite, query}
use mefsc.Wire.Receive.{Received, Received-trans}
use mefsc.Session.{unwrap}
use mefsc.Session.Frames.{Framed, arrived, read_wrapper-Framed, unwrap-Framed}
use mefsc.Server.Login.{
  StaleLogin, known, password_of, with_password, with_username, verify_credentials,
}
use mefsc.Server.Login.Accepts.{accepts, login-Answered}

module _ ⦃p : Platform⦄ (view : View p.net.Sock) (good : Reliable p.net view) (db : Database)
    (table : Table db query) (fuel : ℕ) (stale : StaleLogin) (rx : List ℕ) where
  open view use {pending, noise}
  open table use {users}

  -- The status by the specification, and the user's name.
  abbrev pub verdict : List ℕ → List ℕ → db.Db → ℕ × List ℕ
  verdict name password d =
      (if accepts db table (users d name) (password ++ (0 ∷ [])) then 0 else 1, name)

  -- A login message goes into a buffer of its own; it has its NUL.
  unwrapped :
      (m : List ℕ) {f : List ℕ} (g : Framed rx m f)
      → unwrap rx file_encrypted_chunk_size (arrived g.nonce g.text)
        ≡ record { status = 0; wrapper = arrived g.nonce g.text; decrypted_data = m }
  unwrapped m {f} g =
      unwrap-Framed view good rx m f file_encrypted_chunk_size g
        (omega (arith, g.text_length, g.fits))

  with_password-Framed :
      (buffer name password : List ℕ) {f : List ℕ} (g : Framed rx (password ++ (0 ∷ [])) f) (w : W)
      (d : db.Db)
      → c_str buffer ≡ some name
      → (d' : db.Db) × (with_password db stale buffer name
            (unwrap rx file_encrypted_chunk_size (arrived g.nonce g.text))
            (w, d)
          ≡ next (verdict name password d) (w, d'))
        × (users d' ≡ users d)
  unfolding with_password
  with_password-Framed buffer name password g w d h =
      let m : List ℕ = password ++ (0 ∷ []) in
      let a = login-Answered db table buffer m name d h in
      let typed : password_of db stale
            (unwrap rx file_encrypted_chunk_size (arrived g.nonce g.text))
          ≡ m =
        ap (password_of db stale) (unwrapped m g)
        ∙ take-append m (drop (length m) stale.password) (length m) refl in
      (a.after, rw typed (bind-next _ (ap (along w) a.result) refl), a.same_users)

  -- Over a reliable connection, for a name with no NUL and a password, each sent with a NUL behind it:
  -- the status is 0 exactly if the user is in the table and the password fits, the name is the one that
  -- was sent, the table is as it was, and what follows is left.
  pub verify_credentials-Framed :
      (name password : List ℕ) {f g : List ℕ} (u : Framed rx (name ++ (0 ∷ [])) f)
      (v : Framed rx (password ++ (0 ∷ [])) g) (rest : List ℕ) (w : W) (d : db.Db)
      → All (λ b. b ≢ 0) name
      → pending w.sock ≡ f ++ (g ++ rest)
      → stream_chunk_size + 16 + noise w.sock ≤ fuel
      → (w' : W) × (d' : db.Db) × (verify_credentials db fuel stale rx (w, d)
          ≡ next (verdict name password d) (w', d'))
        × Received view w rest w'
        × (users d' ≡ users d)
  unfolding verify_credentials with_username
  verify_credentials-Framed name password {f} {g} u v rest w d h e b =
      let m : List ℕ = name ++ (0 ∷ []) in
      let buffer : List ℕ = overwrite m stale.username in
      let (w1, e1, v1) = read_wrapper-Framed view good fuel u (g ++ rest) w e b in
      let (w2, e2, v2) =
        read_wrapper-Framed view good fuel v rest w1 v1.remaining (omega (arith, v1.quieter)) in
      let text : c_str buffer ≡ some name =
        ap c_str (append_assoc name (0 ∷ []) (drop (length m) stale.username))
        ∙ c_str-append name (drop (length m) stale.username) h in
      let (d', e3, s) = with_password-Framed buffer name password v w2 d text in
      (
        w2,
        d',
        bind-next _ (ap (λ o. beside o d) e1) (
            ap (λ x. with_username db fuel stale rx x (w1, d)) (unwrapped m u)
            ∙ bind-next _ (ap (λ o. known o (w1, d)) text)
                (bind-next _ (ap (λ o. beside o d) e2) e3)),
        Received-trans view v1 v2,
        s,
      )
