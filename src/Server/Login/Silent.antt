-- ===== src/Server/Login/Silent.antt =====
-- The login leaves the disk alone, whatever the peer sends.
use mefsc.Common.{ℕ, refl, subst, Option, none, some, List}
use mefsc.Constants.{file_encrypted_chunk_size}
use mefsc.Platform.{Platform, W}
use mefsc.Platform.Database.{Database}
use mefsc.Outcome.{Outcome, next, leave, fault, beside, along}
use mefsc.CText.{c_str, overwrite}
use mefsc.Wire.Silent.{Keeps, Keeps-bind, KeepsDisk}
use mefsc.Session.{Unwrapped, read_wrapper, unwrap}
use mefsc.Session.Silent.{read_wrapper-KeepsDisk}
use mefsc.Server.Login.{
  StaleLogin, known, login, password_of, with_password, with_username, verify_credentials,
}

module _ ⦃p : Platform⦄ where
  abbrev pub pair_disk : {Db : Type 0} → W × Db → p.storage.Disk
  pair_disk s = s.0.disk

  pub beside-Keeps :
      {Db A : Type 0} (d : p.storage.Disk) (m : Outcome W A) (t : Db)
      → KeepsDisk d m
      → Keeps pair_disk d (beside m t)
  beside-Keeps d (next a s) t h = h
  beside-Keeps d (leave c s) t h = h
  beside-Keeps d (fault e) t h = tt

  along-Keeps : {Db A : Type 0} (w : W) (m : Outcome Db A) → Keeps pair_disk w.disk (along w m)
  along-Keeps w (next a t) = refl
  along-Keeps w (leave c t) = refl
  along-Keeps w (fault e) = tt

  module _ (db : Database) (fuel : ℕ) (stale : StaleLogin) (server_rx : List ℕ) where
    with_password-Keeps :
        (buffer username : List ℕ) (v : Unwrapped) (w : W) (d : db.Db)
        → Keeps pair_disk w.disk (with_password db stale buffer username v (w, d))
    unfolding with_password
    with_password-Keeps buffer username v w d =
        Keeps-bind pair_disk w.disk (along w (login db buffer (password_of db stale v) d)) _
          (along-Keeps w (login db buffer (password_of db stale v) d)) λ a s e. e

    with_username-Keeps :
        (u : Unwrapped) (w : W) (d : db.Db)
        → Keeps pair_disk w.disk (with_username db fuel stale server_rx u (w, d))
    unfolding with_username
    with_username-Keeps u w d =
        let buffer : List ℕ = overwrite u.decrypted_data stale.username in
        Keeps-bind pair_disk w.disk (known (c_str buffer) (w, d)) _ (known-Keeps (c_str buffer) w d)
          λ name s e.
            Keeps-bind pair_disk w.disk (beside (read_wrapper fuel s.0) s.1) _
              (beside-Keeps w.disk (read_wrapper fuel s.0) s.1 (
                subst (λ x. KeepsDisk x (read_wrapper fuel s.0)) e
                  (read_wrapper-KeepsDisk fuel s.0)))
              λ x t g.
                subst
                  (λ y. Keeps pair_disk y (
                    with_password db stale buffer name
                      (unwrap server_rx file_encrypted_chunk_size x) t))
                  g
                  (with_password-Keeps buffer name (unwrap server_rx file_encrypted_chunk_size x)
                    t.0 t.1)
      where
        known-Keeps :
            (o : Option (List ℕ)) (w : W) (d : db.Db)
            → Keeps {A = List ℕ} pair_disk w.disk (known o (w, d))
        known-Keeps none w d = tt
        known-Keeps (some a) w d = refl

    pub verify_credentials-Keeps :
        (w : W) (d : db.Db)
        → Keeps pair_disk w.disk (verify_credentials db fuel stale server_rx (w, d))
    unfolding verify_credentials
    verify_credentials-Keeps w d =
        Keeps-bind pair_disk w.disk (beside (read_wrapper fuel w) d) _
          (beside-Keeps w.disk (read_wrapper fuel w) d (read_wrapper-KeepsDisk fuel w))
          λ x t g.
            subst
              (λ y. Keeps pair_disk y (
                with_username db fuel stale server_rx (unwrap server_rx file_encrypted_chunk_size x)
                  t))
              g (with_username-Keeps (unwrap server_rx file_encrypted_chunk_size x) t.0 t.1)
