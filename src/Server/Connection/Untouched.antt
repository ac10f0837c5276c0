-- ===== src/Server/Connection/Untouched.antt =====
-- A connection whose peer does not present good credentials leaves the disk alone, whatever the peer sends.
use mefsc.Common.{ℕ, ◌≡◌, refl, subst, List, Bool-cases, ◌⊎◌, inl, inr, le_bytes, ◌==◌, arith}
use mefsc.Constants.{ack_fail}
use mefsc.Platform.{Platform, W}
use mefsc.Platform.Database.{Database, Table}
use mefsc.Outcome.{Outcome, next, leave, fault, bind, beside, attempted}
use mefsc.CText.{query}
use mefsc.Wire.{send_bytes}
use mefsc.Wire.Silent.{Keeps, Keeps-bind, KeepsDisk, send_bytes-KeepsDisk}
use mefsc.Keys.{server_crypt_gen}
use mefsc.Keys.Silent.{server_crypt_gen-KeepsDisk}
use mefsc.Server.{Stale}
use mefsc.Server.Login.{StaleLogin, verify_credentials}
use mefsc.Server.Login.Silent.{verify_credentials-Keeps, pair_disk, beside-Keeps}
use mefsc.Server.Login.Admits.{Admits, Presented, verify_credentials-Admits}
use mefsc.Server.Connection.{handle_conn, keyed, verified, rejected}

module _ ⦃p : Platform⦄ (fuel rounds : ℕ) (stale : Stale) (db : Database) (table : Table db query)
    (stale_login : StaleLogin) where
  abbrev State : Type 0
  State = W × db.Db

  -- The keys are exchanged, and under them the peer presents a name and a password that the table accepts.
  pub record LoggedIn (w : W) (t : db.Db) : Type 0 where
    pub rx : List ℕ
    pub tx : List ℕ
    pub w1 : W
    pub keys : server_crypt_gen fuel w ≡ next (rx, tx) w1
    pub presented : Presented db table fuel stale_login rx w1 t

  rejected-Keeps :
      (d : p.storage.Disk) (w : W) (t : db.Db)
      → w.disk ≡ d
      → Keeps pair_disk d (rejected fuel rounds stale db stale_login (w, t))
  unfolding rejected
  rejected-Keeps d w t h =
      Keeps-bind pair_disk d (beside (send_bytes (le_bytes 4 ack_fail) w) t) _
        (subst (λ x. Keeps pair_disk x (beside (send_bytes (le_bytes 4 ack_fail) w) t)) h
          (beside-Keeps w.disk (send_bytes (le_bytes 4 ack_fail) w) t
            (send_bytes-KeepsDisk (le_bytes 4 ack_fail) w)))
        λ a s e. e

  -- After `verify_credentials`: a status other than 0 is turned away.
  verified-Keeps :
      (P : Type 0) (actions : ℕ) (rx tx : List ℕ) (d : p.storage.Disk)
      (m : Outcome State (ℕ × List ℕ))
      → Keeps pair_disk d m
      → Admits db table fuel stale_login rx P m
      → Keeps pair_disk d (bind m (verified fuel rounds stale db stale_login actions rx tx)) ⊎ P
  unfolding verified
  verified-Keeps P actions rx tx d (next (status, username) s) h a =
      elim (Bool-cases (status == 0)) [
        | inl t ↦ inr (a (ground arith))
        | inr f ↦ inl (rw (f, verified) (rejected-Keeps d s.0 s.1 h))
      ]
  verified-Keeps P actions rx tx d (leave c s) h a = inl h
  verified-Keeps P actions rx tx d (fault e) h a = inl tt

  -- After the key exchange.
  keyed-Keeps :
      (actions : ℕ) (w : W) (t : db.Db) (m : Outcome W (List ℕ × List ℕ))
      → server_crypt_gen fuel w ≡ m
      → KeepsDisk w.disk m
      → Keeps pair_disk w.disk
          (bind (beside (attempted m) t) (keyed fuel rounds stale db stale_login actions))
        ⊎ LoggedIn w t
  unfolding keyed
  keyed-Keeps actions w t (next (rx, tx) w1) e h =
      verified-Keeps (LoggedIn w t) actions rx tx w.disk
        (verify_credentials db fuel stale_login rx (w1, t))
        (subst (λ x. Keeps pair_disk x (verify_credentials db fuel stale_login rx (w1, t))) h
          (verify_credentials-Keeps db fuel stale_login rx w1 t))
        (lets_in (verify_credentials db fuel stale_login rx (w1, t))
          (verify_credentials-Admits db table fuel stale_login rx w1 t))
    where
      lets_in :
          (o : Outcome State (ℕ × List ℕ))
          → Admits db table fuel stale_login rx (Presented db table fuel stale_login rx w1 t) o
          → Admits db table fuel stale_login rx (LoggedIn w t) o
      lets_in (next (status, name) s) a =
          λ z. record { rx = rx; tx = tx; w1 = w1; keys = e; presented = a z }
      lets_in (leave c s) a = tt
      lets_in (fault f) a = tt
  keyed-Keeps actions w t (leave c w1) e h = inl h
  keyed-Keeps actions w t (fault f) e h = inl tt

  pub handle_conn-unharmed :
      (actions : ℕ) (w : W) (t : db.Db)
      → Keeps pair_disk w.disk (handle_conn fuel rounds stale db stale_login actions (w, t))
        ⊎ LoggedIn w t
  unfolding handle_conn
  handle_conn-unharmed actions w t =
      keyed-Keeps actions w t (server_crypt_gen fuel w) refl (server_crypt_gen-KeepsDisk fuel w)
