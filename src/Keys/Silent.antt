-- ===== src/Keys/Silent.antt =====
-- The key exchange leaves the disk alone.
use mefsc.Common.{ℕ, subst, List}
use mefsc.Constants.{kx_publickeybytes}
use mefsc.Platform.{Platform, W}
use mefsc.Wire.{send_bytes, recv_fully}
use mefsc.Wire.Silent.{
  Keeps-bind, or_return-Keeps, KeepsDisk, disk_of, send_bytes-KeepsDisk, recv_fully-KeepsDisk,
}
use mefsc.Keys.{swap_keys, new_keypair, server_crypt_gen}

module _ ⦃p : Platform⦄ where
  swap_keys-KeepsDisk :
      (fuel : ℕ) (public : List ℕ) (w : W) → KeepsDisk w.disk (swap_keys fuel public w)
  unfolding swap_keys
  swap_keys-KeepsDisk fuel public w =
      Keeps-bind disk_of w.disk (send_bytes public w) _ (send_bytes-KeepsDisk public w) λ a v e.
        Keeps-bind disk_of w.disk (recv_fully fuel kx_publickeybytes v) _
          (subst (λ d. KeepsDisk d (recv_fully fuel kx_publickeybytes v)) e
            (recv_fully-KeepsDisk fuel kx_publickeybytes v))
          λ o u g. or_return-Keeps disk_of w.disk o 2 u g

  pub server_crypt_gen-KeepsDisk : (fuel : ℕ) (w : W) → KeepsDisk w.disk (server_crypt_gen fuel w)
  unfolding server_crypt_gen new_keypair
  server_crypt_gen-KeepsDisk fuel w =
      let keys = p.sodium.kx_keypair w.rng in
      let w' : W = record w { rng = keys.1 } in
      Keeps-bind disk_of w.disk (swap_keys fuel keys.0.0 w') _
        (swap_keys-KeepsDisk fuel keys.0.0 w')
        λ peer v e.
          or_return-Keeps disk_of w.disk (p.sodium.kx_server_session_keys keys.0.0 keys.0.1 peer) 1
            v e
