-- ===== src/Server/Upload/Names.antt =====
-- A name that arrives with its NUL, in any buffer.
use mefsc.Common.{ℕ, ◌≡◌, ◌≢◌, refl, ap, ◌∙◌, List, [], ◌∷◌, length, drop, append_assoc, All}
use mefsc.Platform.{Platform, W}
use mefsc.Outcome.{Outcome}
use mefsc.CText.{c_str, c_str-append, overwrite}
use mefsc.Transfer.Messages.{with_nul}
use mefsc.Server.{Operator, Stale}
use mefsc.Server.Upload.{text_of}

module _ ⦃p : Platform⦄ (fuel : ℕ) (stale : Stale) (op : Operator) where
  pub text_of-with_nul :
      (name buffer : List ℕ) (w : W)
      → All (λ b. b ≢ 0) name
      → text_of fuel stale op (overwrite (with_nul name) buffer) w ≡ Outcome.next name w
  unfolding text_of
  text_of-with_nul name buffer w h =
      let behind : List ℕ = drop (length (with_nul name)) buffer in
      rw (ap c_str (append_assoc name (0 ∷ []) behind) ∙ c_str-append name behind h, text_of) refl
