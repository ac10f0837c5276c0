-- ===== src/Wire/Silent.antt =====
-- Which calls leave the disk alone, whatever the peer and the network do.
use mefsc.Common.{
  ℕ, zero, suc, ◌-◌, ◌≡◌, refl, Option, none, some, List, [], ◌∷◌, ◌++◌, length, ◌==◌, Bool-cases,
  inl, inr,
}
use mefsc.Platform.{Platform, W, Received, got, recv_error, Sent, took, send_error}
use mefsc.Outcome.{M, Outcome, next, leave, fault, bind, or_return}
use mefsc.Wire.{recv_fully, recv_loop, after_recv, send_bytes, sent}

-- However the call ends, `look` sees `d`.
abbrev pub Keeps : {S A D : Type 0} → (S → D) → D → Outcome S A → Type 0
Keeps look d (next a s) = look s ≡ d
Keeps look d (leave c s) = look s ≡ d
Keeps look d (fault e) = Unit

pub Keeps-bind :
    {S A B D : Type 0} (look : S → D) (d : D) (m : Outcome S A) (f : A → M S B)
    → Keeps look d m
    → ((a : A) (s : S) → look s ≡ d → Keeps look d (f a s))
    → Keeps look d (bind m f)
Keeps-bind look d (next a s) f h k = k a s h
Keeps-bind look d (leave c s) f h k = h
Keeps-bind look d (fault e) f h k = tt

-- The same, where the rest of the block splits on the answer.
pub Keeps-option :
    {S A B D : Type 0} (look : S → D) (d : D) (m : Outcome S (Option A)) (f : Option A → M S B)
    → Keeps look d m
    → ((s : S) → look s ≡ d → Keeps look d (f none s))
    → ((a : A) (s : S) → look s ≡ d → Keeps look d (f (some a) s))
    → Keeps look d (bind m f)
Keeps-option look d (next none s) f h k l = k s h
Keeps-option look d (next (some a) s) f h k l = l a s h
Keeps-option look d (leave c s) f h k l = h
Keeps-option look d (fault e) f h k l = tt

pub or_return-Keeps :
    {S A D : Type 0} (look : S → D) (d : D) (o : Option A) (c : ℕ) (s : S)
    → look s ≡ d
    → Keeps look d (or_return o c s)
or_return-Keeps look d none c s h = h
or_return-Keeps look d (some a) c s h = h

module _ ⦃p : Platform⦄ where
  abbrev pub disk_of : W → p.storage.Disk
  disk_of w = w.disk

  abbrev pub KeepsDisk : {A : Type 0} → p.storage.Disk → Outcome W A → Type 0
  KeepsDisk d m = Keeps disk_of d m

  after_recv-KeepsDisk :
      (again : ℕ → List ℕ → M W (Option (List ℕ))) (n : ℕ) (acc : List ℕ) (w : W)
      (r : Received × p.net.Sock)
      → ((k : ℕ) (a : List ℕ) (v : W) → KeepsDisk v.disk (again k a v))
      → KeepsDisk w.disk (after_recv again n acc w r)
  unfolding after_recv
  after_recv-KeepsDisk again n acc w (recv_error e, s) h = elim (Bool-cases (e == p.net.eintr)) [
    | inl t ↦ rw (t, after_recv) (h n acc (record w { sock = s; errno = e }))
    | inr f ↦ rw (f, after_recv) refl
  ]
  after_recv-KeepsDisk again n acc w (got [], s) h = elim (Bool-cases (w.errno == p.net.eintr)) [
    | inl t ↦ rw (t, after_recv) (h n acc (record w { sock = s }))
    | inr f ↦ rw (f, after_recv) refl
  ]
  after_recv-KeepsDisk again n acc w (got (b ∷ bs), s) h =
      h (n - length (b ∷ bs)) (acc ++ (b ∷ bs)) (record w { sock = s })

  recv_loop-KeepsDisk :
      (fuel n : ℕ) (acc : List ℕ) (w : W) → KeepsDisk w.disk (recv_loop fuel n acc w)
  unfolding recv_loop
  recv_loop-KeepsDisk zero zero acc w = refl
  recv_loop-KeepsDisk (suc fuel) zero acc w = refl
  recv_loop-KeepsDisk zero (suc n) acc w = tt
  recv_loop-KeepsDisk (suc fuel) (suc n) acc w =
      after_recv-KeepsDisk (recv_loop fuel) (suc n) acc w (p.net.recv (suc n) w.sock)
        (recv_loop-KeepsDisk fuel)

  pub recv_fully-KeepsDisk : (fuel n : ℕ) (w : W) → KeepsDisk w.disk (recv_fully fuel n w)
  unfolding recv_fully
  recv_fully-KeepsDisk fuel n w = recv_loop-KeepsDisk fuel n [] w

  sent-KeepsDisk : (w : W) (r : Sent × p.net.Sock) → KeepsDisk w.disk (sent w r)
  unfolding sent
  sent-KeepsDisk w (took n, s) = refl
  sent-KeepsDisk w (send_error e, s) = refl

  pub send_bytes-KeepsDisk : (bytes : List ℕ) (w : W) → KeepsDisk w.disk (send_bytes bytes w)
  unfolding send_bytes
  send_bytes-KeepsDisk bytes w = sent-KeepsDisk w (p.net.send bytes w.sock)
