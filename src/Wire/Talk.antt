-- ===== src/Wire/Talk.antt =====
-- A stretch of a conversation over a connection in good order: what is received and what is sent.
use mefsc.Common.{ℕ, ◌≤◌, ◌≡◌, sym, ap, ◌∙◌, refl, List, [], ◌++◌, arith, append-nil, append_assoc}
use mefsc.Platform.{Platform, W}
use mefsc.Platform.Laws.{View}
use mefsc.Outcome.{M, Outcome, bind}
use mefsc.Wire.Receive.{Gives, Received}
use mefsc.Wire.Blobs.{Sends}

module _ ⦃p : Platform⦄ (view : View p.net.Sock) where
  open view use {pending, written, noise}

  -- Between two worlds `sent` was sent and something received, and `rest` is still to come.
  pub record Talked (w : W) (sent rest : List ℕ) (w' : W) : Type 0 where
    pub remaining : pending w'.sock ≡ rest
    pub quieter : noise w'.sock ≤ noise w.sock
    pub added : written w'.sock ≡ written w.sock ++ sent
    pub same_disk : w'.disk ≡ w.disk

  abbrev pub Talks : {A : Type 0} → Outcome W A → A → W → List ℕ → List ℕ → Type 0
  Talks result a w sent rest = (w' : W) × (result ≡ Outcome.next a w') × Talked w sent rest w'

  pub Gives-Talks :
      {A : Type 0} {result : Outcome W A} {a : A} {w : W} {rest : List ℕ}
      → Gives view result a w rest
      → Talks result a w [] rest
  Gives-Talks {w} (w1, e, v) = (
    w1,
    e,
    record {
      remaining = v.remaining;
      quieter = v.quieter;
      added = v.same_written ∙ sym (append-nil (written w.sock));
      same_disk = v.same_disk;
    },
  )

  pub Sends-Talks :
      {A : Type 0} {result : Outcome W A} {a : A} {w : W} {sent rest : List ℕ}
      → pending w.sock ≡ rest
      → Sends view result a w sent
      → Talks result a w sent rest
  Sends-Talks h (w1, e, v) = (
    w1,
    e,
    record {
      remaining = v.same_pending ∙ h;
      quieter = omega (arith, v.same_noise);
      added = v.added;
      same_disk = v.same_disk;
    },
  )

  pub Talked-trans :
      {w w' w'' : W} {xs ys mid rest : List ℕ}
      → Talked w xs mid w'
      → Talked w' ys rest w''
      → Talked w (xs ++ ys) rest w''
  Talked-trans {w} {xs} {ys} u v = record {
    remaining = v.remaining;
    quieter = omega (arith, u.quieter, v.quieter);
    added = v.added ∙ ap (λ t. t ++ ys) u.added ∙ append_assoc (written w.sock) xs ys;
    same_disk = v.same_disk ∙ u.same_disk;
  }

  -- What is still to come, by another name.
  pub Talked-rest :
      {w w' : W} {sent rest rest' : List ℕ}
      → Talked w sent rest w'
      → rest ≡ rest'
      → Talked w sent rest' w'
  Talked-rest v e = record {
    remaining = v.remaining ∙ e;
    quieter = v.quieter;
    added = v.added;
    same_disk = v.same_disk;
  }

  -- Nothing is said.
  pub Talked-nil : (w : W) → Talked w [] (pending w.sock) w
  Talked-nil w = record {
    remaining = refl;
    quieter = omega arith;
    added = sym (append-nil (written w.sock));
    same_disk = refl;
  }

  -- Something is received last.
  pub Talked-then :
      {w w' w'' : W} {sent mid rest : List ℕ}
      → Talked w sent mid w'
      → Talked w' [] rest w''
      → Talked w sent rest w''
  Talked-then {w' = w'} u v = record {
    remaining = v.remaining;
    quieter = omega (arith, u.quieter, v.quieter);
    added = v.added ∙ append-nil (written w'.sock) ∙ u.added;
    same_disk = v.same_disk ∙ u.same_disk;
  }

  -- A step of the conversation, and the rest of the block after it.
  pub Talks-bind :
      {A B : Type 0} (f : A → M W B) {m : Outcome W A} {a : A} {b : B} {w : W}
      {xs ys mid rest : List ℕ}
      → Talks m a w xs mid
      → ((w' : W) → Talked w xs mid w' → Talks (f a w') b w' ys rest)
      → Talks (bind m f) b w (xs ++ ys) rest
  Talks-bind f (w1, e, v) k = let (w2, e', v') = k w1 v in (w2, rw e e', Talked-trans v v')

  -- The same, where the rest of the block is silent.
  pub Talks-then :
      {A B : Type 0} (f : A → M W B) {m : Outcome W A} {a : A} {b : B} {w : W} {xs rest : List ℕ}
      → Talks m a w xs rest
      → ((w' : W) → f a w' ≡ Outcome.next b w')
      → Talks (bind m f) b w xs rest
  Talks-then f (w1, e, v) k = (w1, rw e (k w1), v)

  -- The same with the disk left open.
  pub record Spoken (w : W) (sent rest : List ℕ) (w' : W) : Type 0 where
    pub remaining : pending w'.sock ≡ rest
    pub quieter : noise w'.sock ≤ noise w.sock
    pub added : written w'.sock ≡ written w.sock ++ sent

  pub Talked-Spoken :
      {w w' : W} {sent rest : List ℕ} → Talked w sent rest w' → Spoken w sent rest w'
  Talked-Spoken v = record { remaining = v.remaining; quieter = v.quieter; added = v.added }

  pub Received-Spoken : {w w' : W} {rest : List ℕ} → Received view w rest w' → Spoken w [] rest w'
  Received-Spoken {w} v = record {
    remaining = v.remaining;
    quieter = v.quieter;
    added = v.same_written ∙ sym (append-nil (written w.sock));
  }

  pub Spoken-trans :
      {w w' w'' : W} {xs ys mid rest : List ℕ}
      → Spoken w xs mid w'
      → Spoken w' ys rest w''
      → Spoken w (xs ++ ys) rest w''
  Spoken-trans {w} {xs} {ys} u v = record {
    remaining = v.remaining;
    quieter = omega (arith, u.quieter, v.quieter);
    added = v.added ∙ ap (λ t. t ++ ys) u.added ∙ append_assoc (written w.sock) xs ys;
  }
