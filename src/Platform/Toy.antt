-- ===== src/Platform/Toy.antt =====
-- A small platform for the examples: a connection in memory whose first calls of `recv` are interrupted,
-- a disk of named files, and a cipher that appends a tag. It keeps the laws of `Platform.Laws`.
use mefsc.Common.{
  ℕ, zero, suc, ◌+◌, ◌-◌, ◌%◌, ◌≤◌, ◌<◌, ◌≡◌, refl, sym, ap, Option, none, some, List, [], ◌∷◌,
  ◌++◌, arith, length, take, drop, replicate, length-replicate, length-take, length-append,
  take-append, take-append-drop, drop-append, drop-append, ◌==◌, if◌then◌else◌,
}
use mefsc.CText.{same_text, same_text-same}
use mefsc.Platform.{
  Platform, Net, Sodium, Storage, W, Received, got, recv_error, took, Removed, removed, not_found,
}
use mefsc.Outcome.{Outcome, next, leave, fault}
use mefsc.Platform.Laws.{
  View, Reliable, Sound, KeyExchange, Remembers, Prompt, interrupted, arrives, Arrival,
}

pub record Line : Type 0 where
  pub inbox : List ℕ
  pub outbox : List ℕ
  pub signals : ℕ

abbrev receive : ℕ → ℕ → Line → Received × Line
receive (suc k) n s = (recv_error 4, record s { signals = k })
receive zero n s = (got (take n s.inbox), record s { inbox = drop n s.inbox })

abbrev pub find : List ℕ → List (List ℕ × List ℕ) → Option (List ℕ)
find path [] = none
find path ((p, c) ∷ files) = let rest = find path files in if same_text path p then some c else rest

-- The file of that path is gone.
abbrev pub without : List ℕ → List (List ℕ × List ℕ) → List (List ℕ × List ℕ)
without path [] = []
without path ((p, c) ∷ files) =
    let rest = without path files in if same_text path p then rest else (p, c) ∷ rest

abbrev removed_from :
    Option (List ℕ) → List ℕ → List (List ℕ × List ℕ) → Removed × List (List ℕ × List ℕ)
removed_from none path disk = (not_found, disk)
removed_from (some c) path disk = (removed, without path disk)

-- What stands behind a directory's path.
abbrev pub inside : List ℕ → List ℕ → Option (List ℕ)
inside [] path = some path
inside (d ∷ ds) [] = none
inside (d ∷ ds) (b ∷ bs) = let rest = inside ds bs in if d == b then rest else none

abbrev pub kept : Option (List ℕ) → List (List ℕ) → List (List ℕ)
kept none names = names
kept (some name) names = name ∷ names

abbrev pub names_in : List ℕ → List (List ℕ × List ℕ) → List (List ℕ)
names_in dir [] = []
names_in dir ((p, c) ∷ files) = kept (inside dir p) (names_in dir files)

abbrev tag : List ℕ
tag = replicate 16 0

abbrev count_up : List ℕ → List ℕ
count_up [] = []
count_up (b ∷ bs) = (b + 1) % 256 ∷ bs

abbrev unpush : ℕ → List ℕ → Option ((List ℕ × ℕ) × ℕ)
unpush st [] = none
unpush st (t ∷ rest) = some ((drop 16 rest, t), suc st)

abbrev pub net : Net
net = record {
  Sock = Line;
  eintr = 4;
  recv = λ n s. receive s.signals n s;
  send = λ bytes s. (took (length bytes), record s { outbox = s.outbox ++ bytes });
}

abbrev pub sodium : Sodium
sodium = record {
  Rng = ℕ;
  Stream = ℕ;
  randombytes_buf = λ n r. (replicate n (r % 256), suc r);
  sodium_increment = count_up;
  aead_encrypt = λ key nonce m. some (m ++ tag);
  aead_decrypt = λ key nonce c. some (take (length c - 16) c);
  aead_spoils = λ key nonce c. replicate (length c - 16) 0;
  init_push = λ key r. ((0, replicate 24 (r % 256)), suc r);
  push = λ st m t. (t ∷ (tag ++ m), suc st);
  tag_final = 3;
  init_pull = λ header key. some 0;
  pull = unpush;
  kx_keypair = λ r. ((replicate 32 (r % 256), r ∷ []), suc r);
  kx_server_session_keys = λ pk sk peer. some (pk ++ peer, peer ++ pk);
  kx_client_session_keys = λ pk sk peer. some (pk ++ peer, peer ++ pk);
  pwhash = λ password salt. some password;
  pwhash_str_verify = same_text;
}

abbrev pub storage : Storage
storage = record {
  Disk = List (List ℕ × List ℕ);
  create_directories = λ path disk. disk;
  open_read = find;
  write_file = λ path contents disk. (path, contents) ∷ disk;
  remove = λ path disk. removed_from (find path disk) path disk;
  list_directory = λ path disk. some (names_in path disk);
}

instance abbrev pub toy : Platform
toy = record { net = net; sodium = sodium; storage = storage }

abbrev pub view : View Line
view = record { pending = λ s. s.inbox; written = λ s. s.outbox; noise = λ s. s.signals }

receive-Arrival :
    (k n : ℕ) (s : Line) → s.signals ≡ k → 0 < n → n ≤ length s.inbox → Arrival net view n s
receive-Arrival (suc k) n s e h l =
    interrupted (record s { signals = k }) (rw e refl) refl refl (omega (arith, e))
receive-Arrival zero n s e h l =
    arrives (take n s.inbox) (record s { inbox = drop n s.inbox }) (rw e refl)
      (omega (arith, length-take n s.inbox)) (omega (arith, length-take n s.inbox))
      (sym (take-append-drop n s.inbox)) refl (omega arith)

pub reliable : Reliable net view
reliable = record {
  receives = λ n s h l. receive-Arrival s.signals n s refl h l;
  sends = λ bytes s. record {
    after = record s { outbox = s.outbox ++ bytes };
    result = refl;
    same_pending = refl;
    same_noise = refl;
    adds = refl;
  };
}

length-count_up : (n : List ℕ) → length (count_up n) ≡ length n
length-count_up [] = refl
length-count_up (b ∷ bs) = refl

pub decrypts : (m : List ℕ) → take (length (m ++ tag) - 16) (m ++ tag) ≡ m
decrypts m = take-append m tag (length (m ++ tag) - 16) (omega (arith, length-append m tag))

pub sound : Sound sodium (λ a b. a ≡ b)
sound = record {
  increment_length = length-count_up;
  random_length = λ n r. length-replicate n (r % 256);
  encrypts = λ key nonce m. (m ++ tag, refl, length-append m tag, ap some (decrypts m));
  push_length = λ st m t. omega (arith, length-append tag m);
  header_length = λ key r. refl;
  pairs = λ key r. (0, refl, refl);
  pulls = λ st st' m t e. (suc st', refl, ap suc e);
}

pub key_exchange : KeyExchange sodium
key_exchange = record {
  public_length = λ r. length-replicate 32 (r % 256);
  agrees = λ r r'. (
    replicate 32 (r % 256) ++ replicate 32 (r' % 256),
    replicate 32 (r' % 256) ++ replicate 32 (r % 256),
    refl,
    refl,
  );
}

pub remembers : Remembers storage
remembers = record { reads = λ path contents disk. rw (same_text-same path) refl }

-- A connection with these bytes to come and this many signals, and nothing else.
abbrev pub world : List ℕ → ℕ → W
world bytes signals = record {
  sock = record { inbox = bytes; outbox = []; signals = signals };
  errno = 0;
  disk = [];
  rng = 7;
}

-- What an answered value and the sent bytes are; `none` for an early return or a fault.
abbrev pub seen : {A : Type 0} → Outcome W A → Option (A × List ℕ)
seen (next a w) = some (a, w.sock.outbox)
seen (leave c w) = none
seen (fault e) = none

-- The frame of a message in the examples' cipher, under a nonce of the random source.
abbrev pub answer : ℕ → List ℕ → List ℕ
answer r m =
    ((length m + 16) ∷ replicate 7 0) ++ (((r + 1) ∷ replicate 7 r) ++ (m ++ replicate 16 0))

receive-delivers :
    (k n : ℕ) (front rest : List ℕ) (s : Line)
    → s.signals ≡ k
    → length front ≡ n
    → s.inbox ≡ front ++ rest
    → k ≡ 0
    → (s' : Line) × (receive k n s ≡ (got front, s'))
      × (s'.inbox ≡ rest)
      × (s'.outbox ≡ s.outbox)
      × (s'.signals ≡ 0)
receive-delivers (suc k) n front rest s h l e z = absurd (omega (arith, z))
receive-delivers zero n front rest s h l e z = (
  record s { inbox = drop n s.inbox },
  rw (e, take-append front rest n l) refl,
  rw e (drop-append front rest n l),
  refl,
  h,
)

pub prompt : Prompt net view
prompt = record {
  delivers = λ n front rest s l e z. receive-delivers s.signals n front rest s refl l e z;
}
