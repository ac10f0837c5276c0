-- ===== src/Store/Toy.antt =====
-- The disk in memory of the examples is a folder, for any directory.
use mefsc.Common.{
  ℕ, ◌≤◌, ◌≡◌, ◌≢◌, refl, sym, ap, ◌∙◌, Option, none, some, List, [], ◌∷◌, ◌++◌, length, All, arith,
  ◌==◌, ==_iff, ==_refl, if◌then◌else◌, Bool-cases, inl, inr, ◌⊎◌,
}
use mathlib.Core.List.{Memᴰ}
use mefsc.Constants.{max_file_name_length}
use mefsc.CText.{same_text, same_text-eq, same_text-same, same_text-ne, ne-same_text}
use mefsc.Platform.{removed, not_found}
use mefsc.Platform.Toy.{storage, find, without, inside, names_in, kept}
use mefsc.Store.Folder.{Folder}

abbrev Stored : Type 0
Stored = List (List ℕ × List ℕ)

find-here : (q c : List ℕ) (disk : Stored) → find q ((q, c) ∷ disk) ≡ some c
find-here q c disk = rw (same_text-same q) refl

find-past : (q p c : List ℕ) (disk : Stored) → q ≢ p → find q ((p, c) ∷ disk) ≡ find q disk
find-past q p c disk h = rw (ne-same_text q p h) refl

find-without-gone : (q : List ℕ) (disk : Stored) → find q (without q disk) ≡ none
find-without-gone q [] = refl
find-without-gone q ((p, c) ∷ disk) = elim (Bool-cases (same_text q p)) [
  | inl e ↦ rw e (find-without-gone q disk)
  | inr e ↦ rw e (rw e (find-without-gone q disk))
]

find-without-other : (q r : List ℕ) (disk : Stored) → q ≢ r → find q (without r disk) ≡ find q disk
find-without-other q r [] h = refl
find-without-other q r ((p, c) ∷ disk) h = elim (Bool-cases (same_text r p)) [
  | inl e ↦ rw e (
      find-without-other q r disk h
      ∙ sym (find-past q p c disk (λ k. h (k ∙ sym (same_text-eq r p e)))))
  | inr e ↦ rw e (ap (λ o. if same_text q p then some c else o) (find-without-other q r disk h))
]

inside-append : (dir name : List ℕ) → inside dir (dir ++ name) ≡ some name
inside-append [] name = refl
inside-append (d ∷ ds) name = rw (==_refl d) (inside-append ds name)

inside-shape : (dir path name : List ℕ) → inside dir path ≡ some name → path ≡ dir ++ name
inside-shape [] path name h = ground (arith, h)
inside-shape (d ∷ ds) [] name h = absurd (ground (arith, h))
inside-shape (d ∷ ds) (b ∷ bs) name h = elim (Bool-cases (d == b)) [
  | inl e ↦
      let heads : d ≡ b = (==_iff d b).0 e in
      let tails : bs ≡ ds ++ name = inside-shape ds bs name (ground arith) in cc
  | inr e ↦ absurd (ground arith)
]

append-ne : (dir : List ℕ) {m n : List ℕ} → m ≢ n → dir ++ m ≢ dir ++ n
append-ne dir {m} {n} h e =
    h (some_inj (sym (inside-append dir m) ∙ ap (inside dir) e ∙ inside-append dir n))
  where
    some_inj : {a b : List ℕ} → some a ≡ some b → a ≡ b
    some_inj k = cc

abbrev IsShort : List ℕ → Type 0
IsShort name = length name ≤ max_file_name_length

All-kept :
    (o : Option (List ℕ)) (names : List (List ℕ)) → All IsShort (kept o names) → All IsShort names
All-kept none names h = h
All-kept (some name) names h = h.1

kept-All :
    (o : Option (List ℕ)) (names names' : List (List ℕ))
    → All IsShort (kept o names)
    → All IsShort names'
    → All IsShort (kept o names')
kept-All none names names' h k = k
kept-All (some name) names names' h k = (h.0, k)

without-All :
    (dir q : List ℕ) (disk : Stored)
    → All IsShort (names_in dir disk)
    → All IsShort (names_in dir (without q disk))
without-All dir q [] h = tt
without-All dir q ((p, c) ∷ disk) h =
    let rest : All IsShort (names_in dir (without q disk)) =
      without-All dir q disk (All-kept (inside dir p) (names_in dir disk) h) in
    elim (Bool-cases (same_text q p)) [
      | inl e ↦ rw e rest
      | inr e ↦
          rw e (kept-All (inside dir p) (names_in dir disk) (names_in dir (without q disk)) h rest)
    ]

kept-past :
    (o : Option (List ℕ)) {name : List ℕ} {names : List (List ℕ)}
    → Memᴰ name names
    → Memᴰ name (kept o names)
kept-past none m = m
kept-past (some n) m = Memᴰ.tail m

kept-cases :
    (o : Option (List ℕ)) {name : List ℕ} (names : List (List ℕ))
    → Memᴰ name (kept o names)
    → (o ≡ some name) ⊎ Memᴰ name names
kept-cases none names m = inr m
kept-cases (some n) names (Memᴰ.head e) = inl (ap some (sym e))
kept-cases (some n) names (Memᴰ.tail m) = inr m

names_in_sound :
    (dir name : List ℕ) (disk : Stored)
    → Memᴰ name (names_in dir disk)
    → find (dir ++ name) disk ≢ none
names_in_sound dir name [] m e = elim m [ ]
names_in_sound dir name ((p, c) ∷ disk) m e = elim (Bool-cases (same_text (dir ++ name) p)) [
  | inl k ↦ absurd (ground arith)
  | inr k ↦
      let gone : find (dir ++ name) disk ≡ none =
        sym (find-past (dir ++ name) p c disk (same_text-ne (dir ++ name) p k)) ∙ e in
      elim (kept-cases (inside dir p) (names_in dir disk) m) [
        | inl i ↦ same_text-ne (dir ++ name) p k (sym (inside-shape dir p name i))
        | inr m' ↦ names_in_sound dir name disk m' gone
      ]
]

names_in_complete :
    (dir name : List ℕ) (disk : Stored)
    → find (dir ++ name) disk ≢ none
    → Memᴰ name (names_in dir disk)
names_in_complete dir name [] h = absurd (h refl)
names_in_complete dir name ((p, c) ∷ disk) h = elim (Bool-cases (same_text (dir ++ name) p)) [
  | inl k ↦
      let here : inside dir p ≡ some name =
        ap (inside dir) (sym (same_text-eq (dir ++ name) p k)) ∙ inside-append dir name in
      rw here (Memᴰ.head refl)
  | inr k ↦ kept-past (inside dir p) (
      names_in_complete dir name disk
        (λ e. h (find-past (dir ++ name) p c disk (same_text-ne (dir ++ name) p k) ∙ e)))
]

write-All :
    (dir name c : List ℕ) (disk : Stored)
    → length name ≤ max_file_name_length
    → All IsShort (names_in dir disk)
    → All IsShort (names_in dir ((dir ++ name, c) ∷ disk))
write-All dir name c disk s h = rw (inside-append dir name) (s, h)

removes-from :
    (q c : List ℕ) (disk : Stored)
    → find q disk ≡ some c
    → storage.remove q disk ≡ (removed, without q disk)
removes-from q c disk h = rw h refl

misses-from :
    (q : List ℕ) (disk : Stored) → find q disk ≡ none → storage.remove q disk ≡ (not_found, disk)
misses-from q disk h = rw h refl

pub folder : (dir : List ℕ) → Folder storage dir
folder dir = record {
  Holds = λ disk. All IsShort (names_in dir disk);
  writes = λ name c disk h plain short. (
    write-All dir name c disk short h,
    record {
      there = find-here (dir ++ name) c disk;
      elsewhere = λ other plain' ne.
          find-past (dir ++ other) (dir ++ name) c disk (λ e. append-ne dir ne (sym e));
    },
  );
  removes = λ name c disk h plain found. (
    without (dir ++ name) disk,
    removes-from (dir ++ name) c disk found,
    without-All dir (dir ++ name) disk h,
    record {
      there = find-without-gone (dir ++ name) disk;
      elsewhere = λ other plain' ne.
          find-without-other (dir ++ other) (dir ++ name) disk (λ e. append-ne dir ne (sym e));
    },
  );
  misses = λ name disk h plain gone.
      (disk, misses-from (dir ++ name) disk gone, h, record { same = λ other plain'. refl });
  lists = λ disk h. (
    names_in dir disk,
    refl,
    h,
    record {
      sound = λ name plain m. names_in_sound dir name disk m;
      complete = λ name plain there. names_in_complete dir name disk there;
    },
  );
}

pub empty-Holds : (dir : List ℕ) → (folder dir).Holds []
unfolding folder
empty-Holds dir = tt
