-- ===== src/Store/Sealed.antt =====
-- A store of sealed files stays one.
use mefsc.Common.{ℕ, ap, ◌≡◌, sym, ◌∙◌, Option, none, some, List, Bool-cases, inl, inr}
use mefsc.CText.{same_text, same_text-eq, same_text-ne}
use mefsc.Store.{
  Entry, IsEntry, contents_of, Files, IsUpdate, IsSame, Request, Reply, Does, IsFair, IsSealed,
}

some-same : {a b : List ℕ} → some a ≡ some b → b ≡ a
some-same e = cc

update-IsSealed :
    (rounds : ℕ) {s t : Files} {name : List ℕ} (contents : Option (List ℕ))
    → IsSealed rounds s
    → IsUpdate s name contents t
    → ((c : List ℕ) → contents ≡ some c → (e : Entry) × IsEntry rounds e × (c ≡ contents_of e))
    → IsSealed rounds t
update-IsSealed rounds {t = t} {name = name} contents h u k other c p e =
    elim (Bool-cases (same_text name other)) [
      | inl same ↦ k c (sym u.there ∙ ap t (same_text-eq name other same) ∙ e)
      | inr different ↦
          h other c p (sym (u.elsewhere other p (same_text-ne name other different)) ∙ e)
    ]

same-IsSealed : (rounds : ℕ) {s t : Files} → IsSealed rounds s → IsSame s t → IsSealed rounds t
same-IsSealed rounds h u other c p e = h other c p (sym (u.same other p) ∙ e)

-- Whatever a fair request does, the files are sealed after it.
pub Does-IsSealed :
    (rounds : ℕ) {s t : Files} {q : Request} {r : Reply}
    → Does rounds s q r t
    → IsFair rounds q
    → IsSealed rounds s
    → IsSealed rounds t
Does-IsSealed rounds (Does.uploads {e = e} u) (l, n, p, w) h =
    update-IsSealed rounds (some (contents_of e)) h u (λ c k. (e, w, some-same k))
Does-IsSealed rounds (Does.sends f w u) q h = same-IsSealed rounds h u
Does-IsSealed rounds (Does.sends_nothing f u) q h = same-IsSealed rounds h u
Does-IsSealed rounds (Does.lists f u) q h = same-IsSealed rounds h u
Does-IsSealed rounds (Does.deletes f u) q h = update-IsSealed rounds none h u (λ c k. absurd (cc))
Does-IsSealed rounds (Does.deletes_nothing f u) q h = same-IsSealed rounds h u
