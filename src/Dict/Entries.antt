-- ===== src/Dict/Entries.antt =====
-- The search for a key in a list of entries, with one entry for a key, up to the order of the list.
use mathlib.Core.Logic.{∥∥₁_elim}
use mathlib.Core.List.{Perm, Permᴰ}
use mathlib.Core.Path.{subst, subst₂}
use mathlib.Core.List.Perm
use mathlib.Core.HLevel.{×_prop, Π_prop}
use rediskrazy.Base.{
  ◌≡◌, refl, ◌∙◌, inl, inr, Option, none, some, [], ◌∷◌, ◌++◌, if◌then◌else◌, bytes_eq,
  bytes_eq_iff, Bool-cases, arith, ℕ_discrete,
}
use rediskrazy.Sds.{Sds}
use rediskrazy.Dict.{DictEntry, Chain, find, update_chain, remove_chain}

-- No key stands twice.
abbrev pub UniqueKeys : Chain → Type 0
UniqueKeys [] = Unit
UniqueKeys (e ∷ l) = (find e.key l ≡ none) × UniqueKeys l

Found-set : IsSet (Option DictEntry)
Found-set = hlevel ℕ_discrete

UniqueKeys-prop : (l : Chain) → IsProp (UniqueKeys l)
UniqueKeys-prop [] = hlevel
UniqueKeys-prop (e ∷ l) = ×_prop (Found-set _ _) (UniqueKeys-prop l)

pub find-cons :
    (k : Sds) (e : DictEntry) (l : Chain)
    → find k (e ∷ l) ≡ (if bytes_eq e.key k then some e else find k l)
unfolding find
find-cons k e l = refl

pub find-append :
    (k : Sds) (l m : Chain)
    → find k (l ++ m) ≡ elim (find k l) [ some e ↦ some e | none ↦ find k m ]
unfolding find
find-append k [] m = refl
find-append k (e ∷ l) m = ground (arith, find-append k l m)

-- Reordering entries with unique keys keeps them unique and changes no search.
abbrev SameSearch : Chain → Chain → Type 0
SameSearch l m = UniqueKeys l → UniqueKeys m × ((k : Sds) → find k m ≡ find k l)

SameSearch-swap : (a b : DictEntry) (l : Chain) → SameSearch (a ∷ b ∷ l) (b ∷ a ∷ l)
unfolding find
SameSearch-swap a b l (h, (h', u)) = (
  (
    ground (arith, bytes_eq_iff a.key b.key, bytes_eq_iff b.key a.key),
    (ground (arith, bytes_eq_iff a.key b.key, bytes_eq_iff b.key a.key), u),
  ),
  λ k. ground (
    arith,
    bytes_eq_iff a.key b.key,
    bytes_eq_iff b.key a.key,
    bytes_eq_iff a.key k,
    bytes_eq_iff b.key k,
  ),
)

SameSearch-cons : (a : DictEntry) (l m : Chain) → SameSearch l m → SameSearch (a ∷ l) (a ∷ m)
unfolding find
SameSearch-cons a l m f (h, u) = let (v, g) = f u in ((g a.key ∙ h, v), λ k. ground (arith, g k))

SameSearch-permᴰ : {l m : Chain} → Permᴰ l m → SameSearch l m
SameSearch-permᴰ Permᴰ.nil u = (u, λ k. refl)
SameSearch-permᴰ (Permᴰ.cons {a = a} {b = b} {l₁ = l₁} {l₂ = l₂} e p) u =
    subst (λ x. UniqueKeys (x ∷ l₂) × ((k : Sds) → find k (x ∷ l₂) ≡ find k (a ∷ l₁))) e
      (SameSearch-cons a l₁ l₂ (SameSearch-permᴰ p) u)
SameSearch-permᴰ (Permᴰ.swap {a = a} {b = b} {l = l} e e') u =
    subst₂ (λ x y. UniqueKeys (x ∷ y ∷ l) × ((k : Sds) → find k (x ∷ y ∷ l) ≡ find k (a ∷ b ∷ l)))
      e' e (SameSearch-swap a b l u)
SameSearch-permᴰ (Permᴰ.trans p q) u =
    let (v, f) = SameSearch-permᴰ p u in let (w, g) = SameSearch-permᴰ q v in (w, λ k. g k ∙ f k)

pub SameSearch-perm :
    {l m : Chain} → Perm l m → UniqueKeys l → UniqueKeys m × ((k : Sds) → find k m ≡ find k l)
SameSearch-perm {l} {m} p u =
    ∥∥₁_elim p (×_prop (UniqueKeys-prop m) (Π_prop λ k. Found-set _ _)) (λ q. SameSearch-permᴰ q u)

-- Removing the entry with a key from entries with unique keys.
pub find-remove_chain :
    (k j : Sds) (l : Chain)
    → UniqueKeys l
    → find j (remove_chain k l) ≡ (if bytes_eq k j then none else find j l)
unfolding find remove_chain
find-remove_chain k j [] u = ground arith
find-remove_chain k j (e ∷ l) (h, u) =
    ground (
      arith,
      find-remove_chain k j l u,
      bytes_eq_iff e.key k,
      bytes_eq_iff e.key j,
      bytes_eq_iff k j,
    )

pub remove_chain-UniqueKeys : (k : Sds) (l : Chain) → UniqueKeys l → UniqueKeys (remove_chain k l)
unfolding remove_chain
remove_chain-UniqueKeys k [] u = tt
remove_chain-UniqueKeys k (e ∷ l) (h, u) =
    ground (arith, remove_chain-UniqueKeys k l u, find-remove_chain k e.key l u)

-- Without the key nothing is removed.
pub remove_chain-missing : (k : Sds) (l : Chain) → find k l ≡ none → remove_chain k l ≡ l
unfolding find remove_chain
remove_chain-missing k [] h = refl
remove_chain-missing k (e ∷ l) h = ground (arith, remove_chain-missing k l)

pub remove_chain-append_left :
    (k : Sds) (l m : Chain) {e : DictEntry}
    → find k l ≡ some e
    → remove_chain k (l ++ m) ≡ remove_chain k l ++ m
unfolding find remove_chain
remove_chain-append_left k [] m h = cc
remove_chain-append_left k (x ∷ l) m {e} h = ground (arith, remove_chain-append_left k l m {e = e})

pub remove_chain-append_right :
    (k : Sds) (l m : Chain) → find k l ≡ none → remove_chain k (l ++ m) ≡ l ++ remove_chain k m
unfolding find remove_chain
remove_chain-append_right k [] m h = refl
remove_chain-append_right k (x ∷ l) m h = ground (arith, remove_chain-append_right k l m)

-- The entry found, in front of the others.
pub remove_chain-perm :
    (k : Sds) (l : Chain) (e : DictEntry) → find k l ≡ some e → Perm (e ∷ remove_chain k l) l
unfolding find remove_chain
remove_chain-perm k [] e h = cc
remove_chain-perm k (x ∷ l) e h = elim (Bool-cases (bytes_eq x.key k)) [
  | inl y ↦
      let same : x ≡ e = ground arith in
      rw y (subst (λ z. Perm (z ∷ l) (x ∷ l)) same (Perm.refl (x ∷ l)))
  | inr n ↦
      let deeper : find k l ≡ some e = ground arith in
      rw n (Perm.trans (Perm.swap x e _) (Perm.cons x (remove_chain-perm k l e deeper)))
]

-- The entry found is the one that is updated, in front of the others.
pub update_chain-perm :
    (k : Sds) (f : DictEntry → DictEntry) (l : Chain) (e : DictEntry)
    → find k l ≡ some e
    → Perm (f e ∷ remove_chain k l) (update_chain k f l)
unfolding find remove_chain update_chain
update_chain-perm k f [] e h = cc
update_chain-perm k f (x ∷ l) e h = elim (Bool-cases (bytes_eq x.key k)) [
  | inl y ↦
      let same : x ≡ e = ground arith in
      rw y (subst (λ z. Perm (f z ∷ l) (f x ∷ l)) same (Perm.refl (f x ∷ l)))
  | inr n ↦
      let deeper : find k l ≡ some e = ground arith in
      rw n (Perm.trans (Perm.swap x (f e) _) (Perm.cons x (update_chain-perm k f l e deeper)))
]

pub key_of_find : (k : Sds) (l : Chain) (e : DictEntry) → find k l ≡ some e → e.key ≡ k
unfolding find
key_of_find k [] e h = cc
key_of_find k (x ∷ l) e h = ground (arith, key_of_find k l e, bytes_eq_iff x.key k)

-- Removing a key respects the order of entries.
pub remove_chain-respects :
    (k : Sds) (l m : Chain) → Perm l m → UniqueKeys l → Perm (remove_chain k l) (remove_chain k m)
remove_chain-respects k l m p u = go (find k l) refl
  where
    go : (o : Option DictEntry) → find k l ≡ o → Perm (remove_chain k l) (remove_chain k m)
    go none h =
        rw (remove_chain-missing k l h, remove_chain-missing k m ((SameSearch-perm p u).1 k ∙ h)) p
    go (some e) h = Perm.cons_inv {a = e} (
        Perm.trans (remove_chain-perm k l e h)
          (Perm.trans p (Perm.symm (remove_chain-perm k m e ((SameSearch-perm p u).1 k ∙ h)))))

pub UniqueKeys-left : (l m : Chain) → UniqueKeys (l ++ m) → UniqueKeys l
UniqueKeys-left [] m u = tt
UniqueKeys-left (e ∷ l) m (h, u) = (ground (arith, find-append e.key l m), UniqueKeys-left l m u)

pub UniqueKeys-right : (l m : Chain) → UniqueKeys (l ++ m) → UniqueKeys m
UniqueKeys-right [] m u = u
UniqueKeys-right (e ∷ l) m (h, u) = UniqueKeys-right l m u
