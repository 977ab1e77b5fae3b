-- ===== src/Server/Gone.antt =====
-- Keys that serverCron takes out: no key is new, and a key that is taken from the heap has no entry left that is due.
use rediskrazy.Base.{
  ℕ, ◌≡◌, refl, sym, ap, ◌∙◌, ◌⊎◌, inl, inr, Bool, false, ◌&&◌, Option, none, some, if◌then◌else◌,
  ltb, leb, arith, bytes_eq, bytes_eq_iff, Bool-cases,
}
use rediskrazy.Sds.{Sds}
use rediskrazy.Dict.{DictEntry, Chain, find, remove_chain, is_expired}
use rediskrazy.Dict.Entries.{UniqueKeys, find-remove_chain}
use rediskrazy.Dict.Contents.{expire_entry, live_entry, unless_expired}
use rediskrazy.Dict.Expiry.{expiry_at, value_of}

-- The expiry has come.
abbrev pub is_due : ℕ → DictEntry → Bool
is_due now e = ltb 0 e.expire && leb e.expire now

abbrev pub pending : ℕ → Option DictEntry → Option DictEntry
pending now none = none
pending now (some e) = if is_due now e then none else some e

-- Every key has the same entry as before, or none.
abbrev pub NoNew : Chain → Chain → Type 0
NoNew l l' = (k : Sds) → (find k l' ≡ find k l) ⊎ (find k l' ≡ none)

-- The key has no entry that is due.
abbrev pub NotDue : ℕ → Chain → Sds → Type 0
NotDue now l k = pending now (find k l) ≡ find k l

pub NoNew-trans : (l m n : Chain) → NoNew l m → NoNew m n → NoNew l n
NoNew-trans l m n a b k = elim (b k) [
  | inr e ↦ inr e
  | inl e ↦ elim (a k) [ inr e' ↦ inr (e ∙ e') | inl e' ↦ inl (e ∙ e') ]
]

pub NoNew-same : (l : Chain) → NoNew l l
NoNew-same l k = inl refl

missing-NotDue : (now : ℕ) (l : Chain) (k : Sds) → find k l ≡ none → NotDue now l k
missing-NotDue now l k e = ap (pending now) e ∙ sym e

pub NoNew-NotDue :
    (now : ℕ) (l l' : Chain) (k : Sds) → NoNew l l' → NotDue now l k → NotDue now l' k
NoNew-NotDue now l l' k a d = elim (a k) [
  | inl e ↦ ap (pending now) e ∙ d ∙ sym e
  | inr e ↦ missing-NotDue now l' k e
]

-- A key without a live entry does not get one.
pub NoNew-live :
    (now : ℕ) (l l' : Chain) (k : Sds)
    → NoNew l l'
    → value_of (live_entry now k l) ≡ none
    → value_of (live_entry now k l') ≡ none
NoNew-live now l l' k a d = elim (a k) [
  | inl e ↦ ap (λ o. value_of (unless_expired now o)) e ∙ d
  | inr e ↦ ap (λ o. value_of (unless_expired now o)) e
]

pub remove_chain-NoNew : (key : Sds) (l : Chain) → UniqueKeys l → NoNew l (remove_chain key l)
remove_chain-NoNew key l u k = elim (Bool-cases (bytes_eq key k)) [
  | inl y ↦ inr (find-remove_chain key k l u ∙ ground (arith, y))
  | inr n ↦ inl (find-remove_chain key k l u ∙ ground (arith, n))
]

removed_missing : (key : Sds) (l : Chain) → UniqueKeys l → find key (remove_chain key l) ≡ none
removed_missing key l u =
    find-remove_chain key key l u ∙ ground (arith, (bytes_eq_iff key key).1 refl)

pub removed-NotDue :
    (now : ℕ) (key : Sds) (l : Chain) → UniqueKeys l → NotDue now (remove_chain key l) key
removed-NotDue now key l u = missing-NotDue now (remove_chain key l) key (removed_missing key l u)

pub expire_entry-NoNew :
    (now : ℕ) (key : Sds) (l : Chain) → UniqueKeys l → NoNew l (expire_entry now key l)
expire_entry-NoNew now key l u = go (find key l) refl
  where
    go : (o : Option DictEntry) → find key l ≡ o → NoNew l (expire_entry now key l)
    go none e = rw (expire_entry, e) (NoNew-same l)
    go (some x) e = elim (Bool-cases (is_expired now x)) [
      | inl y ↦ rw (expire_entry, e, y) (remove_chain-NoNew key l u)
      | inr n ↦ rw (expire_entry, e, n) (NoNew-same l)
    ]

-- A lookup that finds nothing leaves no entry of the key.
pub lookup-NotDue :
    (now : ℕ) (key : Sds) (l : Chain)
    → UniqueKeys l
    → value_of (live_entry now key l) ≡ none
    → NotDue now (expire_entry now key l) key
lookup-NotDue now key l u h = go (find key l) refl
  where
    go : (o : Option DictEntry) → find key l ≡ o → NotDue now (expire_entry now key l) key
    go none e = rw (expire_entry, e) (missing-NotDue now l key e)
    go (some x) e = elim (Bool-cases (is_expired now x)) [
      | inl y ↦ rw (expire_entry, e, y) (removed-NotDue now key l u)
      | inr n ↦ absurd (differ (sym (ap (λ o. value_of (unless_expired now o)) e ∙ rw n refl) ∙ h))
    ]
      where
        differ : some x.val ≡ none → ⊥
        differ e = cc

-- A lookup whose expiry is not due.
pub expiry-NotDue :
    (now exp : ℕ) (key : Sds) (l : Chain)
    → UniqueKeys l
    → exp ≡ expiry_at (live_entry now key l)
    → ltb 0 exp && leb exp now ≡ false
    → NotDue now (expire_entry now key l) key
expiry-NotDue now exp key l u h d = go (find key l) refl
  where
    go : (o : Option DictEntry) → find key l ≡ o → NotDue now (expire_entry now key l) key
    go none e = rw (expire_entry, e) (missing-NotDue now l key e)
    go (some x) e = elim (Bool-cases (is_expired now x)) [
      | inl y ↦ rw (expire_entry, e, y) (removed-NotDue now key l u)
      | inr n ↦
          let same : exp ≡ x.expire =
            h ∙ ap (λ o. expiry_at (unless_expired now o)) e ∙ rw n refl in
          rw (expire_entry, e, n) (ap (pending now) e ∙ ground (arith, d, same) ∙ sym e)
    ]
