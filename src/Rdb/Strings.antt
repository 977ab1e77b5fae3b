-- ===== src/Rdb/Strings.antt =====
-- A snapshot of strings, as rdb_load reads it.
use mathlib.Core.List.Perm
use mathlib.Core.List.{Perm}
use rediskrazy.Base.{
  ◌>>=◌, ℕ, zero, suc, ◌+◌, ◌<◌, ◌≤◌, ◌^◌, ◌%◌, ◌≡◌, refl, sym, ap, subst, ◌∙◌, true, false, Option,
  none, some, List, [], ◌∷◌, ◌++◌, ltb, length, drop, take-append, drop-append, length-append,
  arith, bytes_eq, Ends, ends, Ends-bind, append-nil, append_assoc, All,
}
use rediskrazy.Base.Int.{pos}
use rediskrazy.Base.Perm.{length-perm}
use rediskrazy.Sds.{Sds}
use rediskrazy.Dict.{DictEntry, Chain, Dict, dict_put}
use rediskrazy.Dict.Entries.{UniqueKeys, SameSearch-perm}
use rediskrazy.Dict.Contents.{put_entry, removed-le, dict_put_correct}
use rediskrazy.Zset.{bytes_of, number_of}
use rediskrazy.Zset.Add.{number_of-front, drop-bytes_of}
use rediskrazy.Server.{Server}
use rediskrazy.Server.Hashes.{entries_of}
use rediskrazy.Server.Rewrite.{is_kept}
use rediskrazy.Server.Strings.{Holds, plain_entry}
use rediskrazy.Server.Replay.{IsPlain}
use rediskrazy.Server.Rewritten.{entries_of-perm, IsPlain-perm, Holds-perm, put_all, put_all-perm}
use rediskrazy.Rdb.{
  rdb_magic, write_string, save_strings, save_zsets, save_hashes, rdb_save, read_string, put_read,
  load_string, load_records, rdb_load,
}

abbrev pub IsShort : DictEntry → Type 0
IsShort e = (length e.key < 2 ^ 32) × (length e.val < 2 ^ 32)

read_string-parts :
    (file a rest : List ℕ)
    → number_of 4 file ≡ some (length a)
    → drop 4 file ≡ a ++ rest
    → read_string file ≡ (some a, rest)
unfolding read_string
read_string-parts file a rest n d =
    let enough : ltb (length (a ++ rest)) (length a) ≡ false = ltb_false (length-append a rest) in
    rw (read_string, n, d, enough, take-append a rest, drop-append a rest) refl
  where
    ltb_false :
        length (a ++ rest) ≡ length a + length rest → ltb (length (a ++ rest)) (length a) ≡ false
    ltb_false e = ground (arith, e)

-- A string is read back from the front of the file.
read_string-front :
    (a : Sds) (rest : List ℕ)
    → length a < 2 ^ 32
    → read_string (write_string a ++ rest) ≡ (some a, rest)
unfolding write_string
read_string-front a rest h =
    let head : List ℕ = bytes_of 4 (length a % 2 ^ 32) in
    let front : (head ++ a) ++ rest ≡ head ++ (a ++ rest) = append_assoc head a rest in
    read_string-parts ((head ++ a) ++ rest) a rest
      (ap (number_of 4) front
        ∙ number_of-front 4 (length a % 2 ^ 32) (a ++ rest) (omega arith)
        ∙ ap some (omega arith))
      (ap (drop 4) front ∙ drop-bytes_of 4 (length a % 2 ^ 32) (a ++ rest))

abbrev put_string : Server → List ℕ → Dict → Option (Server × List ℕ)
put_string s rest d = some (record s { g_data = d }, rest)

load_string-parts :
    (s : Server) (e : DictEntry) (rest : List ℕ) (now : ℕ) (file file' : List ℕ)
    → read_string file ≡ (some e.key, file')
    → read_string file' ≡ (some e.val, rest)
    → load_string s file now ≡ (dict_put s.g_data e.key e.val (pos 0) now >>= put_string s rest)
unfolding load_string
load_string-parts s e rest now file file' k v =
    ap (λ k. put_read s k.0 (read_string k.1).0 (read_string k.1).1 now) k
    ∙ ap (λ v. put_read s (some e.key) v.0 v.1 now) v

-- A record of a string is put into the dictionary.
load_string-front :
    (s : Server) (e : DictEntry) (rest : List ℕ) (now : ℕ)
    → IsShort e
    → load_string s (write_string e.key ++ (write_string e.val ++ rest)) now
      ≡ (dict_put s.g_data e.key e.val (pos 0) now >>= put_string s rest)
load_string-front s e rest now (h, h') =
    load_string-parts s e rest now (write_string e.key ++ (write_string e.val ++ rest))
      (write_string e.val ++ rest) (read_string-front e.key (write_string e.val ++ rest) h)
      (read_string-front e.val rest h')

bind_assoc :
    (o : Option Dict) (s : Server) (rest : List ℕ) (k : Server → List ℕ → Option Server)
    → ((o >>= put_string s rest) >>= λ (s, file). k s file)
      ≡ (o >>= λ d. k (record s { g_data = d }) rest)
bind_assoc none s rest k = refl
bind_assoc (some d) s rest k = refl

load_records-string :
    (rounds : ℕ) (s : Server) (e : DictEntry) (rest : List ℕ) (now : ℕ)
    → IsShort e
    → load_records (suc rounds) s (0 ∷ (write_string e.key ++ (write_string e.val ++ rest))) now ≡ (
        dict_put s.g_data e.key e.val (pos 0) now >>= λ d.
        load_records rounds (record s { g_data = d }) rest now)
unfolding load_records
load_records-string rounds s e rest now h =
    ap (λ o. o >>= λ (s, file). load_records rounds s file now) (load_string-front s e rest now h)
    ∙ bind_assoc (dict_put s.g_data e.key e.val (pos 0) now) s rest
        (λ s file. load_records rounds s file now)

load_records-end :
    (rounds : ℕ) (s : Server) (now : ℕ) → load_records (suc rounds) s (255 ∷ []) now ≡ some s
unfolding load_records
load_records-end rounds s now = refl

save_strings-plain :
    (now : ℕ) (e : DictEntry) (l : Chain)
    → e.expire ≡ 0
    → save_strings now (e ∷ l)
      ≡ 0 ∷ (write_string e.key ++ (write_string e.val ++ save_strings now l))
unfolding save_strings
save_strings-plain now e l h = rw (is_kept, h) refl

save_strings-nil : (now : ℕ) → save_strings now [] ≡ []
unfolding save_strings
save_strings-nil now = refl

save_strings-append :
    (now : ℕ) (e : DictEntry) (l : Chain)
    → e.expire ≡ 0
    → save_strings now (e ∷ l) ++ (255 ∷ [])
      ≡ 0 ∷ (write_string e.key ++ (write_string e.val ++ (save_strings now l ++ (255 ∷ []))))
save_strings-append now e l h =
    ap (λ x. x ++ (255 ∷ [])) (save_strings-plain now e l h)
    ∙ ap (◌∷◌ 0) (
        append_assoc (write_string e.key) (write_string e.val ++ save_strings now l) (255 ∷ [])
        ∙ ap (◌++◌ (write_string e.key))
            (append_assoc (write_string e.val) (save_strings now l) (255 ∷ [])))

load_records-strings :
    (rounds : ℕ) (s : Server) (l m : Chain) (now later : ℕ)
    → Holds s m [] []
    → IsPlain l
    → All IsShort l
    → length m + length l < 2 ^ 60
    → length l < rounds
    → Ends
        (λ s'. Holds s' (put_all m l) [] [])
        (load_records rounds s (save_strings now l ++ (255 ∷ [])) later)
load_records-strings zero s l m now later h a short size r = absurd (omega arith)
load_records-strings (suc rounds) s [] m now later h a short size r =
    subst (λ x. Ends (λ s'. Holds s' m [] []) (load_records (suc rounds) s (x ++ (255 ∷ [])) later))
      (sym (save_strings-nil now))
      (subst (Ends (λ s'. Holds s' m [] [])) (sym (load_records-end rounds s later)) (ends h))
load_records-strings (suc rounds) s (e ∷ l) m now later h (p, a) (q, short) size r =
    subst (Ends _)
      (sym (
        ap (λ x. load_records (suc rounds) s x later) (save_strings-append now e l p)
        ∙ load_records-string rounds s e (save_strings now l ++ (255 ∷ [])) later q))
      (Ends-bind (dict_put_correct s.g_data m e.key e.val (pos 0) later h.strings (omega arith))
        λ d w.
          load_records-strings rounds (record s { g_data = d }) l
            (put_entry (plain_entry e.key e.val) m) now later
            (record {
              strings = w;
              zsets = h.zsets;
              hashes = h.hashes;
              small_zsets = h.small_zsets;
              small_hashes = h.small_hashes;
            })
            a short (omega (arith, removed-le e.key m)) (omega arith))

-- Nothing of the sorted sets and hashes is saved, where there are none.
pub rdb_save-strings :
    (s : Server) (l : Chain) (now : ℕ)
    → Holds s l [] []
    → Ends
        (λ file. file ≡ rdb_magic ++ (save_strings now (entries_of s.g_data) ++ (255 ∷ [])))
        (rdb_save s now)
unfolding rdb_save save_zsets save_hashes
rdb_save-strings s l now h =
    let none_left = Perm.eq-nil (entries_of-perm s.g_zsets [] h.zsets.contents) in
    let none_left' = Perm.eq-nil (entries_of-perm s.g_hashes [] h.hashes.contents) in
    rw (none_left, none_left') (ends refl)

-- A file with the magic string in front is read.
rdb_load-magic :
    (s : Server) (body : List ℕ) (now : ℕ)
    → rdb_load s (rdb_magic ++ body) now
      ≡ (load_records (suc (length (rdb_magic ++ body))) s body now >>= λ s. some (s, true))
unfolding rdb_load bytes_eq
rdb_load-magic s body now = refl

save_strings-length : (now : ℕ) (l : Chain) → IsPlain l → length l ≤ length (save_strings now l)
save_strings-length now [] a = omega arith
save_strings-length now (e ∷ l) (h, a) = omega (
  arith,
  ap length (save_strings-plain now e l h),
  length-append (write_string e.key) (write_string e.val ++ save_strings now l),
  length-append (write_string e.val) (save_strings now l),
  save_strings-length now l a,
)

-- rdb_save, of a server that has only strings, none of them with an expiry, with keys and values below 2 ^ 32 bytes: it ends, and
-- rdb_load of the file into a server without keys ends with the result 0, and with the same strings.
pub rdb_load-rdb_save :
    (s r : Server) (l : Chain) (now later : ℕ)
    → Holds s l [] []
    → IsPlain l
    → All IsShort (entries_of s.g_data)
    → length l < 2 ^ 60
    → Holds r [] [] []
    → Ends
        (λ x. Holds x.0 l [] [] × (x.1 ≡ true))
        (rdb_save s now >>= λ file. rdb_load r file later)
rdb_load-rdb_save s r l now later h plain short size hr =
    let p : Perm (entries_of s.g_data) l = entries_of-perm s.g_data l h.strings.contents in
    Ends-bind (rdb_save-strings s l now h) λ file e.
      subst (λ f. Ends (λ x. Holds x.0 l [] [] × (x.1 ≡ true)) (rdb_load r f later)) (sym e)
        (read_back (entries_of s.g_data) p (IsPlain-perm (Perm.symm p) plain) short)
  where
    read_back :
        (m : Chain)
        → Perm m l
        → IsPlain m
        → All IsShort m
        → Ends
            (λ x. Holds x.0 l [] [] × (x.1 ≡ true))
            (rdb_load r (rdb_magic ++ (save_strings now m ++ (255 ∷ []))) later)
    read_back m p a short =
        let u : UniqueKeys m = (SameSearch-perm (Perm.symm p) h.strings.unique).0 in
        let made : Perm (put_all [] m) l =
          Perm.trans (put_all-perm m [] a (subst UniqueKeys (sym (append-nil m)) u))
            (subst (λ x. Perm x l) (sym (append-nil m)) p) in
        let body : List ℕ = save_strings now m ++ (255 ∷ []) in
        subst (Ends _) (sym (rdb_load-magic r body later)) (
          Ends-bind
            (load_records-strings (suc (length (rdb_magic ++ body))) r m [] now later hr a short
              (omega (arith, length-perm p))
              (omega (
                arith,
                length-append rdb_magic body,
                length-append (save_strings now m) (255 ∷ []),
                save_strings-length now m a,
              )))
            λ r' x. ends (Holds-perm r' (put_all [] m) l x made h.strings.unique, refl))
