-- ===== src/Server/StartUp.antt =====
-- A start with the log that earlier runs left.
use rediskrazy.Base.{
  ℕ, suc, ◌+◌, ◌*◌, ◌<◌, ◌≤◌, ◌^◌, ◌≡◌, refl, sym, ap, subst, ◌∙◌, true, ◌⊎◌, inl, inr, Option,
  none, some, List, [], ◌∷◌, ◌++◌, length, arith, Ends, ends, Ends-bind, Ends-map, All,
}
use rediskrazy.Dict.{Chain, dict_init}
use rediskrazy.Dict.Growth.{fresh}
use rediskrazy.Dict.Contents.{IsDict}
use rediskrazy.Server.{Server}
use rediskrazy.Server.Dispatch.{Others}
use rediskrazy.Server.Main.{Files, new_server, load_dump, load_files, log_before, start_up}
use rediskrazy.Server.Strings.{Holds}
use rediskrazy.Server.Replay.{
  Op, IsSmall, apply, apply_all, records, length-apply, load_rounds-records, IsPlain, apply-IsPlain,
}
use rediskrazy.Server.Logs.{log_size, log_size-cons}
use rediskrazy.Server.Durable.{records-length, few_by_size, load_aof-rounds}

dict_init-IsDict : IsDict dict_init []
unfolding dict_init
dict_init-IsDict = record { contents = fresh refl refl refl refl refl refl; unique = tt }

pub new_server-Holds : (dump : Option (List ℕ)) → Holds (new_server dump) [] [] []
unfolding new_server
new_server-Holds dump = record {
  strings = dict_init-IsDict;
  zsets = dict_init-IsDict;
  hashes = dict_init-IsDict;
  small_zsets = omega arith;
  small_hashes = omega arith;
}

-- The keys do not depend on the log and the client.
pub opened-Holds :
    (s : Server) (l : Chain) (log : List ℕ)
    → Holds s l [] []
    → Holds (record s { aof = some log; client = true }) l [] []
opened-Holds s l log h = record {
  strings = h.strings;
  zsets = h.zsets;
  hashes = h.hashes;
  small_zsets = h.small_zsets;
  small_hashes = h.small_hashes;
}

pub log_size-append : (a b : List Op) → log_size (a ++ b) ≡ log_size a + log_size b
log_size-append [] b = omega arith
log_size-append (op ∷ a) b =
    omega (arith, log_size-cons op a, log_size-cons op (a ++ b), log_size-append a b)

pub apply_all-IsPlain : (l : Chain) (ops : List Op) → IsPlain l → IsPlain (apply_all l ops)
apply_all-IsPlain l [] h = h
apply_all-IsPlain l (op ∷ ops) h = apply_all-IsPlain (apply l op) ops (apply-IsPlain l op h)

pub length-apply_all :
    (l : Chain) (ops : List Op) → length (apply_all l ops) ≤ length l + length ops
length-apply_all l [] = omega arith
length-apply_all l (op ∷ ops) = omega (arith, length-apply l op, length-apply_all (apply l op) ops)

-- The log stands for the commands `ops`, though it may hold others, or there are no files and no commands.
pub record Kept (files : Files) (ops : List Op) : Type 0 where
  pub recs : List Op
  pub log :
      (files.appendonly ≡ some (records recs))
      ⊎ (files.appendonly ≡ none) × (files.dump ≡ none) × (recs ≡ [])
  pub effect : apply_all [] recs ≡ apply_all [] ops
  pub small : All IsSmall recs
  pub few : length recs ≤ 2 * length ops
  pub short : length (records recs) ≤ log_size ops

load_files-Kept :
    (others : Others) (files : Files) (ops : List Op) (now : ℕ) (k : Kept files ops)
    → log_size ops < 2 ^ 29
    → Ends
        (λ s. Holds s (apply_all [] ops) [] [] × (log_before files.appendonly ≡ records k.recs))
        (load_files others files now)
unfolding load_files load_dump new_server
load_files-Kept others files ops now k size = elim (k.log) [
  | inl e ↦ rw e (
      subst
        (λ o. Ends (λ s. Holds s (apply_all [] ops) [] [] × (records k.recs ≡ records k.recs)) o)
        (sym (
          load_aof-rounds others (new_server files.dump) (records k.recs) now
            (omega (arith, k.short))))
        (Ends-map
          (load_rounds-records others (suc (length (records k.recs))) (new_server files.dump) k.recs
            [] now (new_server-Holds files.dump) k.small (omega (arith, k.few, few_by_size ops))
            (omega (arith, records-length k.recs)))
          λ s h. (subst (λ c. Holds s c [] []) k.effect h, refl)))
  | inr (e, d, n) ↦
      rw (e, d)
        (ends (
          subst (λ c. Holds (new_server none) c [] []) (ap (apply_all []) (sym n) ∙ k.effect)
              (new_server-Holds none),
          sym (ap records n),
        ))
]

pub start_up-Kept :
    (others : Others) (files : Files) (ops : List Op) (now : ℕ) (k : Kept files ops)
    → log_size ops < 2 ^ 29
    → Ends
        (λ s. Holds s (apply_all [] ops) [] [] × (s.aof ≡ some (records k.recs)))
        (start_up others files now)
unfolding start_up
start_up-Kept others files ops now k size =
    Ends-bind (load_files-Kept others files ops now k size) λ s (h, e).
      ends (opened-Holds s (apply_all [] ops) (log_before files.appendonly) h, ap some e)
