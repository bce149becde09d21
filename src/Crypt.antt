-- ===== src/Crypt.antt =====
-- The cipher registry and the delayed release of keys, src/rtllib_crypt.c.
pub mod Registry
pub mod Release
mod Tests
use rtl8190p.Common.{ℕ, ◌+◌, ◌==◌, if◌then◌else◌, Bool, true, false, not, ◌&&◌}
use rtl8190p.Common.{Option, none, some, List, [], ◌∷◌, ◌++◌, bytes_eq}

-- rtllib_crypto_ops: the address of the structure, and its name.
pub record CryptoOps : Type 0 where
  pub address : ℕ
  pub name : List ℕ

-- `hcrypt`: not there, or with the list `algs` of what is registered.
abbrev pub Hcrypt : Type 0
Hcrypt = Option (List CryptoOps)

-- What the routines return: 0, -1 and -ENOMEM.
pub data Ret : Type 0 where
  ok fails no_memory : Ret

-- rtllib_register_crypto_ops; `room` is whether kmalloc succeeds.
pub register_crypto_ops : Bool → CryptoOps → Hcrypt → Ret × Hcrypt
register_crypto_ops room ops none = (fails, none)
register_crypto_ops room ops (some algs) =
    if room then (ok, some (ops ∷ algs)) else (no_memory, some algs)

-- The walk of rtllib_unregister_crypto_ops: the list less the first registration of `ops`.
pub delete_alg : CryptoOps → List CryptoOps → Option (List CryptoOps)
delete_alg ops [] = none
delete_alg ops (a ∷ algs) =
    let rest = delete_alg ops algs in
    if a.address == ops.address
    then some algs
    else elim rest [ none ↦ none | some left ↦ some (a ∷ left) ]

-- rtllib_unregister_crypto_ops
pub unregister_crypto_ops : CryptoOps → Hcrypt → Ret × Hcrypt
unfolding delete_alg
unregister_crypto_ops ops none = (fails, none)
unregister_crypto_ops ops (some algs) = elim (delete_alg ops algs) [
  | none ↦ (fails, some algs)
  | some left ↦ (ok, some left)
]

-- The walk of rtllib_get_crypto_ops.
pub find_alg : List ℕ → List CryptoOps → Option CryptoOps
find_alg name [] = none
find_alg name (a ∷ algs) = if bytes_eq a.name name then some a else find_alg name algs

-- rtllib_get_crypto_ops
pub get_crypto_ops : List ℕ → Hcrypt → Option CryptoOps
unfolding find_alg
get_crypto_ops name none = none
get_crypto_ops name (some algs) = find_alg name algs

-- rtllib_crypto_init, where `null` is rtllib_crypt_null.
pub crypto_init : CryptoOps → Bool → Bool → Ret × Hcrypt
unfolding register_crypto_ops
crypto_init null room room' =
    if room
    then elim (register_crypto_ops room' null (some [])).0 [
      | ok ↦ (register_crypto_ops room' null (some []))
      | fails ↦ (fails, none)
      | no_memory ↦ (no_memory, none)
    ]
    else (no_memory, none)

-- rtllib_crypt_data: its name here, and the operations under way on it.
pub record CryptData : Type 0 where
  pub key : ℕ
  pub refcnt : ℕ

-- What the device keeps of keys that are to be released: the list, whether the timer is pending,
-- and what was given to `deinit` and kfree.
pub record Deinit : Type 0 where
  pub crypt_deinit_list : List CryptData
  pub crypt_deinit_timer : Bool
  pub released : List CryptData

-- The loop of rtllib_crypt_deinit_entries: what stays in the list, and what is released.
pub deinit_loop : Bool → List CryptData → List CryptData × List CryptData
deinit_loop force [] = ([], [])
deinit_loop force (e ∷ es) =
    let rest = deinit_loop force es in
    if not (e.refcnt == 0) && not force then (e ∷ rest.0, rest.1) else (rest.0, e ∷ rest.1)

-- rtllib_crypt_deinit_entries
pub crypt_deinit_entries : Bool → Deinit → Deinit
unfolding deinit_loop
crypt_deinit_entries force d =
    let r = deinit_loop force d.crypt_deinit_list in
    record d { crypt_deinit_list = r.0; released = d.released ++ r.1 }

-- rtllib_crypt_deinit_handler, at which the timer is no longer pending.
pub crypt_deinit_handler : Deinit → Deinit
unfolding crypt_deinit_entries
crypt_deinit_handler d =
    let d' = crypt_deinit_entries false d in
    record d' { crypt_deinit_timer = elim d'.crypt_deinit_list [ [] ↦ false | x ∷ xs ↦ true ] }

-- rtllib_crypt_delayed_deinit on a slot for a key.
pub crypt_delayed_deinit : Option CryptData → Deinit → Option CryptData × Deinit
crypt_delayed_deinit none d = (none, d)
crypt_delayed_deinit (some c) d =
    (none, record d { crypt_deinit_list = c ∷ d.crypt_deinit_list; crypt_deinit_timer = true })
