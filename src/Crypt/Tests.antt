-- ===== src/Crypt/Tests.antt =====
-- Runs of the registry and of the delayed release, and the theorems at concrete ciphers and keys.
use rtl8190p.Common.{◌+◌, ◌≡◌, refl, true, false, some, [], ◌∷◌, count, bytes_eq}
use rtl8190p.Crypt.{
  CryptoOps, ok, register_crypto_ops, unregister_crypto_ops, get_crypto_ops, CryptData, Deinit,
  crypt_delayed_deinit, crypt_deinit_handler, crypt_deinit_entries,
}
use rtl8190p.Crypt.Registry.{get_crypto_ops-register, unregister-register}
use rtl8190p.Crypt.Release.{
  IsDeinit, here, next, gives_up, fires, Reach-IsDeinit, crypt_deinit_entries-keys, keys,
}

abbrev wep : CryptoOps
wep = record { address = 16; name = 87 ∷ 69 ∷ 80 ∷ [] }

abbrev tkip : CryptoOps
tkip = record { address = 32; name = 84 ∷ 75 ∷ 73 ∷ 80 ∷ [] }

runs_found : get_crypto_ops wep.name (some (tkip ∷ wep ∷ [])) ≡ some wep
unfolding get_crypto_ops bytes_eq
runs_found = refl

get_crypto_ops-register_example :
    get_crypto_ops tkip.name (register_crypto_ops true tkip (some (wep ∷ []))).1 ≡ some tkip
unfolding bytes_eq
get_crypto_ops-register_example = get_crypto_ops-register true tkip (wep ∷ []) tkip.name

unregister-register_example :
    unregister_crypto_ops tkip (register_crypto_ops true tkip (some (wep ∷ []))).1
    ≡ (ok, some (wep ∷ []))
unregister-register_example = unregister-register tkip (wep ∷ [])

abbrev busy : CryptData
busy = record { key = 3; refcnt = 1 }

abbrev idle : CryptData
idle = record { key = 4; refcnt = 0 }

abbrev empty : Deinit
empty = record { crypt_deinit_list = []; crypt_deinit_timer = false; released = [] }

abbrev one : Deinit
one = (crypt_delayed_deinit (some busy) empty).1

abbrev two : Deinit
two = (crypt_delayed_deinit (some idle) one).1

abbrev fired : Deinit
fired = crypt_deinit_handler two

runs_pending : two.crypt_deinit_timer ≡ true
unfolding crypt_delayed_deinit
runs_pending = refl

runs_keeps_busy : (fired.crypt_deinit_list ≡ busy ∷ []) × (fired.released ≡ idle ∷ [])
unfolding crypt_delayed_deinit crypt_deinit_handler
runs_keeps_busy = (refl, refl)

Reach-IsDeinit_example : IsDeinit fired
Reach-IsDeinit_example =
    Reach-IsDeinit {s = empty} {t = fired} (record { timer = λ ne. absurd (ne refl); idle = tt })
      (next (next (next here (gives_up (some busy) empty)) (gives_up (some idle) one))
        (fires two runs_pending))

crypt_deinit_entries-keys_example :
    let d = crypt_deinit_entries true two in
    (count 3 (keys d.crypt_deinit_list) + count 3 (keys d.released)
      ≡ count 3 (keys two.crypt_deinit_list) + count 3 (keys two.released))
    × (true ≡ true → d.crypt_deinit_list ≡ [])
crypt_deinit_entries-keys_example = crypt_deinit_entries-keys true two 3
