-- ===== src/Crypt/Registry.antt =====
-- What the cipher registry gives for a name.
use rtl8190p.Common.{
  ℕ, ◌+◌, ◌==◌, ◌≡◌, ◌∙◌, sym, ap, inl, inr, refl, arith, if◌then◌else◌, Bool, true, false,
}
use rtl8190p.Common.{
  none, some, List, [], ◌∷◌, bytes_eq, ==_refl, Bool-cases, Option-cases, count, count-cons,
  count-nil,
}
use rtl8190p.Crypt.{
  CryptoOps, ok, fails, register_crypto_ops, unregister_crypto_ops, delete_alg, get_crypto_ops,
  find_alg,
}

-- After a registration a name is looked up to the cipher that was registered if it has that name,
-- and to what it was looked up to before if not; with no room nothing changes.
pub get_crypto_ops-register :
    (room : Bool) (ops : CryptoOps) (algs : List CryptoOps) (name : List ℕ)
    → get_crypto_ops name (register_crypto_ops room ops (some algs)).1 ≡ (
        if room
        then if bytes_eq ops.name name then some ops else get_crypto_ops name (some algs)
        else get_crypto_ops name (some algs))
unfolding register_crypto_ops get_crypto_ops find_alg
get_crypto_ops-register true ops algs name = refl
get_crypto_ops-register false ops algs name = refl

-- A cipher that is registered and unregistered again leaves the registry as it was, earlier
-- registrations of the same cipher included.
pub unregister-register :
    (ops : CryptoOps) (algs : List CryptoOps)
    → unregister_crypto_ops ops (register_crypto_ops true ops (some algs)).1 ≡ (ok, some algs)
unfolding register_crypto_ops unregister_crypto_ops delete_alg
unregister-register ops algs = rw (unregister_crypto_ops, ==_refl ops.address) refl

-- The addresses of what is registered.
pub addresses : List CryptoOps → List ℕ
addresses [] = []
addresses (a ∷ algs) = a.address ∷ addresses algs

delete_alg-some :
    (ops : CryptoOps) (algs left : List CryptoOps) (a : ℕ)
    → delete_alg ops algs ≡ some left
    → count a (addresses algs) ≡ count a (addresses left) + (if ops.address == a then 1 else 0)
unfolding delete_alg addresses
delete_alg-some ops [] left a h = cc
delete_alg-some ops (x ∷ algs) left a h = elim (Bool-cases (x.address == ops.address)) [
  | inl same ↦
      let shorter : algs ≡ left = ground (arith, same) in
      let here : x.address ≡ ops.address = ground arith in
      rw⁻¹ shorter (rw⁻¹ here (omega (arith, count-cons a x.address (addresses algs))))
  | inr other ↦ elim (Option-cases (delete_alg ops algs)) [
    | inl missing ↦ absurd (ground (arith, other, missing))
    | inr (rest, found) ↦
        let longer : x ∷ rest ≡ left = ground (arith, other, found) in
        rw⁻¹ longer (
          omega (
            arith,
            delete_alg-some ops algs rest a found,
            count-cons a x.address (addresses algs),
            count-cons a x.address (addresses rest),
          ))
  ]
]

delete_alg-none :
    (ops : CryptoOps) (algs : List CryptoOps)
    → delete_alg ops algs ≡ none
    → count ops.address (addresses algs) ≡ 0
unfolding delete_alg addresses
delete_alg-none ops [] h = count-nil ops.address
delete_alg-none ops (x ∷ algs) h = elim (Bool-cases (x.address == ops.address)) [
  | inl same ↦ absurd (ground (arith, same))
  | inr other ↦
      let below = delete_alg-none ops algs (ground (arith, other)) in
      count-cons ops.address x.address (addresses algs) ∙ rw other (omega (arith, below))
]

-- rtllib_unregister_crypto_ops succeeds exactly when the cipher is registered, and then takes away
-- one registration of it and of no other cipher.
pub unregister_crypto_ops_lem :
    (ops : CryptoOps) (algs left : List CryptoOps) (a : ℕ)
    → (unregister_crypto_ops ops (some algs) ≡ (ok, some left)
        → count a (addresses algs) ≡ count a (addresses left) + (if ops.address == a then 1 else 0))
      × ((unregister_crypto_ops ops (some algs)).0 ≡ fails → count ops.address (addresses algs) ≡ 0)
unfolding unregister_crypto_ops
unregister_crypto_ops_lem ops algs left a = elim (Option-cases (delete_alg ops algs)) [
  | inl missing ↦ (
    λ h.
        let run : unregister_crypto_ops ops (some algs) ≡ (fails, some algs) =
          rw (unregister_crypto_ops, missing) refl in
        absurd (let no = ap (λ q. q.0) (sym run ∙ h) in cc),
    λ h. delete_alg-none ops algs missing,
  )
  | inr (rest, found) ↦
      let run : unregister_crypto_ops ops (some algs) ≡ (ok, some rest) =
        rw (unregister_crypto_ops, found) refl in
      (
        λ h.
            let same : some rest ≡ some left = ap (λ q. q.1) (sym run ∙ h) in
            delete_alg-some ops algs left a (found ∙ same),
        λ h. absurd (let no = sym (ap (λ q. q.0) run) ∙ h in cc),
      )
]
