-- ===== src/Crypt/Release.antt =====
-- Keys are released late enough, and all of them.
use rtl8190p.Common.{ℕ, ◌+◌, ◌-◌, ◌==◌, ◌≡◌, ◌≢◌, refl, arith, ap, inl, inr, if◌then◌else◌}
use rtl8190p.Common.{
  Bool, true, false, not, ◌&&◌, Option, none, some, List, [], ◌∷◌, ◌++◌, count, All,
}
use rtl8190p.Common.{Bool-cases, count-cons, count-nil}
use rtl8190p.Crypt.{
  CryptData, Deinit, deinit_loop, crypt_deinit_entries, crypt_deinit_handler, crypt_delayed_deinit,
}

-- The keys of a list.
pub keys : List CryptData → List ℕ
keys [] = []
keys (e ∷ es) = e.key ∷ keys es

-- An operation ends on a key: one reference less, wherever the key waits.
pub unref : ℕ → List CryptData → List CryptData
unref k [] = []
unref k (e ∷ es) = (if e.key == k then record e { refcnt = e.refcnt - 1 } else e) ∷ unref k es

-- What happens to the keys that are to be released: a slot is given up, the timer fires while it is
-- pending, or an operation ends on a key that waits.
pub data Step : Deinit → Deinit → Type 0 where
  gives_up : (c : Option CryptData) (d : Deinit) → Step d (crypt_delayed_deinit c d).1
  fires : (d : Deinit) → d.crypt_deinit_timer ≡ true → Step d (crypt_deinit_handler d)
  ends :
      (k : ℕ) (d : Deinit) → Step d (record d { crypt_deinit_list = unref k d.crypt_deinit_list })

pub data Reach (s : Deinit) : Deinit → Type 0 where
  here : Reach s s
  next : {t u : Deinit} → Reach s t → Step t u → Reach s u

-- While a key waits the timer is pending, and every key that was released was idle.
pub record IsDeinit (d : Deinit) : Type 0 where
  pub timer : d.crypt_deinit_list ≢ [] → d.crypt_deinit_timer ≡ true
  pub idle : All (λ e. e.refcnt ≡ 0) d.released

All-append :
    (xs ys : List CryptData)
    → All (λ e. e.refcnt ≡ 0) xs
    → All (λ e. e.refcnt ≡ 0) ys
    → All (λ e. e.refcnt ≡ 0) (xs ++ ys)
All-append [] ys a b = b
All-append (x ∷ xs) ys a b = (a.0, All-append xs ys a.1 b)

deinit_loop-idle : (es : List CryptData) → All (λ e. e.refcnt ≡ 0) (deinit_loop false es).1
unfolding deinit_loop
deinit_loop-idle [] = tt
deinit_loop-idle (e ∷ es) = elim (Bool-cases (e.refcnt == 0)) [
  | inl zero_refs ↦ rw zero_refs (ground arith, deinit_loop-idle es)
  | inr busy ↦ rw busy (deinit_loop-idle es)
]

non_empty : (xs : List CryptData) → xs ≢ [] → elim xs [ [] ↦ false | y ∷ ys ↦ true ] ≡ true
non_empty [] ne = absurd (ne refl)
non_empty (x ∷ xs) ne = refl

handler-timer :
    (d : Deinit)
    → (crypt_deinit_handler d).crypt_deinit_list ≢ []
    → (crypt_deinit_handler d).crypt_deinit_timer ≡ true
unfolding crypt_deinit_handler
handler-timer d ne = non_empty (deinit_loop false d.crypt_deinit_list).0 ne

Step-IsDeinit : {t u : Deinit} → Step t u → IsDeinit t → IsDeinit u
unfolding crypt_delayed_deinit crypt_deinit_handler unref
Step-IsDeinit (gives_up none d) v = v
Step-IsDeinit (gives_up (some c) d) v = record { timer = λ ne. refl; idle = v.idle }
Step-IsDeinit (fires d p) v = record {
  timer = handler-timer d;
  idle =
      All-append d.released (deinit_loop false d.crypt_deinit_list).1 v.idle
        (deinit_loop-idle d.crypt_deinit_list);
}
Step-IsDeinit (ends k d) v = record {
  timer = λ ne. v.timer (λ e. ne (ap (unref k) e));
  idle = v.idle;
}

-- Over every sequence of these events, while a key waits to be released the timer is pending, and
-- no key was released with an operation under way on it.
pub Reach-IsDeinit : {s t : Deinit} → IsDeinit s → Reach s t → IsDeinit t
Reach-IsDeinit v here = v
Reach-IsDeinit v (next r st) = Step-IsDeinit st (Reach-IsDeinit v r)

deinit_loop-forced : (es : List CryptData) → (deinit_loop true es).0 ≡ []
unfolding deinit_loop
deinit_loop-forced [] = refl
deinit_loop-forced (e ∷ es) = elim (Bool-cases (e.refcnt == 0)) [
  | inl idle ↦ rw idle (deinit_loop-forced es)
  | inr busy ↦ rw busy (deinit_loop-forced es)
]

deinit_loop-count :
    (force : Bool) (es : List CryptData) (k : ℕ)
    → count k (keys (deinit_loop force es).0) + count k (keys (deinit_loop force es).1)
      ≡ count k (keys es)
unfolding deinit_loop keys
deinit_loop-count force [] k = omega (arith, count-nil k)
deinit_loop-count force (e ∷ es) k =
    let r = deinit_loop force es in
    let below = deinit_loop-count force es k in
    elim (Bool-cases (not (e.refcnt == 0) && not force)) [
      | inl stays ↦
          rw stays
            (omega (arith, below, count-cons k e.key (keys r.0), count-cons k e.key (keys es)))
      | inr goes ↦
          rw goes
            (omega (arith, below, count-cons k e.key (keys r.1), count-cons k e.key (keys es)))
    ]

keys-append :
    (xs ys : List CryptData) (k : ℕ)
    → count k (keys (xs ++ ys)) ≡ count k (keys xs) + count k (keys ys)
unfolding keys
keys-append [] ys k = omega (arith, count-nil k)
keys-append (x ∷ xs) ys k =
    omega (
      arith,
      keys-append xs ys k,
      count-cons k x.key (keys xs),
      count-cons k x.key (keys (xs ++ ys)),
    )

-- rtllib_crypt_deinit_entries loses no key and releases none twice: each waits or was released as
-- often as before; and with `force` none is left waiting.
pub crypt_deinit_entries-keys :
    (force : Bool) (d : Deinit) (k : ℕ)
    → let d' = crypt_deinit_entries force d in
      (count k (keys d'.crypt_deinit_list) + count k (keys d'.released)
        ≡ count k (keys d.crypt_deinit_list) + count k (keys d.released))
      × (force ≡ true → d'.crypt_deinit_list ≡ [])
unfolding crypt_deinit_entries
crypt_deinit_entries-keys force d k =
    let r = deinit_loop force d.crypt_deinit_list in
    (
      omega (arith, deinit_loop-count force d.crypt_deinit_list k, keys-append d.released r.1 k),
      λ e. rw e (deinit_loop-forced d.crypt_deinit_list),
    )
