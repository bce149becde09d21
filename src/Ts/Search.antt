-- ===== src/Ts/Search.antt =====
-- SearchAdmitTRStream finds exactly the streams of an address, a priority and a searched direction.
use rtl8190p.Common.{ℕ, zero, suc, ◌+◌, ◌≤◌, ◌<◌, ◌==◌, ◌≡◌, inl, inr, refl, arith, ◌≢◌, sym, subst}
use rtl8190p.Common.{true, false, none, some, List, [], ◌∷◌, ◌++◌}
use rtl8190p.Common.{length, get_elem?, All, Bool-cases, Option-cases}
use rtl8190p.Ts.{TsCommonInfo, TrSelect, Env, find_ts, search_from, ts_matches, search_dir}

module _ {A : Type 0} (common : A → TsCommonInfo) (renew : (TsCommonInfo → TsCommonInfo) → A → A)
    (e : Env) (select : TrSelect) where
  -- At the place `i` stands a stream that matches.
  abbrev pub MatchAt : List ℕ → ℕ → ℕ → List A → ℕ → Type 0
  MatchAt addr tid dir ts i =
      (t : A) × (get_elem? ts i ≡ some t) × (ts_matches addr tid dir (common t) ≡ true)

  abbrev pub NoMatch : List ℕ → ℕ → ℕ → List A → Type 0
  NoMatch addr tid dir ts = All (λ t. ts_matches addr tid dir (common t) ≡ false) ts

  pub find_ts-some :
      (addr : List ℕ) (tid dir : ℕ) (ts : List A) (i : ℕ)
      → find_ts common renew e select addr tid dir ts ≡ some i
      → MatchAt addr tid dir ts i
  unfolding find_ts
  find_ts-some addr tid dir [] i h = cc
  find_ts-some addr tid dir (t ∷ ts) zero h =
      elim (Bool-cases (ts_matches addr tid dir (common t))) [
        | inl m ↦ (t, refl, m)
        | inr no_match ↦ absurd (ground arith)
      ]
  find_ts-some addr tid dir (t ∷ ts) (suc i) h = find_ts-some addr tid dir ts i (ground arith)

  pub find_ts-none :
      (addr : List ℕ) (tid dir : ℕ) (ts : List A)
      → find_ts common renew e select addr tid dir ts ≡ none
      → NoMatch addr tid dir ts
  unfolding find_ts
  find_ts-none addr tid dir [] h = tt
  find_ts-none addr tid dir (t ∷ ts) h = (ground arith, find_ts-none addr tid dir ts (ground arith))

  pub find_ts-append :
      (addr : List ℕ) (tid dir : ℕ) (ts : List A) (t : A)
      → NoMatch addr tid dir ts
      → ts_matches addr tid dir (common t) ≡ true
      → find_ts common renew e select addr tid dir (ts ++ (t ∷ [])) ≡ some (length ts)
  unfolding find_ts
  find_ts-append addr tid dir [] t h m = ground arith
  find_ts-append addr tid dir (x ∷ ts) t h m =
      ground (arith, find_ts-append addr tid dir ts t h.1 m)

  find_ts_of_NoMatch :
      (addr : List ℕ) (tid dir : ℕ) (ts : List A)
      → NoMatch addr tid dir ts
      → find_ts common renew e select addr tid dir ts ≡ none
  unfolding find_ts
  find_ts_of_NoMatch addr tid dir [] h = refl
  find_ts_of_NoMatch addr tid dir (t ∷ ts) h =
      ground (arith, find_ts_of_NoMatch addr tid dir ts h.1, h.0)

  NoMatch-snoc :
      (addr : List ℕ) (tid dir : ℕ) (ts : List A) (t : A)
      → NoMatch addr tid dir ts
      → ts_matches addr tid dir (common t) ≡ false
      → NoMatch addr tid dir (ts ++ (t ∷ []))
  NoMatch-snoc addr tid dir [] t h m = (m, tt)
  NoMatch-snoc addr tid dir (x ∷ ts) t h m = (h.0, NoMatch-snoc addr tid dir ts t h.1 m)

  -- No stream of the list matches in a searched direction.
  abbrev pub NoneFrom : ℕ → ℕ → List ℕ → ℕ → List A → Type 0
  NoneFrom left dir addr tid ts =
      (d : ℕ)
      → dir ≤ d
      → d < dir + left
      → search_dir e.iw_mode select d ≡ true
      → NoMatch addr tid d ts

  abbrev pub SomeFrom : ℕ → ℕ → List ℕ → ℕ → List A → ℕ → Type 0
  SomeFrom left dir addr tid ts i =
      (d : ℕ) × (dir ≤ d)
      × (d < dir + left)
      × (search_dir e.iw_mode select d ≡ true)
      × MatchAt addr tid d ts i

  pub search_from-some :
      (left dir : ℕ) (addr : List ℕ) (tid : ℕ) (ts : List A) (i : ℕ)
      → search_from common renew e select left dir addr tid ts ≡ some i
      → SomeFrom left dir addr tid ts i
  unfolding search_from
  search_from-some zero dir addr tid ts i h = cc
  search_from-some (suc left) dir addr tid ts i h =
      elim (Bool-cases (search_dir e.iw_mode select dir)) [
        | inl searched ↦ elim (Option-cases (find_ts common renew e select addr tid dir ts)) [
          | inl missing ↦
              let m = search_from-some left (dir + 1) addr tid ts i (ground arith) in
              (m.0, omega arith, omega arith, m.3, m.4)
          | inr (j, found) ↦ (
            dir,
            omega arith,
            omega arith,
            searched,
            find_ts-some addr tid dir ts i (ground arith),
          )
        ]
        | inr skipped ↦
            let m = search_from-some left (dir + 1) addr tid ts i (ground arith) in
            (m.0, omega arith, omega arith, m.3, m.4)
      ]

  pub search_from-none :
      (left dir : ℕ) (addr : List ℕ) (tid : ℕ) (ts : List A)
      → search_from common renew e select left dir addr tid ts ≡ none
      → NoneFrom left dir addr tid ts
  unfolding search_from
  search_from-none zero dir addr tid ts h = λ d p q r. absurd (omega arith)
  search_from-none (suc left) dir addr tid ts h = λ d p q r. elim (Bool-cases (d == dir)) [
    | inl same ↦
        let here : d ≡ dir = ground arith in
        let searched : search_dir e.iw_mode select dir ≡ true = rw here at r in
        subst (λ k. NoMatch addr tid k ts) (sym here) (find_ts-none addr tid dir ts (ground arith))
    | inr other ↦
        search_from-none left (dir + 1) addr tid ts (ground arith) d (ground arith) (omega arith) r
  ]

  pub search_from-append :
      (left dir : ℕ) (addr : List ℕ) (tid : ℕ) (ts : List A) (t : A) (nd : ℕ)
      → NoneFrom left dir addr tid ts
      → dir ≤ nd
      → nd < dir + left
      → search_dir e.iw_mode select nd ≡ true
      → ts_matches addr tid nd (common t) ≡ true
      → ((d : ℕ) → d ≢ nd → ts_matches addr tid d (common t) ≡ false)
      → search_from common renew e select left dir addr tid (ts ++ (t ∷ [])) ≡ some (length ts)
  unfolding search_from
  search_from-append zero dir addr tid ts t nd none_yet p q r m other = absurd (omega arith)
  search_from-append (suc left) dir addr tid ts t nd none_yet p q r m other =
      let later : NoneFrom left (dir + 1) addr tid ts =
        λ d a b c. none_yet d (omega arith) (omega arith) c in
      elim (Bool-cases (dir == nd)) [
        | inl same ↦
            let here : dir ≡ nd = ground arith in
            let first : NoMatch addr tid dir ts =
              none_yet dir (omega arith) (omega arith) (rw here r) in
            ground (arith, find_ts-append addr tid dir ts t first (rw here m))
        | inr apart ↦
            let rest =
              search_from-append left (dir + 1) addr tid ts t nd later (ground arith) (omega arith)
                r m other in
            elim (Bool-cases (search_dir e.iw_mode select dir)) [
              | inl searched ↦
                  let absent = find_ts_of_NoMatch addr tid dir (ts ++ (t ∷ [])) (
                    NoMatch-snoc addr tid dir ts t
                      (none_yet dir (omega arith) (omega arith) searched)
                      (other dir (ground arith))) in
                  rw (searched, absent) rest
              | inr skipped ↦ rw skipped rest
            ]
      ]
