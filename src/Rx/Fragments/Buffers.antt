-- ===== src/Rx/Fragments/Buffers.antt =====
-- The buffers of the fragment cache: none is lost, and a later fragment gets that of its frame.
use rtl8190p.Common.{
  ℕ, zero, suc, ◌+◌, ◌<◌, ◌==◌, ◌≡◌, ◌≢◌, refl, arith, ap, ◌∙◌, inl, inr, if◌then◌else◌,
}
use rtl8190p.Common.{
  Bool, true, false, Option, none, some, List, [], ◌∷◌, get_elem?, set, length, count,
}
use rtl8190p.Common.{Bool-cases, Option-cases, count-append, count-nil, ==_refl}
use rtl8190p.Rx.{Header, get_seq_frag, get_seq_seq, queue_of}
use rtl8190p.Rx.Duplicate.{put}
use rtl8190p.Rx.Fragments.{
  FragEntry, FragCache, buffers, frag_cache_find, frag_matches, head_entry, frag_cache_get, held,
  frag_cache_find-held, frag_cache_find-some,
}

put_at : {A : Type 0} (f : ℕ → A) (i : ℕ) (a : A) → put f i a i ≡ a
unfolding put
put_at f i a = rw (==_refl i) refl

get_elem?-lt :
    {A : Type 0} (xs : List A) (i : ℕ) → i < length xs → (a : A) × (get_elem? xs i ≡ some a)
get_elem?-lt [] i h = absurd (omega arith)
get_elem?-lt (x ∷ xs) zero h = (x, refl)
get_elem?-lt (x ∷ xs) (suc i) h = get_elem?-lt xs i (omega arith)

module _ (time_after : ℕ → ℕ → Bool) (hz : ℕ) where
  held-set :
      (es : List FragEntry) (i : ℕ) (e e' : FragEntry) (k : ℕ)
      → get_elem? es i ≡ some e
      → count k (held time_after hz (set es i e')) + count k (buffers e.skb)
        ≡ count k (held time_after hz es) + count k (buffers e'.skb)
  unfolding held
  held-set [] i e e' k h = cc
  held-set (x ∷ es) zero e e' k h =
      let same : x ≡ e = cc in
      rw (ap (λ y. y.skb) same) (
        omega (
          arith,
          count-append k (buffers e'.skb) (held time_after hz es),
          count-append k (buffers e.skb) (held time_after hz es),
        ))
  held-set (x ∷ es) (suc i) e e' k h = omega (
    arith,
    held-set es i e e' k h,
    count-append k (buffers x.skb) (held time_after hz es),
    count-append k (buffers x.skb) (held time_after hz (set es i e')),
  )

  -- How often a buffer is held by a queue or was released.
  abbrev pub known : ℕ → ℕ → FragCache → ℕ
  known tid k c = count k (held time_after hz (c.frag_cache tid)) + count k c.freed

  get-head :
      (now : ℕ) (room : Option ℕ) (h : Header) (c : FragCache) (k : ℕ)
      → c.frag_next_idx (queue_of h) < length (c.frag_cache (queue_of h))
      → get_seq_frag h.seq_ctl ≡ 0
      → known (queue_of h) k (frag_cache_get time_after hz now room h c).1
        ≡ known (queue_of h) k c + count k (buffers room)
  unfolding frag_cache_get buffers head_entry
  get-head now none h c k lt first = rw first (omega (arith, count-nil k))
  get-head now (some b) h c k lt first =
      let tid = queue_of h in
      let (e, there) = get_elem?-lt (c.frag_cache tid) (c.frag_next_idx tid) lt in
      let new : FragEntry = record (head_entry time_after hz now h b) { last_frag = 0 } in
      rw (first, there, put_at c.frag_cache tid (set (c.frag_cache tid) (c.frag_next_idx tid) new))
        (omega (
          arith,
          held-set (c.frag_cache tid) (c.frag_next_idx tid) e new k there,
          count-append k c.freed (buffers e.skb),
        ))

  get-later :
      (now : ℕ) (room : Option ℕ) (h : Header) (c : FragCache) (k : ℕ)
      → get_seq_frag h.seq_ctl ≢ 0
      → known (queue_of h) k (frag_cache_get time_after hz now room h c).1 ≡ known (queue_of h) k c
  unfolding frag_cache_get
  get-later now room h c k ne =
      let tid = queue_of h in
      let es = c.frag_cache tid in
      let seq = get_seq_seq h.seq_ctl in
      let frag = get_seq_frag h.seq_ctl in
      let r = frag_cache_find time_after hz now seq frag h.addr2 h.addr1 es in
      let tail : (frag == 0) ≡ false = ground arith in
      let conserved = frag_cache_find-held time_after hz now seq frag h.addr2 h.addr1 es k in
      elim (Option-cases r.0) [
        | inl missing ↦
            rw (tail, missing, put_at c.frag_cache tid r.1)
              (omega (arith, conserved, count-append k c.freed r.2))
        | inr (i, found) ↦
            let (e, there, m) =
              frag_cache_find-some time_after hz now seq frag h.addr2 h.addr1 es i found in
            let e' : FragEntry = record e { last_frag = frag } in
            rw (tail, found, there, put_at c.frag_cache tid (set r.1 i e'))
              (omega (arith, conserved, count-append k c.freed r.2, held-set r.1 i e e' k there))
      ]

  -- With the next place of a queue within its entries, rtllib_frag_cache_get loses and doubles no
  -- buffer of the queue: each is held or was released as often as before, and once more if it is
  -- the one that was allocated for a head fragment.
  pub frag_cache_get-held :
      (now : ℕ) (room : Option ℕ) (h : Header) (c : FragCache) (k : ℕ)
      → c.frag_next_idx (queue_of h) < length (c.frag_cache (queue_of h))
      → known (queue_of h) k (frag_cache_get time_after hz now room h c).1
        ≡ known (queue_of h) k c
          + (if get_seq_frag h.seq_ctl == 0 then count k (buffers room) else 0)
  frag_cache_get-held now room h c k lt = elim (Bool-cases (get_seq_frag h.seq_ctl == 0)) [
    | inl first ↦ rw first (get-head now room h c k lt (ground arith))
    | inr tail ↦ rw tail (get-later now room h c k (ground arith) ∙ omega arith)
  ]

  -- Where the search finds an entry for a fragment that is not the head, the entry passes the test
  -- of rtllib_frag_cache_find, rtllib_frag_cache_get returns its buffer, and the fragment becomes
  -- the last one of the entry.
  pub frag_cache_get-later :
      (now : ℕ) (room : Option ℕ) (h : Header) (c : FragCache) (i : ℕ)
      → let tid = queue_of h in
        let frag = get_seq_frag h.seq_ctl in
        let r =
          frag_cache_find time_after hz now
            (get_seq_seq h.seq_ctl)
            frag
            h.addr2
            h.addr1
            (c.frag_cache tid) in
        frag ≢ 0
        → r.0 ≡ some i
        → (e : FragEntry) × (get_elem? r.1 i ≡ some e)
          × (frag_matches time_after hz (get_seq_seq h.seq_ctl) frag h.addr2 h.addr1 e ≡ true)
          × ((frag_cache_get time_after hz now room h c).0 ≡ e.skb)
          × ((frag_cache_get time_after hz now room h c).1.frag_cache tid
              ≡ set r.1 i (record e { last_frag = frag }))
  unfolding frag_cache_get
  frag_cache_get-later now room h c i ne found =
      let tid = queue_of h in
      let seq = get_seq_seq h.seq_ctl in
      let frag = get_seq_frag h.seq_ctl in
      let (e, there, m) =
        frag_cache_find-some time_after hz now seq frag h.addr2 h.addr1 (c.frag_cache tid) i
          found in
      let tail : (frag == 0) ≡ false = ground arith in
      (
        e,
        there,
        m,
        rw (tail, found, there) refl,
        rw (tail, found, there) (put_at c.frag_cache tid _),
      )
