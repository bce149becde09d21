-- ===== src/Rx/Fragments.antt =====
-- The fragment cache of src/rtllib_rx.c: rtllib_frag_cache_find, rtllib_frag_cache_get and
-- rtllib_frag_cache_invalidate. A buffer is named by a number; `freed` records those given to
-- dev_kfree_skb_any.
pub mod Buffers
use rtl8190p.Common.{
  ℕ, zero, suc, ◌+◌, ◌-◌, ◌*◌, ◌^◌, ◌%◌, ◌==◌, ◌≡◌, refl, arith, ap, ◌∙◌, sym, leb, if◌then◌else◌,
}
use rtl8190p.Common.{
  Bool, true, false, ◌&&◌, ◌||◌, Option, none, some, List, [], ◌∷◌, ◌++◌, get_elem?, set, count,
}
use rtl8190p.Common.{
  inl, inr, bytes_eq, Bool-cases, Option-cases, count-append, count-cons, count-nil,
}
use rtl8190p.Rx.{Header, get_seq_frag, get_seq_seq, queue_of}
use rtl8190p.Rx.Duplicate.{put}

-- rtllib_frag_entry
pub record FragEntry : Type 0 where
  pub first_frag_time : ℕ
  pub seq : ℕ
  pub last_frag : ℕ
  pub skb : Option ℕ
  pub src_addr : List ℕ
  pub dst_addr : List ℕ

-- frag_cache and frag_next_idx of the device.
pub record FragCache : Type 0 where
  pub frag_cache : ℕ → List FragEntry
  pub frag_next_idx : ℕ → ℕ
  pub freed : List ℕ

abbrev pub rtllib_frag_cache_len : ℕ
rtllib_frag_cache_len = 4

-- -1 as an unsigned number, which stands for any fragment.
abbrev pub any_frag : ℕ
any_frag = 2 ^ 32 - 1

-- A buffer that may be there, as a list.
pub buffers : Option ℕ → List ℕ
buffers none = []
buffers (some k) = k ∷ []

module _ (time_after : ℕ → ℕ → Bool) (hz : ℕ) where
  -- The first half of the loop's body: an old fragment is released.
  pub expire : ℕ → FragEntry → FragEntry × List ℕ
  unfolding buffers
  expire now e =
      if time_after now (e.first_frag_time + 2 * hz)
      then (record e { skb = none }, buffers e.skb)
      else (e, [])

  -- The test of the loop on an entry.
  pub frag_matches : ℕ → ℕ → List ℕ → List ℕ → FragEntry → Bool
  frag_matches seq frag src dst e =
      elim e.skb [ none ↦ false | some k ↦ true ]
      && e.seq == seq
      && ((e.last_frag + 1) % 2 ^ 32 == frag || frag == any_frag)
      && bytes_eq e.src_addr src
      && bytes_eq e.dst_addr dst

  -- rtllib_frag_cache_find on the entries of a queue: the place, the entries and what is released.
  unfoldable pub frag_cache_find :
      ℕ → ℕ → ℕ → List ℕ → List ℕ → List FragEntry → Option ℕ × List FragEntry × List ℕ
  unfolding expire frag_matches
  frag_cache_find now seq frag src dst [] = (none, [], [])
  frag_cache_find now seq frag src dst (e ∷ es) =
      let rest = frag_cache_find now seq frag src dst es in
      let x = expire now e in
      let later : Option ℕ = elim rest.0 [ none ↦ none | some i ↦ some (suc i) ] in
      if frag_matches seq frag src dst x.0
      then (some 0, x.0 ∷ es, x.1)
      else (later, x.0 ∷ rest.1, x.1 ++ rest.2)

  -- What rtllib_frag_cache_get writes for a head fragment with the buffer `k`.
  pub head_entry : ℕ → Header → ℕ → FragEntry
  head_entry now h k = record {
    first_frag_time = now;
    seq = get_seq_seq h.seq_ctl;
    last_frag = get_seq_frag h.seq_ctl;
    skb = some k;
    src_addr = h.addr2;
    dst_addr = h.addr1;
  }

  -- rtllib_frag_cache_get, where `room` is what dev_alloc_skb gives for a head fragment.
  unfoldable pub frag_cache_get : ℕ → Option ℕ → Header → FragCache → Option ℕ × FragCache
  unfolding frag_cache_find head_entry buffers put
  frag_cache_get now room h c =
      let tid = queue_of h in
      let entries = c.frag_cache tid in
      let frag = get_seq_frag h.seq_ctl in
      let idx = c.frag_next_idx tid in
      let next = if leb rtllib_frag_cache_len (idx + 1) then 0 else idx + 1 in
      let old : List ℕ = elim (get_elem? entries idx) [ none ↦ [] | some e ↦ buffers e.skb ] in
      let r = frag_cache_find now (get_seq_seq h.seq_ctl) frag h.addr2 h.addr1 entries in
      let found : FragCache = record c {
        frag_cache = put c.frag_cache tid r.1;
        freed = c.freed ++ r.2;
      } in
      if frag == 0
      then elim room [
        | none ↦ (none, c)
        | some k ↦ (
          some k,
          record c {
            frag_cache = put c.frag_cache tid (set entries idx (head_entry now h k));
            frag_next_idx = put c.frag_next_idx tid next;
            freed = c.freed ++ old;
          },
        )
      ]
      else elim r.0 [
        | none ↦ (none, found)
        | some i ↦ elim (get_elem? r.1 i) [
          | none ↦ (none, found)
          | some e ↦ (
            e.skb,
            record found {
              frag_cache = put c.frag_cache tid (set r.1 i (record e { last_frag = frag }));
            },
          )
        ]
      ]

  -- rtllib_frag_cache_invalidate: whether it succeeds, and the cache.
  pub frag_cache_invalidate : ℕ → Header → FragCache → Bool × FragCache
  unfolding frag_cache_find put
  frag_cache_invalidate now h c =
      let tid = queue_of h in
      let r =
        frag_cache_find now (get_seq_seq h.seq_ctl) any_frag h.addr2 h.addr1 (c.frag_cache tid) in
      let found : FragCache = record c {
        frag_cache = put c.frag_cache tid r.1;
        freed = c.freed ++ r.2;
      } in
      elim r.0 [
        | none ↦ (false, found)
        | some i ↦ elim (get_elem? r.1 i) [
          | none ↦ (false, found)
          | some e ↦ (
            true,
            record found {
              frag_cache = put c.frag_cache tid (set r.1 i (record e { skb = none }));
            },
          )
        ]
      ]

  -- The buffers that the entries hold.
  pub held : List FragEntry → List ℕ
  unfolding buffers
  held [] = []
  held (e ∷ es) = buffers e.skb ++ held es

  expire-held :
      (now : ℕ) (e : FragEntry) (k : ℕ)
      → count k (buffers (expire now e).0.skb) + count k (expire now e).1 ≡ count k (buffers e.skb)
  unfolding expire buffers
  expire-held now e k = elim (Bool-cases (time_after now (e.first_frag_time + 2 * hz))) [
    | inl old ↦ rw old (omega (arith, count-nil k))
    | inr fresh ↦ rw fresh (omega (arith, count-nil k))
  ]

  -- A search loses and doubles no buffer: each is held or released as often as it was held before.
  pub frag_cache_find-held :
      (now seq frag : ℕ) (src dst : List ℕ) (es : List FragEntry) (k : ℕ)
      → let r = frag_cache_find now seq frag src dst es in
        count k (held r.1) + count k r.2 ≡ count k (held es)
  unfolding frag_cache_find held
  frag_cache_find-held now seq frag src dst [] k = omega (arith, count-nil k)
  frag_cache_find-held now seq frag src dst (e ∷ es) k =
      let x = expire now e in
      let r = frag_cache_find now seq frag src dst es in
      elim (Bool-cases (frag_matches seq frag src dst x.0)) [
        | inl matches ↦ rw matches (
            omega (
              arith,
              expire-held now e k,
              count-append k (buffers x.0.skb) (held es),
              count-append k (buffers e.skb) (held es),
            ))
        | inr other ↦ rw other (
            omega (
              arith,
              expire-held now e k,
              count-append k (buffers x.0.skb) (held r.1),
              count-append k x.1 r.2,
              count-append k (buffers e.skb) (held es),
              frag_cache_find-held now seq frag src dst es k,
            ))
      ]

  -- The entry that a search finds holds a buffer, has the sequence number and the addresses that
  -- are searched for, and its last fragment is the one before.
  pub frag_cache_find-some :
      (now seq frag : ℕ) (src dst : List ℕ) (es : List FragEntry) (i : ℕ)
      → let r = frag_cache_find now seq frag src dst es in
        r.0 ≡ some i
        → (e : FragEntry) × (get_elem? r.1 i ≡ some e) × (frag_matches seq frag src dst e ≡ true)
  unfolding frag_cache_find
  frag_cache_find-some now seq frag src dst [] i h = cc
  frag_cache_find-some now seq frag src dst (e ∷ es) zero h =
      let x = expire now e in
      elim (Bool-cases (frag_matches seq frag src dst x.0)) [
        | inl matches ↦ rw matches (x.0, refl, matches)
        | inr other ↦ absurd (ground (arith, other))
      ]
  frag_cache_find-some now seq frag src dst (e ∷ es) (suc i) h =
      let x = expire now e in
      let r = frag_cache_find now seq frag src dst es in
      elim (Bool-cases (frag_matches seq frag src dst x.0)) [
        | inl matches ↦ absurd (ground (arith, matches))
        | inr other ↦
            rw other (frag_cache_find-some now seq frag src dst es i (ground (arith, other)))
      ]
