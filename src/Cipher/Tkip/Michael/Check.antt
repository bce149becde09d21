-- ===== src/Cipher/Tkip/Michael/Check.antt =====
-- What rtllib_michael_mic_add signed, rtllib_michael_mic_verify takes.
use rtl8190p.Common.{
  ℕ, ◌+◌, ◌-◌, ◌≤◌, ◌==◌, ◌≡◌, refl, ap, ◌∙◌, arith, ltb, true, false, not, ◌||◌, Option,
}
use rtl8190p.Common.{some, List, ◌++◌, length, take, drop, slice, bytes_eq, bytes_eq_refl}
use rtl8190p.Common.{length-append, drop-append, drop-append_left, take-append}
use rtl8190p.Common.{slice-append, get_or-append_left, length-drop}
use native.Mathlib.Decide.{ℕ_discrete}
use rtl8190p.Cipher.Tkip.Michael.Covered.{covered, mic_hdr-covered}
use rtl8190p.Cipher.{SkBuff, done, grown, shrunk, shrunk-grown}
use rtl8190p.Cipher.Tkip.{TkipData}
use rtl8190p.Cipher.Tkip.Michael.{
  ds_of, da_sa, mic_priority, mic_hdr, michael_mic_add, michael_mic_verify,
}

module _ (xs ys : List ℕ) (long : 24 ≤ length xs) where
  ds_of-append : ds_of (xs ++ ys) ≡ ds_of xs
  unfolding ds_of
  ds_of-append = rw (get_or-append_left xs ys 1 0 (omega arith)) refl

  da_sa-append : (ds_of xs ≡ 3 → 30 ≤ length xs) → da_sa (xs ++ ys) ≡ da_sa xs
  unfolding da_sa
  da_sa-append wide =
      let s4 = slice-append xs ys 4 6 (omega arith) in
      let s10 = slice-append xs ys 10 6 (omega arith) in
      let s16 = slice-append xs ys 16 6 (omega arith) in
      elim (ℕ_discrete (ds_of xs) 3) [
        | yes four ↦
            let s24 = slice-append xs ys 24 6 (omega (arith, wide four)) in
            rw (ds_of-append, s4, s10, s16, s24) refl
        | no other ↦
            let off : (ds_of xs == 3) ≡ false = ground arith in
            rw (ds_of-append, s4, s10, s16, off) refl
      ]

  mic_priority-append :
      (hdr_len : ℕ)
      → 2 ≤ hdr_len
      → hdr_len ≤ length xs
      → mic_priority (xs ++ ys) hdr_len ≡ mic_priority xs hdr_len
  unfolding mic_priority
  mic_priority-append hdr_len some_len within =
      rw
        (
          get_or-append_left xs ys 0 0 (omega arith),
          get_or-append_left xs ys 1 0 (omega arith),
          get_or-append_left xs ys (hdr_len - 2) 0 (omega arith),
        )
        refl

-- What follows a frame does not change what is hashed of its header.
mic_hdr-append :
    (xs ys : List ℕ) (hdr_len : ℕ)
    → 24 ≤ hdr_len
    → (ds_of xs ≡ 3 → 30 ≤ hdr_len)
    → hdr_len ≤ length xs
    → mic_hdr (xs ++ ys) hdr_len ≡ mic_hdr xs hdr_len
unfolding mic_hdr
mic_hdr-append xs ys hdr_len short wide within =
    let long : 24 ≤ length xs = omega arith in
    rw
      (
        da_sa-append xs ys long (λ e. omega (arith, wide e)),
        mic_priority-append xs ys long hdr_len (omega arith) within,
      )
      refl

module _ (michael : List ℕ → List ℕ → List ℕ → Option (List ℕ)) (stale : List ℕ) where
  signed :
      (k : TkipData) (s : SkBuff) (hdr_len : ℕ) (mic : List ℕ)
      → hdr_len ≤ length s.bytes
      → 8 ≤ s.tailroom
      → michael (slice k.key 16 8) (mic_hdr s.bytes hdr_len) (drop hdr_len s.bytes) ≡ some mic
      → michael_mic_add michael stale k s hdr_len ≡ (done 0, grown 0 8 (s.bytes ++ mic) s)
  unfolding michael_mic_add
  signed k s hdr_len mic within room hashed =
      let fits : (ltb s.tailroom 8 || ltb (length s.bytes) hdr_len) ≡ false = ground arith in
      rw (michael_mic_add, fits, hashed) refl

  -- A signed frame: its bytes are `front` and a check.
  taken :
      (r : TkipData) (t : SkBuff) (front : List ℕ) (hdr_len : ℕ) (mic : List ℕ)
      → t.bytes ≡ front ++ mic
      → length mic ≡ 8
      → hdr_len ≤ length front
      → r.key_set ≡ true
      → michael (slice r.key 24 8) (mic_hdr (front ++ mic) hdr_len) (drop hdr_len front) ≡ some mic
      → michael_mic_verify michael stale false r t hdr_len
        ≡ some (
          done 0,
          false,
          record r { rx_iv32 = r.rx_iv32_new; rx_iv16 = r.rx_iv16_new },
          shrunk 0 8 front t,
        )
  unfolding michael_mic_verify
  taken r t front hdr_len mic is eight within keyed hashed =
      let len : length t.bytes ≡ length front + 8 =
        ap length is ∙ length-append front mic ∙ omega (arith, eight) in
      let long : ltb (length t.bytes) (hdr_len + 8) ≡ false = ground (arith, len) in
      let size : length t.bytes - 8 - hdr_len ≡ length (drop hdr_len front) =
        omega (arith, len, length-drop hdr_len front) in
      let body : slice (front ++ mic) hdr_len (length (drop hdr_len front)) ≡ drop hdr_len front =
        ap (take (length (drop hdr_len front))) (drop-append_left front mic hdr_len within)
        ∙ take-append (drop hdr_len front) mic in
      let last : length t.bytes - 8 ≡ length front = omega (arith, len) in
      let open_key : not r.key_set ≡ false = ground arith in
      let same : (not (bytes_eq mic mic) || false) ≡ false = rw (bytes_eq_refl mic) refl in
      let hashed' : michael (slice r.key 24 8) (mic_hdr t.bytes hdr_len)
            (slice t.bytes hdr_len (length t.bytes - 8 - hdr_len))
          ≡ some mic =
        rw (size, is, body) hashed in
      rw
        (
          michael_mic_verify,
          open_key,
          long,
          hashed',
          last,
          is,
          drop-append front mic,
          take-append front mic,
          same,
        )
        refl

  -- On a frame with a header that holds its addresses and with eight bytes of room, where the
  -- kernel's hash of the receiver, the sender and the priority of the header and of the body gives
  -- eight bytes, rtllib_michael_mic_add succeeds and puts them behind the frame, and
  -- rtllib_michael_mic_verify, with a key whose last eight bytes are the ones that signed and no
  -- error forced, succeeds, gives the frame back and takes the number of the last fragment.
  pub michael_mic_verify-add :
      (k r : TkipData) (s : SkBuff) (hdr_len : ℕ) (mic : List ℕ)
      → 24 ≤ hdr_len
      → (ds_of s.bytes ≡ 3 → 30 ≤ hdr_len)
      → hdr_len ≤ length s.bytes
      → 8 ≤ s.tailroom
      → r.key_set ≡ true
      → slice r.key 24 8 ≡ slice k.key 16 8
      → michael (slice k.key 16 8) (covered s.bytes hdr_len) (drop hdr_len s.bytes) ≡ some mic
      → length mic ≡ 8
      → let sent = michael_mic_add michael stale k s hdr_len in
        (sent.0 ≡ done 0)
        × (sent.1.bytes ≡ s.bytes ++ mic)
        × (michael_mic_verify michael stale false r sent.1 hdr_len
            ≡ some
                (done 0, false, record r { rx_iv32 = r.rx_iv32_new; rx_iv16 = r.rx_iv16_new }, s))
  michael_mic_verify-add k r s hdr_len mic short wide within room keyed same hashed eight =
      let hashed' : michael (slice k.key 16 8) (mic_hdr s.bytes hdr_len) (drop hdr_len s.bytes)
          ≡ some mic =
        rw (mic_hdr-covered s.bytes hdr_len) hashed in
      let sent : SkBuff = grown 0 8 (s.bytes ++ mic) s in
      rw (signed k s hdr_len mic within room hashed') (
        refl,
        unfold grown in refl,
        taken r sent s.bytes hdr_len mic (unfold grown in refl) eight within keyed
              (rw (same, mic_hdr-append s.bytes mic hdr_len short wide within) hashed')
            ∙ ap
                (λ u.
                  some (
                    done 0,
                    false,
                    record r { rx_iv32 = r.rx_iv32_new; rx_iv16 = r.rx_iv16_new },
                    u,
                  ))
                (shrunk-grown 0 8 s.bytes (s.bytes ++ mic) s (omega arith) room refl),
      )
