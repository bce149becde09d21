-- ===== src/Cipher/Ccmp/Blocks.antt =====
-- The block loops of CCMP: the lengths of the blocks add up, and decryption undoes encryption.
use rtl8190p.Common.{ℕ, zero, suc, ◌+◌, ◌*◌, ◌/◌, ◌%◌, ◌≤◌, ◌==◌, ◌≡◌, refl, arith, ap, sym, ◌∙◌}
use rtl8190p.Common.{List, [], ◌∷◌, ◌++◌, if◌then◌else◌}
use rtl8190p.Common.{
  length, take, drop, length-append, length-take, length-drop, take-append, drop-append,
  take-append-drop,
}
use rtl8190p.Common.{bit_xor_cancel}
use rtl8190p.Cipher.Ccmp.{xor_block, block_len, counter, enc_loop, dec_loop}

pub xor_block_again : (b a : List ℕ) (n : ℕ) → xor_block (xor_block b a n) a n ≡ b
unfolding xor_block
xor_block_again b a zero = refl
xor_block_again [] a (suc n) = refl
xor_block_again (x ∷ b) [] (suc n) = refl
xor_block_again (x ∷ b) (y ∷ a) (suc n) = rw (bit_xor_cancel x y, xor_block_again b a n) refl

pub length-xor_block : (b a : List ℕ) (n : ℕ) → length (xor_block b a n) ≡ length b
unfolding xor_block
length-xor_block b a zero = refl
length-xor_block [] a (suc n) = refl
length-xor_block (x ∷ b) [] (suc n) = refl
length-xor_block (x ∷ b) (y ∷ a) (suc n) = ap suc (length-xor_block b a n)

-- The bytes of the blocks that are left.
pub total : ℕ → ℕ → ℕ
total zero last = 0
total (suc left) last = block_len left last + total left last

total-suc : (left last : ℕ) → total (suc left) last ≡ 16 * left + (if last == 0 then 16 else last)
unfolding total block_len
total-suc zero last = ground arith
total-suc (suc left) last = ground (arith, total-suc left last)

-- The number of rounds that the routines compute takes in the whole payload.
pub total_blocks : (n : ℕ) → total ((n + 15) / 16) (n % 16) ≡ n
total_blocks zero = unfold total in refl
total_blocks (suc n) =
    let some_left : (suc n + 15) / 16 ≡ suc (n / 16) = omega arith in
    rw some_left (total-suc (n / 16) (suc n % 16) ∙ ground arith)

module _ (aes : List ℕ → List ℕ → List ℕ) where
  chunk : List ℕ → List ℕ → ℕ → ℕ → ℕ → List ℕ → List ℕ
  chunk key start last left i pos =
      let len = block_len left last in xor_block (take len pos) (aes key (counter aes start i)) len

  length-chunk :
      (key start : List ℕ) (last left i : ℕ) (pos : List ℕ)
      → block_len left last ≤ length pos
      → length (chunk key start last left i pos) ≡ block_len left last
  unfolding chunk
  length-chunk key start last left i pos h =
      let len = block_len left last in
      length-xor_block (take len pos) (aes key (counter aes start i)) len
      ∙ length-take len pos
      ∙ ground arith

  pub length-enc_loop :
      (key start : List ℕ) (last left i : ℕ) (b pos : List ℕ)
      → length pos ≡ total left last
      → length (enc_loop aes key start last left i b pos).1 ≡ length pos
  unfolding enc_loop total chunk
  length-enc_loop key start last zero i b pos h = refl
  length-enc_loop key start last (suc left) i b pos h =
      let len = block_len left last in
      let b' = aes key (xor_block b (take len pos) len) in
      let r = enc_loop aes key start last left (i + 1) b' (drop len pos) in
      length-append (chunk key start last left i pos) r.1
      ∙ omega (
        arith,
        length-chunk key start last left i pos (omega arith),
        length-drop len pos,
        length-enc_loop key start last left (i + 1) b' (drop len pos)
            (omega (arith, length-drop len pos)),
      )

  -- The loop of the receiver, on what that of the sender made, ends with the same authentication
  -- block and the payload.
  pub dec_loop-enc_loop :
      (key start : List ℕ) (last left i : ℕ) (b pos : List ℕ)
      → length pos ≡ total left last
      → dec_loop aes key start last left i b (enc_loop aes key start last left i b pos).1
        ≡ ((enc_loop aes key start last left i b pos).0, pos)
  unfolding dec_loop enc_loop total chunk
  dec_loop-enc_loop key start last zero i b pos h = refl
  dec_loop-enc_loop key start last (suc left) i b pos h =
      let len = block_len left last in
      let e = aes key (counter aes start i) in
      let b' = aes key (xor_block b (take len pos) len) in
      let r = enc_loop aes key start last left (i + 1) b' (drop len pos) in
      let c = chunk key start last left i pos in
      let n : length c ≡ len = length-chunk key start last left i pos (omega arith) in
      let head : take len (c ++ r.1) ≡ c =
        ap (λ k. take k (c ++ r.1)) (sym n) ∙ take-append c r.1 in
      let tail : drop len (c ++ r.1) ≡ r.1 =
        ap (λ k. drop k (c ++ r.1)) (sym n) ∙ drop-append c r.1 in
      let plain : xor_block c e len ≡ take len pos = xor_block_again (take len pos) e len in
      let ih =
        dec_loop-enc_loop key start last left (i + 1) b' (drop len pos)
          (omega (arith, length-drop len pos)) in
      rw (head, tail, plain, ih, take-append-drop len pos) refl

  pub enc_loop_block :
      (n : ℕ) (key start : List ℕ) (last left i : ℕ) (b pos : List ℕ)
      → ((k x : List ℕ) → length (aes k x) ≡ n)
      → length b ≡ n
      → length (enc_loop aes key start last left i b pos).0 ≡ n
  unfolding enc_loop
  enc_loop_block n key start last zero i b pos law h = h
  enc_loop_block n key start last (suc left) i b pos law h =
      enc_loop_block n key start last left (i + 1)
        (aes key (xor_block b (take (block_len left last) pos) (block_len left last)))
        (drop (block_len left last) pos) law
        (law key (xor_block b (take (block_len left last) pos) (block_len left last)))
