-- ===== src/Reorder/Sent.antt =====
-- Which packets the receive reorder buffer can send upwards: the arrived one and those that wait.
use rtl8190p.Common.{ℕ, ◌≡◌, refl}
use rtl8190p.Common.{List, [], ◌∷◌, ◌++◌, reverse}
use rtl8190p.Common.{sym, subst}
use rtl8190p.Common.{reverse-cons}
use rtl8190p.Common.{All, ◌⊎◌, inl, inr}
use rtl8190p.Reorder.Insert.{IsInserted}
use rtl8190p.Reorder.Store.{IsStored}
use rtl8190p.Reorder.{Entry, Stream}

-- The entry `e` waits in a list.
unfoldable pub Waits : Entry → List Entry → Type 0
Waits e [] = ⊥
Waits e (x ∷ xs) = (e ≡ x) ⊎ Waits e xs

-- The entry `e` waited in the stream `d`, or holds the packet `prxb` with the number `seq`.
unfoldable pub Met : Stream → (prxb seq : ℕ) → Entry → Type 0
Met d prxb seq e = Waits e d.rx_pending_pkt_list ⊎ ((e.seq_num ≡ seq) × (e.prxb ≡ prxb))

-- What holds of all waiting packets holds of those that are taken.
module _ (P : Entry → Type 0) where
  All-append : (xs ys : List Entry) → All P xs → All P ys → All P (xs ++ ys)
  All-append [] ys h k = k
  All-append (x ∷ xs) ys h k = (h.0, All-append xs ys h.1 k)

  All-left : (xs ys : List Entry) → All P (xs ++ ys) → All P xs
  All-left [] ys h = tt
  All-left (x ∷ xs) ys h = (h.0, All-left xs ys h.1)

  All-right : (xs ys : List Entry) → All P (xs ++ ys) → All P ys
  All-right [] ys h = h
  All-right (x ∷ xs) ys h = All-right xs ys h.1

  All-reverse : (xs : List Entry) → All P xs → All P (reverse xs)
  All-reverse [] h = tt
  All-reverse (x ∷ xs) h =
      rw (reverse-cons x xs) (All-append (reverse xs) (x ∷ []) (All-reverse xs h.1) (h.0, tt))

  pub All-taken : (xs taken rest : List Entry) → reverse xs ≡ taken ++ rest → All P xs → All P taken
  All-taken xs taken rest split h = All-left taken rest (subst (All P) split (All-reverse xs h))

  All-inserted :
      {e : Entry} {es out : List Entry} → IsInserted e es out → P e → All P es → All P out
  All-inserted {e} {es} {out} i p h =
      let parts = subst (All P) i.before h in
      subst (All P) (sym i.after) (
        All-append i.newer (e ∷ i.older) (All-left i.newer i.older parts)
          (p, All-right i.newer i.older parts))

All-map :
    (P Q : Entry → Type 0) → ((e : Entry) → P e → Q e) → (xs : List Entry) → All P xs → All Q xs
All-map P Q f [] h = tt
All-map P Q f (x ∷ xs) h = (f x h.0, All-map P Q f xs h.1)

All-Waits : (xs : List Entry) → All (λ e. Waits e xs) xs
unfolding Waits
All-Waits [] = tt
All-Waits (x ∷ xs) =
    (inl refl, All-map (λ e. Waits e xs) (λ e. Waits e (x ∷ xs)) (λ e w. inr w) xs (All-Waits xs))

module _ (d : Stream) (prxb seq : ℕ) where
  pub All-Met : All (Met d prxb seq) d.rx_pending_pkt_list
  unfolding Met
  All-Met =
      All-map (λ e. Waits e d.rx_pending_pkt_list) (Met d prxb seq) (λ e w. inl w)
        d.rx_pending_pkt_list (All-Waits d.rx_pending_pkt_list)

  pub stored-Met :
      (w lo hi start : ℕ) (m : Stream)
      → IsStored w lo hi (record d { rx_indicate_seq = start }) prxb seq m
      → All (Met d prxb seq) m.rx_pending_pkt_list
  unfolding Met
  stored-Met w lo hi start m s = elim s.placed [
    | inl same ↦ subst (All (Met d prxb seq)) (sym same) All-Met
    | inr (e, number, packet, put) ↦
        All-inserted (Met d prxb seq) put (inr (number, packet)) All-Met
  ]
