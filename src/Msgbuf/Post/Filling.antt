-- ===== src/Msgbuf/Post/Filling.antt =====
-- msgbuf.c: the loop over reserved slots, with what becomes of each packet that it asks for, and the
-- reasons for which it breaks.
use mathlib.Core.List.{append-nil, append_assoc}
use omdrop_awdl.Prelude.{
  ℕ, zero, suc, ◌+◌, ◌≤◌, ◌<◌, ◌≡◌, ◌⊎◌, inl, inr, refl, ◌∙◌, ap, sym, Bool, true, false, Option,
  none, some, List, [], ◌∷◌, ◌++◌, length, length-append, arith,
}
use omdrop_awdl.Msgbuf.Pktids.{Pktids}
use omdrop_awdl.Msgbuf.Pktids.Ledger.{IsSound, alloc_pktid-IsSound}
use omdrop_awdl.Msgbuf.Tx.Named.{Keeps, NoId, alloc_pktid-cases}
use omdrop_awdl.Msgbuf.Tx.Headers.{mapped_to}
use omdrop_awdl.Msgbuf.Post.{
  BufType, BufPost, Pool, Posting, buf_post, post_skb, post_one, post_slots,
}

-- The device knows the buffer by an id that is in use for its packet.
pub record IsHeld (pktids : Pktids) (b : BufPost) : Type 0 where
  pub idx_in : b.request_id < pktids.array_size
  pub busy : (pktids.array b.request_id).allocated ≡ true
  pub its_skb : (pktids.array b.request_id).skb ≡ b.skb

abbrev pub AllHeld : Pktids → List BufPost → Type 0
AllHeld pktids [] = Unit
AllHeld pktids (b ∷ bs) = IsHeld pktids b × AllHeld pktids bs

AllHeld-kept :
    (pktids pktids' : Pktids) (bs : List BufPost)
    → Keeps pktids pktids'
    → AllHeld pktids bs
    → AllHeld pktids' bs
AllHeld-kept pktids pktids' [] k v = tt
AllHeld-kept pktids pktids' (b ∷ bs) k (v, vs) =
    let same = k.same_entry b.request_id v.busy in
    (
      record {
        idx_in = rw k.same_size v.idx_in;
        busy = ap (λ e. e.allocated) same ∙ v.busy;
        its_skb = ap (λ e. e.skb) same ∙ v.its_skb;
      },
      AllHeld-kept pktids pktids' bs k vs,
    )

AllHeld-append :
    (pktids : Pktids) (bs : List BufPost) (b : BufPost)
    → AllHeld pktids bs
    → IsHeld pktids b
    → AllHeld pktids (bs ++ (b ∷ []))
AllHeld-append pktids [] b v w = (w, tt)
AllHeld-append pktids (b' ∷ bs) b (v, vs) w = (v, AllHeld-append pktids bs b vs w)

-- The calls of brcmu_pkt_buf_get_skb from number `n` on, up to number `m`: each packet that one of
-- them returns is posted or freed, in order.
pub data Supply (pool : Pool) : ℕ → ℕ → List BufPost → List ℕ → Type 0 where
  no_call : {n : ℕ} → Supply pool n n [] []
  no_packet :
      {n m : ℕ} {bs : List BufPost} {fs : List ℕ}
      → pool.get_skb n ≡ none
      → Supply pool (n + 1) m bs fs
      → Supply pool n m bs fs
  frees :
      {n m : ℕ} {bs : List BufPost} {fs : List ℕ} {skb : ℕ}
      → pool.get_skb n ≡ some skb
      → Supply pool (n + 1) m bs fs
      → Supply pool n m bs (skb ∷ fs)
  posts :
      {n m : ℕ} {bs : List BufPost} {fs : List ℕ} {b : BufPost}
      → pool.get_skb n ≡ some b.skb
      → Supply pool (n + 1) m bs fs
      → Supply pool n m (b ∷ bs) fs

pub Supply-append :
    {pool : Pool} {n m k : ℕ} {bs bs' : List BufPost} {fs fs' : List ℕ}
    → Supply pool n m bs fs
    → Supply pool m k bs' fs'
    → Supply pool n k (bs ++ bs') (fs ++ fs')
Supply-append no_call v = v
Supply-append (no_packet e u) v = no_packet e (Supply-append u v)
Supply-append (frees e u) v = frees e (Supply-append u v)
Supply-append (posts e u) v = posts e (Supply-append u v)

-- The last call has returned no packet, or there is no id for the packet that it returned.
abbrev pub Starved : Pool → Posting → Type 0
Starved pool s =
    (n : ℕ) × (s.calls ≡ n + 1)
    × ((pool.get_skb n ≡ none)
        ⊎ ((skb : ℕ) × (pool.get_skb n ≡ some skb) × NoId s.rx_pktids (pool.dma_map_single skb)))

-- What is appended twice.
pub appended {ℓ} :
    {A : Type ℓ} (xs us vs : List A) {ys zs : List A}
    → ys ≡ xs ++ us
    → zs ≡ ys ++ vs
    → zs ≡ xs ++ (us ++ vs)
appended xs us vs e e' = e' ∙ (ap (λ p. p ++ vs) e ∙ append_assoc xs us vs)

-- `s'` follows `s` with `count` more buffers posted.
pub record Posted (pool : Pool) (s s' : Posting) (count : ℕ) : Type 0 where
  pub sound : IsSound s'.rx_pktids
  pub held : AllHeld s'.rx_pktids s'.posted
  pub same_ring : s'.ring ≡ s.ring
  pub more : List BufPost
  pub added : s'.posted ≡ s.posted ++ more
  pub as_many : length more ≡ count
  pub frees_more : List ℕ
  pub freed_more : s'.freed ≡ s.freed ++ frees_more
  pub supplied : Supply pool s.calls s'.calls more frees_more

module _ (msgtype : BufType) (len offset : ℕ) (pool : Pool) where
  One : Posting → Bool × Posting → Type 0
  One s result =
      ((result.0 ≡ false) × Posted pool s result.1 0 × Starved pool result.1)
      ⊎ ((result.0 ≡ true) × Posted pool s result.1 1)

  post_one_lem :
      (s : Posting) (slot : ℕ) (skb : Option ℕ)
      → pool.get_skb s.calls ≡ skb
      → IsSound s.rx_pktids
      → AllHeld s.rx_pktids s.posted
      → One s (post_one msgtype len offset pool (record s { calls = s.calls + 1 }) slot skb)
  unfolding post_one post_skb buf_post One
  post_one_lem s slot none e sound held = inl (
    refl,
    record {
      sound = sound;
      held = held;
      same_ring = refl;
      more = [];
      added = sym (append-nil s.posted);
      as_many = refl;
      frees_more = [];
      freed_more = sym (append-nil s.freed);
      supplied = no_packet e no_call;
    },
    (s.calls, refl, inl e),
  )
  post_one_lem s slot (some skb) e sound held =
      elim (alloc_pktid-cases s.rx_pktids skb 0 (pool.dma_map_single skb) sound) [
        | inl (got, why) ↦ inl (
          rw got refl,
          rw got (record {
            sound = sound;
            held = held;
            same_ring = refl;
            more = [];
            added = sym (append-nil s.posted);
            as_many = refl;
            frees_more = skb ∷ [];
            freed_more = refl;
            supplied = frees e no_call;
          }),
          rw got (s.calls, refl, inr (skb, e, why)),
        )
        | inr (pktid, pktids, got, given) ↦
            let sound' : IsSound pktids =
              rw (ap (λ p. p.1) got) at
                (alloc_pktid-IsSound s.rx_pktids skb 0 (pool.dma_map_single skb) sound) in
            let b =
              buf_post msgtype len offset skb pktid (mapped_to (pool.dma_map_single skb)) slot in
            let same : b.request_id ≡ pktid = omega (arith, sound'.fits, given.idx_in) in
            inr (
              rw got refl,
              rw got (record {
                sound = sound';
                held =
                    AllHeld-append pktids s.posted b
                      (AllHeld-kept s.rx_pktids pktids s.posted given.keeps held)
                      (record {
                        idx_in = rw same given.idx_in;
                        busy = rw same given.busy;
                        its_skb = rw same given.its_skb;
                      });
                same_ring = refl;
                more = b ∷ [];
                added = refl;
                as_many = refl;
                frees_more = [];
                freed_more = sym (append-nil s.freed);
                supplied = posts e no_call;
              }),
            )
      ]

  -- What the loop over the slots does.
  pub record Slots (left : ℕ) (s : Posting) (result : ℕ × Posting) : Type 0 where
    pub at_most : result.0 ≤ left
    pub posted : Posted pool s result.1 result.0
    pub broken : result.0 < left → Starved pool result.1

  pub post_slots-Slots :
      (left : ℕ) (s : Posting) (slot : ℕ)
      → IsSound s.rx_pktids
      → AllHeld s.rx_pktids s.posted
      → Slots left s (post_slots left msgtype len offset pool s slot)
  unfolding post_slots One
  post_slots-Slots zero s slot sound held = record {
    at_most = omega arith;
    posted = record {
      sound = sound;
      held = held;
      same_ring = refl;
      more = [];
      added = sym (append-nil s.posted);
      as_many = refl;
      frees_more = [];
      freed_more = sym (append-nil s.freed);
      supplied = no_call;
    };
    broken = λ h. absurd (omega arith);
  }
  post_slots-Slots (suc left) s slot sound held =
      let s0 : Posting = record s { calls = s.calls + 1 } in
      elim (post_one_lem s slot (pool.get_skb s.calls) refl sound held) [
        | inl (stop, one, why) ↦
            rw stop (record { at_most = omega arith; posted = one; broken = λ h. why })
        | inr (go, one) ↦
            let s1 = (post_one msgtype len offset pool s0 slot (pool.get_skb s.calls)).1 in
            let rest = post_slots-Slots left s1 (slot + s.ring.item_len) one.sound one.held in
            rw go (record {
              at_most = omega (arith, rest.at_most);
              posted = record {
                sound = rest.posted.sound;
                held = rest.posted.held;
                same_ring = rest.posted.same_ring ∙ one.same_ring;
                more = one.more ++ rest.posted.more;
                added = appended s.posted one.more rest.posted.more one.added rest.posted.added;
                as_many = omega (
                  arith,
                  length-append one.more rest.posted.more,
                  one.as_many,
                  rest.posted.as_many,
                );
                frees_more = one.frees_more ++ rest.posted.frees_more;
                freed_more =
                    appended s.freed one.frees_more rest.posted.frees_more one.freed_more
                      rest.posted.freed_more;
                supplied = Supply-append one.supplied rest.posted.supplied;
              };
              broken = λ h. rest.broken (omega arith);
            })
      ]
