-- ===== src/Msgbuf/Post/Full.antt =====
-- msgbuf.c: one call of rxbuf_data_post, with the slots that it reserves and hands back.
use mathlib.Core.List.{append-nil}
use omdrop_awdl.Prelude.{
  ℕ, ◌-◌, ◌^◌, ◌≤◌, ◌<◌, ◌≡◌, ◌⊎◌, inl, inr, refl, ◌∙◌, ap, sym, true, false, none, some, List, [],
  ◌++◌, ◌==◌, length, arith, Bool-cases, Option-cases, u16,
}
use omdrop_awdl.Commonring.{reserve_round, reserve_for_write_multiple, claim_many, write_cancel}
use omdrop_awdl.Commonring.Space.{advance, claim_many_lem, reserve_for_write_multiple-some}
use omdrop_awdl.Pcie.{DeviceRing, update_rptr}
use omdrop_awdl.Pcie.Sharing.{
  host, IsSafe, Reach, here, next, Step, update_rptr-IsSafe, write_cancel-reserve_multiple,
}
use omdrop_awdl.Msgbuf.Pktids.Ledger.{IsSound}
use omdrop_awdl.Msgbuf.Tx.Ring.{IsPublished, write_complete-IsPublished}
use omdrop_awdl.Msgbuf.Post.{BufType, BufPost, Pool, Posting, close_slots, post_reserved, post_bufs}
use omdrop_awdl.Msgbuf.Post.Filling.{AllHeld, Starved, Supply, no_call, Slots, post_slots-Slots}

multiple-none :
    (r : DeviceRing) (n : ℕ)
    → (reserve_for_write_multiple (host r) n).0 ≡ none
    → ((reserve_for_write_multiple (host r) n).1.ring.was_full ≡ true)
      × (IsPublished r → IsPublished (reserve_for_write_multiple (host r) n).1.ring)
unfolding reserve_for_write_multiple reserve_round claim_many update_rptr
multiple-none r n h = ground arith

-- Some slots are granted, and no more than were asked for.
multiple-some :
    (r : DeviceRing) (n p alloced : ℕ)
    → IsSafe r
    → 0 < n
    → (reserve_for_write_multiple (host r) n).0 ≡ some (p, alloced)
    → (alloced ≤ n) × (0 < alloced)
multiple-some r n p alloced v pos e =
    let (s, vs, room, claimed) =
      reserve_for_write_multiple-some IsSafe n (host r) update_rptr-IsSafe v (p, alloced) e in
    let lem = claim_many_lem n s vs.bounds room in
    let count : (claim_many n s).0.1 ≡ alloced = ap (λ c. c.0.1) claimed in
    (omega (arith, lem.2, count), omega (arith, lem.3 pos, count))

cancelled-ctx :
    (r : DeviceRing) (n k : ℕ)
    → (write_cancel (reserve_for_write_multiple (host r) n).1 k).ring.ctx ≡ r.ctx
unfolding write_cancel reserve_for_write_multiple reserve_round claim_many update_rptr
cancelled-ctx r n k = ground arith

-- All the slots are handed back.
cancelled-IsPublished :
    (r : DeviceRing) (n p alloced : ℕ)
    → IsSafe r
    → (reserve_for_write_multiple (host r) n).0 ≡ some (p, alloced)
    → 0 < alloced
    → IsPublished r
    → IsPublished (write_cancel (reserve_for_write_multiple (host r) n).1 alloced).ring
cancelled-IsPublished r n p alloced v e pos published up =
    let back = write_cancel-reserve_multiple n p alloced alloced v here e pos (omega arith) in
    let ctx = cancelled-ctx r n alloced in
    let whole : r.w_ptr ≡ advance r.depth r.w_ptr (alloced - alloced) = ground (arith, v.bounds) in
    ap (λ c. c.w_idx) ctx ∙ (published (sym (ap (λ c. c.up) ctx) ∙ up) ∙ (whole ∙ sym back))

-- Buffers are posted, `count` of them, where `n` were wanted.
pub record Round (pool : Pool) (s s' : Posting) (n count : ℕ) : Type 0 where
  pub at_most : count ≤ n
  pub sound : IsSound s'.rx_pktids
  pub held : AllHeld s'.rx_pktids s'.posted
  pub more : List BufPost
  pub added : s'.posted ≡ s.posted ++ more
  pub as_many : length more ≡ count
  pub frees_more : List ℕ
  pub freed_more : s'.freed ≡ s.freed ++ frees_more
  pub supplied : Supply pool s.calls s'.calls more frees_more
  pub reached : Reach s.ring s'.ring
  pub published : IsPublished s'.ring
  pub stopped : count ≡ 0 → (s'.ring.was_full ≡ true) ⊎ Starved pool s'

module _ (msgtype : BufType) (len offset : ℕ) (pool : Pool) (s : Posting) (n : ℕ)
    (safe : IsSafe s.ring) (published : IsPublished s.ring) (sound : IsSound s.rx_pktids)
    (held : AllHeld s.rx_pktids s.posted) (pos : 0 < n) where
  ended :
      (alloced count : ℕ) (s1 : Posting) (ring : DeviceRing)
      → Slots msgtype len offset pool alloced s (count, s1)
      → alloced ≤ n
      → (count ≡ 0 → Starved pool s1)
      → Reach s.ring ring
      → IsPublished ring
      → Round pool s (record s1 { ring = ring }) n count
  ended alloced count s1 ring f most why reached seen = record {
    at_most = omega (arith, f.at_most);
    sound = f.posted.sound;
    held = f.posted.held;
    more = f.posted.more;
    added = f.posted.added;
    as_many = f.posted.as_many;
    frees_more = f.posted.frees_more;
    freed_more = f.posted.freed_more;
    supplied = f.posted.supplied;
    reached = reached;
    published = seen;
    stopped = λ z. inr (why z);
  }

  close_lem :
      (p alloced count : ℕ) (s1 : Posting)
      → (reserve_for_write_multiple (host s.ring) n).0 ≡ some (p, alloced)
      → Slots msgtype len offset pool alloced s (count, s1)
      → let (count', s') =
          close_slots alloced (count, s1) (reserve_for_write_multiple (host s.ring) n).1.ring in
        Round pool s s' n count'
  unfolding close_slots write_cancel
  close_lem p alloced count s1 e f =
      let (most, some_slot) = multiple-some s.ring n p alloced safe pos e in
      elim (Bool-cases (count == alloced)) [
        | inl all ↦
            let some_buf : (count == 0) ≡ false = ground arith in
            rw (all, some_buf)
              (ended alloced count s1 _ f most (λ z. absurd (ground arith))
                (next (next here (Step.reserve_multiple n)) Step.complete)
                (write_complete-IsPublished _))
        | inr less ↦
            let fewer : count < alloced = ground (arith, f.at_most) in
            let back =
              next here
                (Step.hand_back n (alloced - count) p alloced e (omega arith) (omega arith)) in
            elim (Bool-cases (count == 0)) [
              | inl z ↦
                  let whole : alloced - count ≡ alloced = ground arith in
                  rw (less, z)
                    (ended alloced count s1 _ f most (λ z. f.broken fewer) back
                      (rw whole
                        (cancelled-IsPublished s.ring n p alloced safe e some_slot published)))
              | inr some_buf ↦
                  rw (less, some_buf)
                    (ended alloced count s1 _ f most (λ z. f.broken fewer) (next back Step.complete)
                      (write_complete-IsPublished _))
            ]
      ]

  pub post_bufs-Round :
      n < 2 ^ 16
      → Round pool s
          (post_bufs msgtype len offset pool s n).1
          n
          (post_bufs msgtype len offset pool s n).0
  unfolding post_bufs post_reserved
  post_bufs-Round short =
      let same : u16 n ≡ n = omega arith in
      elim (Option-cases (reserve_for_write_multiple (host s.ring) n).0) [
        | inl refused ↦
            let (full, seen) = multiple-none s.ring n refused in
            rw same (
              rw refused (record {
                at_most = omega arith;
                sound = sound;
                held = held;
                more = [];
                added = sym (append-nil s.posted);
                as_many = refl;
                frees_more = [];
                freed_more = sym (append-nil s.freed);
                supplied = no_call;
                reached = next here (Step.reserve_multiple n);
                published = seen published;
                stopped = λ z. inl full;
              }))
        | inr ((p, alloced), e) ↦ rw same (
            rw e (
              close_lem p alloced _ _ e
                (post_slots-Slots msgtype len offset pool alloced s p sound held)))
      ]
