-- ===== src/Fwsignal/Hanger.antt =====
-- fwsignal.c: the hanger, where packets wait for the status that the firmware sends back for them.
pub mod Search
pub mod Count
use omdrop_awdl.Prelude.{
  ℕ, zero, suc, ◌+◌, ◌%◌, ◌^◌, Bool, true, false, not, ◌&&◌, Option, none, some, List, [], ◌∷◌,
  ◌==◌, leb, update, u32, if◌then◌else◌,
}

-- BRCMF_FWS_HANGER_MAXITEMS
abbrev pub maxitems : ℕ
maxitems = 3072

-- FREE, INUSE and INUSE_SUPPRESSED.
pub data ItemState : Type 0 where
  item_free inuse inuse_suppressed : ItemState

-- A packet is the number of its buffer, and NULL is 0.
pub record HangerItem : Type 0 where
  pub state : ItemState
  pub pkt : ℕ

pub record Hanger : Type 0 where
  pub pushed : ℕ
  pub popped : ℕ
  pub failed_to_push : ℕ
  pub failed_to_pop : ℕ
  pub failed_slotfind : ℕ
  pub slot_pos : ℕ
  pub items : ℕ → HangerItem

abbrev pub is_free : ItemState → Bool
is_free item_free = true
is_free _ = false

-- 0, -ENOENT and -EINVAL.
pub data HangerStatus : Type 0 where
  hung enoent einval : HangerStatus

unfoldable pub hanger_init : Hanger
hanger_init = record {
  pushed = 0;
  popped = 0;
  failed_to_push = 0;
  failed_to_pop = 0;
  failed_slotfind = 0;
  slot_pos = 0;
  items = λ i. record { state = item_free; pkt = 0 };
}

-- `i++; if (i == BRCMF_FWS_HANGER_MAXITEMS) i = 0;`
abbrev pub next_slot : ℕ → ℕ
next_slot i = if u32 (i + 1) == maxitems then 0 else u32 (i + 1)

-- The loop of get_free_slot, on fuel.
unfoldable pub search : (ℕ → HangerItem) → ℕ → ℕ → ℕ → Option ℕ
search items slot_pos i zero = none
search items slot_pos i (suc fuel) =
    let rest : Option ℕ = search items slot_pos (next_slot i) fuel in
    if i == slot_pos then none else (if is_free (items i).state then some i else rest)

unfoldable pub found_slot : Hanger → Option ℕ → ℕ × Hanger
found_slot h none = (maxitems, record h { failed_slotfind = u32 (h.failed_slotfind + 1) })
found_slot h (some i) = (i, record h { slot_pos = i })

-- The loop goes once around the items: as many rounds as there are items are enough.
unfoldable pub get_free_slot : Hanger → ℕ × Hanger
get_free_slot h =
    found_slot h (search h.items h.slot_pos (u32 (h.slot_pos + 1) % maxitems) maxitems)

unfoldable pub pushpkt : Hanger → ℕ → ℕ → HangerStatus × Hanger
pushpkt h pkt slot_id =
    if leb maxitems slot_id
    then (enoent, h)
    else (if not (is_free (h.items slot_id).state)
        then (einval, record h { failed_to_push = u32 (h.failed_to_push + 1) })
        else (
          hung,
          record h {
            items = update h.items slot_id (record { state = inuse; pkt = pkt });
            pushed = u32 (h.pushed + 1);
          },
        ))

-- The status and `*pktout`.
unfoldable pub poppkt : Hanger → ℕ → Bool → (HangerStatus × Option ℕ) × Hanger
poppkt h slot_id remove_item =
    let pkt : ℕ = (h.items slot_id).pkt in
    if leb maxitems slot_id
    then ((enoent, none), h)
    else (if is_free (h.items slot_id).state
        then ((einval, none), record h { failed_to_pop = u32 (h.failed_to_pop + 1) })
        else (if remove_item
            then (
              (hung, some pkt),
              record h {
                items = update h.items slot_id (record { state = item_free; pkt = 0 });
                popped = u32 (h.popped + 1);
              },
            )
            else ((hung, some pkt), h)))

unfoldable pub mark_suppressed : Hanger → ℕ → HangerStatus × Hanger
mark_suppressed h slot_id =
    if leb maxitems slot_id
    then (enoent, h)
    else (if is_free (h.items slot_id).state then (einval, h) else (
      hung,
      record h {
        items = update h.items slot_id (record (h.items slot_id) { state = inuse_suppressed });
      },
    ))
