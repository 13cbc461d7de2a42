-- ===== src/Fwsignal/Signals.antt =====
-- fwsignal.c: the signals of the firmware that come in front of a received packet.
pub mod Parsing
pub mod Heard
pub mod Pieces
pub mod Rounds
pub mod Listed
use omdrop_awdl.Prelude.{
  ℕ, zero, suc, ◌+◌, ◌-◌, Bool, true, false, not, ◌||◌, Option, none, some, List, [], ◌∷◌, ◌==◌,
  ltb, drop, length, is_none, u32, if◌then◌else◌, ◌>>=◌,
}

-- `enum brcmf_fws_tlv_type`, the types that are handled or skipped.
abbrev pub mac_open : ℕ
mac_open = 1

abbrev pub mac_close : ℕ
mac_close = 2

abbrev pub mac_request_credit : ℕ
mac_request_credit = 3

abbrev pub txstatus : ℕ
txstatus = 4

abbrev pub macdesc_add : ℕ
macdesc_add = 6

abbrev pub macdesc_del : ℕ
macdesc_del = 7

abbrev pub rssi : ℕ
rssi = 8

abbrev pub interface_open : ℕ
interface_open = 9

abbrev pub interface_close : ℕ
interface_close = 10

abbrev pub fifo_creditback : ℕ
fifo_creditback = 11

abbrev pub mac_request_packet : ℕ
mac_request_packet = 13

abbrev pub host_reorder_rxpkts : ℕ
host_reorder_rxpkts = 14

abbrev pub trans_id : ℕ
trans_id = 18

abbrev pub comp_txstatus : ℕ
comp_txstatus = 19

abbrev pub filler : ℕ
filler = 255

-- BRCMF_FWS_TLV_DEFLIST: the types, each with its length.
abbrev pub tlv_deflist : List (ℕ × ℕ)
tlv_deflist =
    (1, 1)
    ∷ (2, 1)
    ∷ (3, 2)
    ∷ (4, 4)
    ∷ (5, 4)
    ∷ (6, 8)
    ∷ (7, 8)
    ∷ (8, 1)
    ∷ (9, 1)
    ∷ (10, 1)
    ∷ (11, 6)
    ∷ (12, 2)
    ∷ (13, 3)
    ∷ (14, 10)
    ∷ (18, 6)
    ∷ (19, 1)
    ∷ (255, 0)
    ∷ []

-- The length that is defined for a type, or `none` for -EINVAL.
unfoldable pub tlv_len_in : List (ℕ × ℕ) → ℕ → Option ℕ
tlv_len_in [] type = none
tlv_len_in ((id, len) ∷ deflist) type =
    let rest : Option ℕ = tlv_len_in deflist type in if type == id then some len else rest

-- A length that is defined, and that `len` is below.
unfoldable pub is_short : ℕ → Option ℕ → Bool
is_short len none = false
is_short len (some defined) = ltb len defined

-- The handlers of the signals, on the other state of `struct brcmf_fws_info`: those that ask for the
-- packets to be scheduled return whether they do. They see all bytes that follow the length.
pub record Indications (S : Type 0) : Type 0 where
  pub macdesc_indicate : S → ℕ → List ℕ → S
  pub macdesc_state_indicate : S → ℕ → List ℕ → Bool × S
  pub interface_state_indicate : S → ℕ → List ℕ → Bool × S
  pub request_indicate : S → ℕ → List ℕ → Bool × S
  pub txstatus_indicate : S → ℕ → List ℕ → S
  pub fifocreditback_indicate : S → List ℕ → Bool × S
  pub rssi_indicate : S → List ℕ → S
  pub dbg_seqnum_check : S → List ℕ → S

-- What brcmf_fws_hdrpull uses of `struct brcmf_fws_info`, its counts among `stats`, and the field
-- `reorder` of the packet, which points at the bytes of a signal.
pub record Signals (S : Type 0) : Type 0 where
  pub fws : S
  pub reorder : List ℕ
  pub tlv_parse_failed : ℕ
  pub tlv_invalid_type : ℕ
  pub header_only_pkt : ℕ
  pub header_pulls : ℕ

-- The result of hdrpull: whether the packets are scheduled, the state, and what is left of the packet.
pub record Pulled (S : Type 0) : Type 0 where
  pub scheduled : Bool
  pub state : Signals S
  pub skb : List ℕ

module _ {S : Type 0} where
  abbrev pub invalid_type : Signals S → Signals S
  invalid_type s = record s { tlv_invalid_type = u32 (s.tlv_invalid_type + 1) }

  -- In a build without debugging messages, whose arguments count an unknown type once more.
  unfoldable pub get_tlv_len : Signals S → ℕ → Option ℕ × Signals S
  get_tlv_len s type =
      let len : Option ℕ = tlv_len_in tlv_deflist type in
      (len, if is_none len then invalid_type s else s)

  abbrev pub quiet : Signals S → S → Bool × Signals S
  quiet s fws = (false, record s { fws = fws })

  abbrev pub answered : Signals S → Bool × S → Bool × Signals S
  answered s (schedule, fws) = (schedule, record s { fws = fws })

  -- After the loop.
  unfoldable pub pull_end : List ℕ → Bool × ℕ × Signals S → Pulled S
  pull_end skb (status, data_len, s) =
      let s1 : Signals S =
        if data_len == 0 then s else record s { tlv_parse_failed = u32 (s.tlv_parse_failed + 1) } in
      record {
        scheduled = status;
        state =
            if length skb == 0
            then record s1 { header_only_pkt = u32 (s1.header_only_pkt + 1) }
            else s1;
        skb = skb;
      }

module _ {S : Type 0} (ind : Indications S) where
  -- The switch over the type.
  unfoldable pub indicate : Signals S → ℕ → List ℕ → Bool × Signals S
  indicate s type value =
      if type == host_reorder_rxpkts
      then (false, record s { reorder = value })
      else if type == macdesc_add || type == macdesc_del
      then quiet s (ind.macdesc_indicate s.fws type value)
      else if type == mac_open || type == mac_close
      then answered s (ind.macdesc_state_indicate s.fws type value)
      else if type == interface_open || type == interface_close
      then answered s (ind.interface_state_indicate s.fws type value)
      else if type == mac_request_credit || type == mac_request_packet
      then answered s (ind.request_indicate s.fws type value)
      else if type == txstatus || type == comp_txstatus
      then quiet s (ind.txstatus_indicate s.fws type value)
      else if type == fifo_creditback
      then answered s (ind.fifocreditback_indicate s.fws value)
      else if type == rssi
      then quiet s (ind.rssi_indicate s.fws value)
      else if type == trans_id
      then quiet s (ind.dbg_seqnum_check s.fws value)
      else (false, invalid_type s)

  -- A signal whose type has been read, from its length on: the bytes that it takes, 0 where the loop
  -- breaks, and whether the packets are scheduled.
  unfoldable pub take_tlv : Signals S → ℕ → List ℕ → ℕ → Option (ℕ × Bool × Signals S)
  take_tlv s type [] data_len = none
  take_tlv s type (len ∷ value) data_len =
      let (defined, s1) = get_tlv_len s type in
      let (schedule, s2) = indicate s1 type value in
      if ltb data_len (len + 2)
      then some (0, false, s)
      else if is_short len defined
      then some (0, false, s1)
      else some (len + 2, schedule, s2)

  -- A round of the loop. Bytes behind the packet are a fault.
  unfoldable pub take_signal : Signals S → List ℕ → ℕ → Option (ℕ × Bool × Signals S)
  take_signal s signal_data zero = some (0, false, s)
  take_signal s [] (suc left) = none
  take_signal s (type ∷ value) (suc left) =
      if type == filler then some (1, false, s) else take_tlv s type value (suc left)

  -- The loop: whether the packets are scheduled, the bytes that are left, and the state.
  unfoldable pub parse_signals : ℕ → Signals S → List ℕ → ℕ → Bool → Option (Bool × ℕ × Signals S)
  parse_signals zero s signal_data data_len status = none
  parse_signals (suc fuel) s signal_data data_len status = do
    (taken, schedule, s1) ← take_signal s signal_data data_len
    let rest : Option (Bool × ℕ × Signals S) =
        parse_signals fuel s1 (drop taken signal_data) (data_len - taken) (status || schedule)
    if taken == 0 then some (status, data_len, s1) else rest

  -- `siglen` is not negative. Each round of the loop takes a byte, but for the last one.
  unfoldable pub hdrpull : Bool → Signals S → ℕ → List ℕ → Option (Pulled S)
  hdrpull fw_signals s siglen skb =
      let n : ℕ = if ltb (length skb) siglen then length skb else siglen in
      let s1 : Signals S = record s { header_pulls = u32 (s.header_pulls + 1) } in
      if n == 0
      then some (record { scheduled = false; state = s; skb = skb })
      else if not fw_signals
      then some (record { scheduled = false; state = s; skb = drop n skb })
      else do result ← parse_signals (n + 1) s1 skb n false; some (pull_end (drop n skb) result)
