-- ===== src/Rtp.antt =====
-- services/rtsp_catchup_service.py, `CombinedRtspUdpSession`: the RTP payload of a packet, the
-- statistics of its sequence numbers, and the reading of the next payload.
pub mod Payload
pub mod Sequence
use iptv_sniffer_web.Base.{
  ℕ, zero, suc, ◌+◌, ◌-◌, ◌*◌, ◌/◌, ◌%◌, ◌^◌, ◌≤◌, ◌<◌, min, max, String, ◌≡◌, refl, sym, ap, ◌∙◌,
  ◌≢◌, ◌↔◌, ◌⊎◌, inl, inr, Bool, true, false, not, ◌&&◌, ◌||◌, Option, none, some, List, [], ◌∷◌,
  ◌++◌, map, arith, ◌>>=◌, >>=-eq-some, ltb, leb, if◌then◌else◌, Comparable, ◌==◌, nat_eq,
  string_eq, pair_eq, list_eq, Bool-cases, Option-cases, ltb→lt, ltb→le, lt→ltb, le→ltb, leb→le,
  le→leb, length, get_or, get_elem?, take, drop, last_n, length-append, length-take, length-drop,
  take-append-drop, take-append, drop-append, take_all, take-append_le, drop-append_le,
  slice-append, get_or-append, All, All-append, byte_at, slice, be16, be32, le16, le32, IsByte,
  AreBytes, put_be16, put_be32, put_le16, put_le32, ==_iff, ==_refl, Text, str_nat, is_digit,
  digits_value, digits_value-str_nat,
}

-- The payload of a packet whose header ends at `offset`.
unfoldable pub unpad : List ℕ → ℕ → List ℕ
unpad packet offset =
    let end = length packet in
    let padding = byte_at packet (end - 1) in
    if byte_at packet 0 / 32 % 2 == 1
    then (if padding == 0 || ltb (end - offset) padding || ltb end offset
        then []
        else if ltb offset (end - padding)
        then slice packet offset (end - padding)
        else [])
    else if ltb offset end
    then slice packet offset end
    else []

-- `_rtp_payload`.
unfoldable pub rtp_payload : List ℕ → List ℕ
rtp_payload packet =
    let offset = 12 + byte_at packet 0 % 16 * 4 in
    if ltb (length packet) 12 || not (byte_at packet 0 / 64 == 2)
    then []
    else if byte_at packet 0 / 16 % 2 == 1
    then (if ltb (length packet) (offset + 4)
        then []
        else unpad packet (offset + (4 + be16 packet (offset + 2) * 4)))
    else unpad packet offset

pub record Stats : Type 0 where
  pub packets : ℕ
  pub sequence_gaps : ℕ
  pub late_or_duplicate : ℕ
  pub last_sequence : Option ℕ

unfoldable pub init : Stats
init = record { packets = 0; sequence_gaps = 0; late_or_duplicate = 0; last_sequence = none }

-- `_record_rtp_sequence`, from the packet's sequence number on: `(sequence - last) & 0xffff`.
unfoldable pub record_sequence : Stats → ℕ → Stats
record_sequence s sequence = elim s.last_sequence [
  | none ↦ record s { packets = s.packets + 1; last_sequence = some sequence }
  | some last ↦
      let delta = (sequence + 65536 - last) % 65536 in
      if delta == 0 || ltb 32768 delta
      then record s { packets = s.packets + 1; late_or_duplicate = s.late_or_duplicate + 1 }
      else record s {
        packets = s.packets + 1;
        sequence_gaps = s.sequence_gaps + (delta - 1);
        last_sequence = some sequence;
      }
]

unfoldable pub record_rtp_sequence : Stats → List ℕ → Stats
record_rtp_sequence s packet =
    if ltb (length packet) 12 || not (byte_at packet 0 / 64 == 2)
    then s
    else record_sequence s (be16 packet 2)

-- What `recvfrom` gives.
pub data Received : Type 0 where
  datagram : List ℕ → Received
  timed_out closed : Received

pub data Reading : Type 0 where
  payload : List ℕ → Reading
  -- The categories "rtsp_timeout", "rtsp_connection_closed" and "rtsp_no_media".
  timeout connection_closed no_media : Reading
  -- The list of events is used up: the call still waits.
  waiting : Reading

-- The loop of `read_payload` over what the socket will give, with the rounds left.
unfoldable pub read_loop : ℕ → Stats → List Received → Reading × Stats × List Received
read_loop zero s rs = (no_media, s, rs)
read_loop (suc n) s [] = (waiting, s, [])
read_loop (suc n) s (timed_out ∷ rs) = (timeout, s, rs)
read_loop (suc n) s (closed ∷ rs) = (connection_closed, s, rs)
read_loop (suc n) s (datagram packet ∷ rs) =
    let s' = record_rtp_sequence s packet in
    let found = rtp_payload packet in
    let more = read_loop n s' rs in
    if ltb 0 (length packet) && byte_at packet 0 == 0x47
    then (payload packet, s, rs)
    else if ltb 0 (length found)
    then (payload found, s', rs)
    else more

-- `read_payload`, after its keep-alive.
unfoldable pub read_payload : Stats → List Received → Reading × Stats × List Received
read_payload s rs = read_loop 100 s rs
