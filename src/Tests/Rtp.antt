-- ===== src/Tests/Rtp.antt =====
-- A packet with an extension and padding, and a stream that wraps around.
use iptv_sniffer_web.Base.{
  ℕ, ◌+◌, ◌≡◌, refl, some, [], ◌∷◌, arith, nat_eq, string_eq, pair_eq, list_eq, length,
}
use iptv_sniffer_web.Rtp.{rtp_payload, Stats}
use iptv_sniffer_web.Rtp.Payload.{padded, extended, rtp_bytes, rtp_payload-rtp_bytes}
use iptv_sniffer_web.Rtp.Sequence.{record_all, arrivals, total, record_all-arrivals}

rtp_payload-rtp_bytes_example :
    rtp_payload (
      rtp_bytes 33 7 1 2
        (1 ∷ 2 ∷ 3 ∷ 4 ∷ [])
        (extended 5 1 (9 ∷ 9 ∷ 9 ∷ 9 ∷ []))
        (0x47 ∷ 0 ∷ [])
        (padded (0 ∷ [])))
    ≡ 0x47 ∷ 0 ∷ []
rtp_payload-rtp_bytes_example =
    rtp_payload-rtp_bytes 33 7 1 2 (1 ∷ 2 ∷ 3 ∷ 4 ∷ []) (0x47 ∷ 0 ∷ []) refl (omega arith)
      (extended 5 1 (9 ∷ 9 ∷ 9 ∷ 9 ∷ [])) (padded (0 ∷ [])) (omega arith, refl)

abbrev near_wrap : Stats
near_wrap = record {
  packets = 10;
  sequence_gaps = 0;
  late_or_duplicate = 0;
  last_sequence = some 65534;
}

record_all-arrivals_example :
    let t = record_all near_wrap (arrivals 65534 (0 ∷ 2 ∷ [])) in
    (t.packets ≡ near_wrap.packets + length {A = ℕ} (0 ∷ 2 ∷ []))
    × (t.sequence_gaps ≡ near_wrap.sequence_gaps + total (0 ∷ 2 ∷ []))
    × (t.late_or_duplicate ≡ near_wrap.late_or_duplicate)
record_all-arrivals_example =
    record_all-arrivals near_wrap 65534 (0 ∷ 2 ∷ []) refl (omega arith)
      (omega arith, (omega arith, tt))
