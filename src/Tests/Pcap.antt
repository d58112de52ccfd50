-- ===== src/Tests/Pcap.antt =====
-- A capture with one packet, and the start of a second.
use iptv_sniffer_web.Base.{
  ℕ, ◌≡◌, refl, ◌≢◌, inr, List, [], ◌∷◌, ◌++◌, arith, nat_eq, string_eq, pair_eq, list_eq, All,
}
use iptv_sniffer_web.Pcap.{stuck, finished, big, is_supported}
use iptv_sniffer_web.Pcap.Classic.{
  Record, records_bytes, header_bytes, yielded, iter_pcap_packets-records_bytes,
}
use iptv_sniffer_web.Pcap.Ng.{iter_pcap_packets}
use iptv_sniffer_web.Pcap.Bounds.{IsPacket, iter_pcap_packets-IsRead}

abbrev capture : List ℕ
capture =
    0xD4 ∷ 0xC3 ∷ 0xB2 ∷ 0xA1 ∷ 2 ∷ 0 ∷ 4 ∷ 0 ∷ 0 ∷ 0 ∷ 0 ∷ 0 ∷ 0 ∷ 0 ∷ 0 ∷ 0 ∷ 0 ∷ 0 ∷ 4 ∷ 0 ∷ 1
    ∷ 0 ∷ 0 ∷ 0 ∷ 1 ∷ 0 ∷ 0 ∷ 0 ∷ 2 ∷ 0 ∷ 0 ∷ 0 ∷ 3 ∷ 0 ∷ 0 ∷ 0 ∷ 3 ∷ 0 ∷ 0 ∷ 0 ∷ 7 ∷ 8 ∷ 9 ∷ 1 ∷ []

iter_pcap_packets-IsRead_example :
    All IsPacket (iter_pcap_packets capture).packets × ((iter_pcap_packets capture).ending ≢ stuck)
iter_pcap_packets-IsRead_example = iter_pcap_packets-IsRead capture

abbrev sample : Record
sample = record { seconds = 1; fraction = 2; original = 9; packet = 7 ∷ 8 ∷ 9 ∷ [] }

iter_pcap_packets-records_bytes_example :
    iter_pcap_packets
      (header_bytes big 262144 113 ++ (records_bytes big (sample ∷ sample ∷ []) ++ 0 ∷ 1 ∷ []))
    ≡ record { packets = yielded 113 (sample ∷ sample ∷ []); ending = finished }
unfolding is_supported
iter_pcap_packets-records_bytes_example =
    iter_pcap_packets-records_bytes big 262144 113 (sample ∷ sample ∷ []) (0 ∷ 1 ∷ []) (omega arith)
      refl ((omega arith, inr (omega arith)), ((omega arith, inr (omega arith)), tt)) (omega arith)
      (omega arith)
