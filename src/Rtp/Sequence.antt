-- ===== src/Rtp/Sequence.antt =====
-- The statistics of RTP sequence numbers.
use iptv_sniffer_web.Base.{
  ℕ, zero, suc, ◌+◌, ◌-◌, ◌%◌, ◌≤◌, ◌<◌, ◌≡◌, refl, inl, inr, ◌&&◌, some, List, [], ◌∷◌, arith, ltb,
  ◌==◌, nat_eq, string_eq, pair_eq, list_eq, Bool-cases, ltb→lt, length, All, byte_at,
}
use iptv_sniffer_web.Rtp.{
  Stats, record_sequence, record_rtp_sequence, Received, datagram, timed_out, closed, Reading,
  payload, timeout, connection_closed, no_media, waiting, read_loop, read_payload, rtp_payload,
}

-- A list of sequence numbers, as they arrive.
unfoldable pub record_all : Stats → List ℕ → Stats
record_all s [] = s
record_all s (n ∷ ns) = record_all (record_sequence s n) ns

-- Numbers that arrive in order from `start`, each so many after the one before: `d + 1` leaves a
-- gap of `d` packets.
unfoldable pub arrivals : ℕ → List ℕ → List ℕ
arrivals start [] = []
arrivals start (d ∷ ds) = ((start + d + 1) % 65536) ∷ arrivals ((start + d + 1) % 65536) ds

unfoldable pub total : List ℕ → ℕ
total [] = 0
total (d ∷ ds) = d + total ds

record_arrival :
    (s : Stats) (last d : ℕ)
    → s.last_sequence ≡ some last
    → last < 65536
    → d < 32768
    → record_sequence s ((last + d + 1) % 65536) ≡ record s {
      packets = s.packets + 1;
      sequence_gaps = s.sequence_gaps + d;
      last_sequence = some ((last + d + 1) % 65536);
    }
unfolding record_sequence
record_arrival s last d h k l =
    let e : ((last + d + 1) % 65536 + 65536 - last) % 65536 ≡ d + 1 = omega arith in
    ground (arith, e)

-- A stream that arrives in order is accounted for exactly, also across the wrap of the 16-bit
-- counter: one packet for each arrival, none late, and the gaps add up to the packets that are
-- missing, as long as no gap is of half the numbers or more.
pub record_all-arrivals :
    (s : Stats) (last : ℕ) (ds : List ℕ)
    → s.last_sequence ≡ some last
    → last < 65536
    → All (λ d. d < 32768) ds
    → let t = record_all s (arrivals last ds) in
      (t.packets ≡ s.packets + length ds)
      × (t.sequence_gaps ≡ s.sequence_gaps + total ds)
      × (t.late_or_duplicate ≡ s.late_or_duplicate)
unfolding record_all arrivals total
record_all-arrivals s last [] h k l = omega arith
record_all-arrivals s last (d ∷ ds) h k l =
    let next = (last + d + 1) % 65536 in
    let s' = record s {
      packets = s.packets + 1;
      sequence_gaps = s.sequence_gaps + d;
      last_sequence = some next;
    } in
    ground (
      arith,
      record_arrival s last d h k l.0,
      record_all-arrivals s' next ds refl (omega arith) l.1,
    )

-- A packet that repeats the last number, or comes after a newer one, is counted as late and moves
-- nothing else.
record_sequence_late :
    (s : Stats) (last back : ℕ)
    → s.last_sequence ≡ some last
    → last < 65536
    → back < 32768
    → record_sequence s ((last + 65536 - back) % 65536)
      ≡ record s { packets = s.packets + 1; late_or_duplicate = s.late_or_duplicate + 1 }
unfolding record_sequence
record_sequence_late s last back h k l =
    let e : ((last + 65536 - back) % 65536 + 65536 - last) % 65536 ≡ (65536 - back) % 65536 =
      omega arith in
    ground (arith, e)

-- A reading of these events within `n` rounds: what is taken, and what is left.
abbrev pub IsReading : ℕ → List Received → Reading × Stats × List Received → Type 0
IsReading n rs (payload bs, s, rest) =
    (0 < length bs) × (length rest < length rs) × (length rs ≤ length rest + n)
IsReading n rs (timeout, s, rest) = (length rest < length rs) × (length rs ≤ length rest + n)
IsReading n rs (connection_closed, s, rest) =
    (length rest < length rs) × (length rs ≤ length rest + n)
IsReading n rs (no_media, s, rest) = length rs ≡ length rest + n
IsReading n rs (waiting, s, rest) = (rest ≡ []) × (length rs < n)

IsReading-suc :
    (n : ℕ) (x : Received) (rs : List Received) (r : Reading × Stats × List Received)
    → IsReading n rs r
    → IsReading (suc n) (x ∷ rs) r
IsReading-suc n x rs (payload bs, s, rest) h = omega arith
IsReading-suc n x rs (timeout, s, rest) h = omega arith
IsReading-suc n x rs (connection_closed, s, rest) h = omega arith
IsReading-suc n x rs (no_media, s, rest) h = omega arith
IsReading-suc n x rs (waiting, s, rest) h = (h.0, omega arith)

read_loop-IsReading : (n : ℕ) (s : Stats) (rs : List Received) → IsReading n rs (read_loop n s rs)
unfolding read_loop
read_loop-IsReading zero s rs = omega arith
read_loop-IsReading (suc n) s [] = (refl, omega arith)
read_loop-IsReading (suc n) s (timed_out ∷ rs) = omega arith
read_loop-IsReading (suc n) s (closed ∷ rs) = omega arith
read_loop-IsReading (suc n) s (datagram packet ∷ rs) =
    elim (Bool-cases (ltb 0 (length packet) && byte_at packet 0 == 0x47)) [
      | inl raw ↦ rw raw (ground arith, omega arith, omega arith)
      | inr other ↦ elim (Bool-cases (ltb 0 (length (rtp_payload packet)))) [
        | inl found ↦ rw (other, found) (ltb→lt _ _ found, omega arith, omega arith)
        | inr empty ↦
            rw (other, empty)
              (IsReading-suc n (datagram packet) rs _
                (read_loop-IsReading n (record_rtp_sequence s packet) rs))
      ]
    ]

-- `read_payload` over any events of the socket takes a hundred datagrams at most; it reports
-- "rtsp_no_media" exactly when it took all hundred, never gives an empty payload, and goes on
-- waiting only when nothing more has arrived.
read_payload-IsReading : (s : Stats) (rs : List Received) → IsReading 100 rs (read_payload s rs)
unfolding read_payload
read_payload-IsReading s rs = read_loop-IsReading 100 s rs
