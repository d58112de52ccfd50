-- ===== src/Rtp/Payload.antt =====
-- RTP packets as a server lays them out, and the payload that is read from them.
use iptv_sniffer_web.Base.{
  ℕ, zero, suc, ◌+◌, ◌-◌, ◌*◌, ◌/◌, ◌%◌, ◌≤◌, ◌<◌, ◌≡◌, refl, ◌∙◌, List, [], ◌∷◌, ◌++◌, arith,
  nat_eq, string_eq, pair_eq, list_eq, length, get_or, length-append, take-append, drop-append,
  get_or-append, byte_at, slice, put_be16, put_be32,
}
use mathlib.Core.List.{append_assoc}
use iptv_sniffer_web.Rtp.{unpad, rtp_payload}

get_or_last : (xs : List ℕ) (y i : ℕ) → i ≡ length xs → get_or (xs ++ y ∷ []) i 0 ≡ y
get_or_last [] y zero h = refl
get_or_last [] y (suc i) h = absurd (omega arith)
get_or_last (x ∷ xs) y zero h = absurd (omega arith)
get_or_last (x ∷ xs) y (suc i) h = get_or_last xs y i (omega arith)

get_or_after :
    (xs ys : List ℕ) (i k : ℕ) → i ≡ length xs + k → get_or (xs ++ ys) i 0 ≡ get_or ys k 0
get_or_after [] ys i k h = let e : i ≡ k = omega arith in rw e
get_or_after (x ∷ xs) ys zero k h = absurd (omega arith)
get_or_after (x ∷ xs) ys (suc i) k h = get_or_after xs ys i k (omega arith)

slice_middle :
    (hdr body rest : List ℕ) (i j : ℕ)
    → i ≡ length hdr
    → j ≡ length hdr + length body
    → slice (hdr ++ (body ++ rest)) i j ≡ body
slice_middle hdr body rest i j h k =
    rw (drop-append i hdr (body ++ rest) h) (take-append (j - i) body rest (omega arith))

-- The padding that a sender adds: filler bytes, and a last byte that counts them and itself.
pub data Padding : Type 0 where
  unpadded : Padding
  padded : List ℕ → Padding

abbrev pub padding_bytes : Padding → List ℕ
padding_bytes unpadded = []
padding_bytes (padded filler) = filler ++ (length filler + 1) ∷ []

abbrev pub padding_bit : Padding → ℕ
padding_bit unpadded = 0
padding_bit (padded filler) = 1

-- The header extension: its profile and its words, four bytes each.
pub data Extension : Type 0 where
  plain : Extension
  extended : ℕ → ℕ → List ℕ → Extension

abbrev pub extension_bytes : Extension → List ℕ
extension_bytes plain = []
extension_bytes (extended profile words body) = put_be16 profile ++ (put_be16 words ++ body)

abbrev pub extension_bit : Extension → ℕ
extension_bit plain = 0
extension_bit (extended profile words body) = 1

abbrev pub IsExtension : Extension → Type 0
IsExtension plain = Unit {0}
IsExtension (extended profile words body) = (words < 65536) × (length body ≡ words * 4)

unpad-unpadded :
    (hdr payload : List ℕ) (offset : ℕ)
    → offset ≡ length hdr
    → byte_at (hdr ++ (payload ++ [])) 0 / 32 % 2 ≡ 0
    → unpad (hdr ++ (payload ++ [])) offset ≡ payload
unfolding unpad
unpad-unpadded hdr [] offset h bit = ground (arith, length-append hdr [])
unpad-unpadded hdr (b ∷ bs) offset h bit = ground (
  arith,
  length-append hdr ((b ∷ bs) ++ []),
  length-append bs [],
  slice_middle hdr (b ∷ bs) [] offset (length (hdr ++ ((b ∷ bs) ++ []))),
)

-- A packet of known length and last byte, without the padding that this counts.
unpad_counted :
    (packet payload : List ℕ) (offset padding : ℕ)
    → byte_at packet 0 / 32 % 2 ≡ 1
    → length packet ≡ offset + length payload + padding
    → byte_at packet (length packet - 1) ≡ padding
    → 0 < padding
    → slice packet offset (length packet - padding) ≡ payload
    → unpad packet offset ≡ payload
unfolding unpad
unpad_counted packet [] offset padding bit size last pos body = ground arith
unpad_counted packet (b ∷ bs) offset padding bit size last pos body = ground arith

last-padding :
    (hdr payload filler : List ℕ)
    → let packet = hdr ++ (payload ++ (filler ++ (length filler + 1) ∷ [])) in
      byte_at packet (length packet - 1) ≡ length filler + 1
last-padding hdr payload filler =
    let front = hdr ++ (payload ++ filler) in
    let e : hdr ++ (payload ++ (filler ++ (length filler + 1) ∷ []))
        ≡ front ++ (length filler + 1) ∷ [] =
      simp append_assoc in
    rw e (
      get_or_last front (length filler + 1) (length (front ++ (length filler + 1) ∷ []) - 1)
        (omega (arith, length-append front ((length filler + 1) ∷ []))))

unpad-padded :
    (hdr payload filler : List ℕ) (offset : ℕ)
    → offset ≡ length hdr
    → byte_at (hdr ++ (payload ++ (filler ++ (length filler + 1) ∷ []))) 0 / 32 % 2 ≡ 1
    → unpad (hdr ++ (payload ++ (filler ++ (length filler + 1) ∷ []))) offset ≡ payload
unpad-padded hdr payload filler offset h bit =
    let tail = filler ++ (length filler + 1) ∷ [] in
    let packet = hdr ++ (payload ++ tail) in
    let size : length packet ≡ offset + length payload + (length filler + 1) = omega (
      arith,
      length-append hdr (payload ++ tail),
      length-append payload tail,
      length-append filler ((length filler + 1) ∷ []),
    ) in
    unpad_counted packet payload offset (length filler + 1) bit size
      (last-padding hdr payload filler) (omega arith)
      (slice_middle hdr payload tail offset (length packet - (length filler + 1)) h (omega arith))

-- A packet with `length sources / 4` contributing sources.
abbrev pub rtp_header : ℕ → ℕ → ℕ → ℕ → List ℕ → Extension → Padding → List ℕ
rtp_header marker_type sequence stamp ssrc sources ext pad =
    (128 + padding_bit pad * 32 + extension_bit ext * 16 + length sources / 4)
      ∷ marker_type
      ∷ put_be16 sequence
    ++ (put_be32 stamp ++ (put_be32 ssrc ++ (sources ++ extension_bytes ext)))

abbrev pub rtp_bytes : ℕ → ℕ → ℕ → ℕ → List ℕ → Extension → List ℕ → Padding → List ℕ
rtp_bytes marker_type sequence stamp ssrc sources ext payload pad =
    rtp_header marker_type sequence stamp ssrc sources ext pad ++ (payload ++ padding_bytes pad)

extension_bit_le : (ext : Extension) → extension_bit ext ≤ 1
extension_bit_le plain = omega arith
extension_bit_le (extended profile words body) = omega arith

module _ (marker_type sequence stamp ssrc : ℕ) (sources payload : List ℕ)
    (words : length sources % 4 ≡ 0) (few : length sources ≤ 60) where
  unpad-rtp_bytes :
      (ext : Extension) (pad : Padding) (offset : ℕ)
      → offset ≡ length (rtp_header marker_type sequence stamp ssrc sources ext pad)
      → unpad (rtp_bytes marker_type sequence stamp ssrc sources ext payload pad) offset ≡ payload
  unpad-rtp_bytes ext unpadded offset h =
      unpad-unpadded (rtp_header marker_type sequence stamp ssrc sources ext unpadded) payload
        offset h (omega (arith, extension_bit_le ext))
  unpad-rtp_bytes ext (padded filler) offset h =
      unpad-padded (rtp_header marker_type sequence stamp ssrc sources ext (padded filler)) payload
        filler offset h (omega (arith, extension_bit_le ext))

  extension_count :
      (profile count : ℕ) (body : List ℕ) (pad : Padding) (k i : ℕ)
      → k < 4
      → i ≡ 12 + length sources + k
      → byte_at
          (rtp_bytes marker_type sequence stamp ssrc sources
            (extended profile count body)
            payload
            pad)
          i
        ≡ byte_at (put_be16 profile ++ put_be16 count) k
  extension_count profile count body pad k i h e =
      let ext = extended profile count body in
      let front = rtp_header marker_type sequence stamp ssrc sources ext pad in
      let head =
        (128 + padding_bit pad * 32 + extension_bit ext * 16 + length sources / 4)
          ∷ marker_type
          ∷ put_be16 sequence
        ++ (put_be32 stamp ++ (put_be32 ssrc ++ sources)) in
      get_or-append front (payload ++ padding_bytes pad) i 0
        (omega (arith, length-append sources (extension_bytes ext)))
      ∙ (get_or_after head (extension_bytes ext) i k (omega arith)
          ∙ get_or-append (put_be16 profile ++ put_be16 count) body k 0 (omega arith))

  -- The payload of any packet that a server sends comes back whole: with up to fifteen contributing
  -- sources, with or without a header extension, with or without padding.
  pub rtp_payload-rtp_bytes :
      (ext : Extension) (pad : Padding)
      → IsExtension ext
      → rtp_payload (rtp_bytes marker_type sequence stamp ssrc sources ext payload pad) ≡ payload
  unfolding rtp_payload
  rtp_payload-rtp_bytes plain unpadded h = ground (
    arith,
    unpad-rtp_bytes plain unpadded (12 + (128 + 0 * 32 + 0 * 16 + length sources / 4) % 16 * 4),
    length-append sources [],
  )
  rtp_payload-rtp_bytes plain (padded filler) h = ground (
    arith,
    unpad-rtp_bytes plain (padded filler)
        (12 + (128 + 1 * 32 + 0 * 16 + length sources / 4) % 16 * 4),
    length-append sources [],
  )
  rtp_payload-rtp_bytes (extended profile count body) unpadded h =
      let ext = extended profile count body in
      ground (
        arith,
        extension_count profile count body unpadded 2
            (12 + (128 + 0 * 32 + 1 * 16 + length sources / 4) % 16 * 4 + 2),
        extension_count profile count body unpadded 3
            (12 + (128 + 0 * 32 + 1 * 16 + length sources / 4) % 16 * 4 + 2 + 1),
        unpad-rtp_bytes ext unpadded
            (12 + (128 + 0 * 32 + 1 * 16 + length sources / 4) % 16 * 4 + (4 + count * 4)),
        length-append sources (extension_bytes ext),
        length-append (sources ++ extension_bytes ext) (payload ++ []),
      )
  rtp_payload-rtp_bytes (extended profile count body) (padded filler) h =
      let ext = extended profile count body in
      ground (
        arith,
        extension_count profile count body (padded filler) 2
            (12 + (128 + 1 * 32 + 1 * 16 + length sources / 4) % 16 * 4 + 2),
        extension_count profile count body (padded filler) 3
            (12 + (128 + 1 * 32 + 1 * 16 + length sources / 4) % 16 * 4 + 2 + 1),
        unpad-rtp_bytes ext (padded filler)
            (12 + (128 + 1 * 32 + 1 * 16 + length sources / 4) % 16 * 4 + (4 + count * 4)),
        length-append sources (extension_bytes ext),
        length-append (sources ++ extension_bytes ext) (payload ++ padding_bytes (padded filler)),
      )
