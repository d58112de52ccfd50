-- ===== src/Ranking/Scores.antt =====
-- The order on scores, and how the labels fit together.
use iptv_sniffer_web.Base.{
  ℕ, ◌≡◌, refl, true, false, List, [], ◌∷◌, arith, nat_eq, string_eq, pair_eq, list_eq,
}
use iptv_sniffer_web.Ranking.{
  exceeds, Resolution, uhd, full_hd, hd, unknown_size, other_size, resolution_label_from_size,
  Quality, uhd_group, hd_group, plain_group, unknown_group, stream_quality_group,
}

pub exceeds_irrefl : (xs : List ℕ) → exceeds xs xs ≡ false
unfolding exceeds
exceeds_irrefl [] = refl
exceeds_irrefl (x ∷ xs) = ground (arith, exceeds_irrefl xs)

-- What does not exceed a score does not exceed a better one either.
pub exceeds_trans :
    (xs ys zs : List ℕ) → exceeds xs ys ≡ false → exceeds ys zs ≡ false → exceeds xs zs ≡ false
unfolding exceeds
exceeds_trans [] ys zs h k = refl
exceeds_trans (x ∷ xs) [] zs h k = absurd (ground arith)
exceeds_trans (x ∷ xs) (y ∷ ys) [] h k = absurd (ground arith)
exceeds_trans (x ∷ xs) (y ∷ ys) (z ∷ zs) h k = ground (arith, exceeds_trans xs ys zs)

pub exceeds_asym : (xs ys : List ℕ) → exceeds xs ys ≡ true → exceeds ys xs ≡ false
unfolding exceeds
exceeds_asym [] ys h = absurd (ground arith)
exceeds_asym (x ∷ xs) [] h = refl
exceeds_asym (x ∷ xs) (y ∷ ys) h = ground (arith, exceeds_asym xs ys)

-- The group of a label.
abbrev group_of : Resolution → Quality
group_of uhd = uhd_group
group_of full_hd = hd_group
group_of hd = hd_group
group_of (other_size width height) = plain_group
group_of unknown_size = unknown_group

-- The quality group of a picture follows from its resolution label, for every width and height.
pub stream_quality_group-resolution :
    (width height : ℕ)
    → stream_quality_group width height ≡ group_of (resolution_label_from_size width height)
unfolding stream_quality_group resolution_label_from_size
stream_quality_group-resolution width height = ground arith
