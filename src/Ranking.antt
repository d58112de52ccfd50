-- ===== src/Ranking.antt =====
-- utils.py: which channels are lines of one another (`channel_group_key`), how good each is
-- (`channel_primary_score`), and labels by picture size. Texts are lists of code points; `upper` and
-- `is_space` are Python's, `is_decimal` is the class `\\d`. Statuses come stripped and in lower case.
pub mod Groups
pub mod Scores
use iptv_sniffer_web.Base.{
  ℕ, zero, suc, ◌+◌, ◌-◌, ◌*◌, ◌/◌, ◌%◌, ◌^◌, ◌≤◌, ◌<◌, min, max, String, ◌≡◌, refl, sym, ap, ◌∙◌,
  ◌≢◌, ◌↔◌, ◌⊎◌, inl, inr, Bool, true, false, not, ◌&&◌, ◌||◌, Option, none, some, List, [], ◌∷◌,
  ◌++◌, map, arith, ◌>>=◌, >>=-eq-some, ltb, leb, if◌then◌else◌, ◌==◌, nat_eq, string_eq, pair_eq,
  list_eq, Bool-cases, Option-cases, ltb→lt, ltb→le, lt→ltb, le→ltb, leb→le, le→leb, length, get_or,
  get_elem?, take, drop, last_n, length-append, length-take, length-drop, take-append-drop,
  take-append, drop-append, take_all, take-append_le, drop-append_le, slice-append, get_or-append,
  All, All-append, byte_at, slice, be16, be32, le16, le32, IsByte, AreBytes, put_be16, put_be32,
  put_le16, put_le32, ==_iff, ==_refl, Text, str_nat, is_digit, digits_value, digits_value-str_nat,
}
use iptv_sniffer_web.Base.Dict.{Dict, lookup}

-- What Python knows of characters.
pub record Characters : Type 0 where
  pub upper : Text → Text
  pub is_space : ℕ → Bool
  pub is_decimal : ℕ → Bool

unfoldable pub member : ℕ → Text → Bool
member c [] = false
member c (x ∷ xs) = x == c || member c xs

-- The class `[\\s\\-_·•【】\\[\\]()（）]`.
unfoldable pub punctuation : Text
punctuation = 45 ∷ 95 ∷ 183 ∷ 8226 ∷ 12304 ∷ 12305 ∷ 91 ∷ 93 ∷ 40 ∷ 41 ∷ 65288 ∷ 65289 ∷ []

unfoldable pub drop_punctuation : Characters → Text → Text
drop_punctuation chars [] = []
drop_punctuation chars (c ∷ cs) =
    let rest = drop_punctuation chars cs in
    if chars.is_space c || member c punctuation then rest else c ∷ rest

unfoldable pub is_one_of : Text → List Text → Bool
is_one_of w [] = false
is_one_of w (x ∷ xs) = x == w || is_one_of w xs

-- 4K, SUPER4K, UHD, 超高清, 高清, 标清, HD, SD.
unfoldable pub quality_words : List Text
quality_words =
    (52 ∷ 75 ∷ [])
    ∷ (83 ∷ 85 ∷ 80 ∷ 69 ∷ 82 ∷ 52 ∷ 75 ∷ [])
    ∷ (85 ∷ 72 ∷ 68 ∷ [])
    ∷ (36229 ∷ 39640 ∷ 28165 ∷ [])
    ∷ (39640 ∷ 28165 ∷ [])
    ∷ (26631 ∷ 28165 ∷ [])
    ∷ (72 ∷ 68 ∷ [])
    ∷ (83 ∷ 68 ∷ [])
    ∷ []

-- The capital that a character is compared as under `re.IGNORECASE`: besides the small letters, the
-- Kelvin sign stands for K, the dotted and the dotless I for I, and the long s for S.
unfoldable pub letter_of : ℕ → ℕ
letter_of c =
    if leb 97 c && leb c 122
    then c - 32
    else if c == 0x212A
    then 75
    else if c == 0x130 || c == 0x131
    then 73
    else if c == 0x17F
    then 83
    else c

unfoldable pub spelled : Text → Text
spelled [] = []
spelled (c ∷ cs) = letter_of c ∷ spelled cs

unfoldable pub is_scan : ℕ → Bool
is_scan c = letter_of c == 80 || letter_of c == 73

-- `\\d{3,4}[PI]`.
unfoldable pub is_lines : Characters → Text → Bool
is_lines chars (a ∷ b ∷ c ∷ p ∷ []) =
    chars.is_decimal a && (chars.is_decimal b && (chars.is_decimal c && is_scan p))
is_lines chars (a ∷ b ∷ c ∷ d ∷ p ∷ []) =
    chars.is_decimal a
    && (chars.is_decimal b && (chars.is_decimal c && (chars.is_decimal d && is_scan p)))
is_lines chars w = false

unfoldable pub is_quality : Characters → Text → Bool
is_quality chars w = is_one_of (spelled w) quality_words || is_lines chars w

-- `_GROUP_SUFFIX_RE.sub("", n)`: the longest end of the text that is a quality, taken off once.
unfoldable pub drop_quality : Characters → Text → Text
drop_quality chars [] = []
drop_quality chars (c ∷ cs) =
    let rest = drop_quality chars cs in if is_quality chars (c ∷ cs) then [] else c ∷ rest

-- `normalize_channel_name_for_group`; no spaces are left that `strip` would take.
unfoldable pub normalize_name : Characters → Text → Text
normalize_name chars name = drop_quality chars (drop_punctuation chars (chars.upper name))

unfoldable pub has_prefix : Text → Text → Bool
has_prefix [] text = true
has_prefix (c ∷ cs) [] = false
has_prefix (c ∷ cs) (x ∷ xs) = c == x && has_prefix cs xs

-- `part in text`.
unfoldable pub has_part : Text → Text → Bool
has_part part [] = length part == 0
has_part part (x ∷ xs) = has_prefix part (x ∷ xs) || has_part part xs

-- `text.replace(part, "")` for a part that is not empty: `skip` characters of a match are left over.
unfoldable pub remove_part : Text → ℕ → Text → Text
remove_part part skip [] = []
remove_part part (suc skip) (x ∷ xs) = remove_part part skip xs
remove_part part zero (x ∷ xs) =
    let after = remove_part part (length part - 1) xs in
    let rest = remove_part part zero xs in if has_prefix part (x ∷ xs) then after else x ∷ rest

-- 中文国际, CCTV4, CCTV4EUO, 欧洲, CCTV4AME, 美洲.
unfoldable pub international : Text
international = 20013 ∷ 25991 ∷ 22269 ∷ 38469 ∷ []

unfoldable pub cctv4 : Text
cctv4 = 67 ∷ 67 ∷ 84 ∷ 86 ∷ 52 ∷ []

unfoldable pub cctv4_euo : Text
cctv4_euo = 67 ∷ 67 ∷ 84 ∷ 86 ∷ 52 ∷ 69 ∷ 85 ∷ 79 ∷ []

unfoldable pub europe : Text
europe = 27431 ∷ 27954 ∷ []

unfoldable pub cctv4_ame : Text
cctv4_ame = 67 ∷ 67 ∷ 84 ∷ 86 ∷ 52 ∷ 65 ∷ 77 ∷ 69 ∷ []

unfoldable pub america : Text
america = 32654 ∷ 27954 ∷ []

unfoldable pub variant_of : Text → Text
variant_of compact =
    if has_part cctv4_euo compact || has_part cctv4 compact && has_part europe compact
    then cctv4_euo
    else if has_part cctv4_ame compact || has_part cctv4 compact && has_part america compact
    then cctv4_ame
    else []

-- `channel_name_variant_key`.
unfoldable pub name_variant : Characters → Text → Text
name_variant chars name =
    let n = normalize_name chars name in
    if length n == 0 then [] else variant_of (remove_part international zero n)

-- The fields of a channel that its group depends on; a missing one is empty.
pub record Names : Type 0 where
  pub name : Text
  pub tvg_name : Text
  pub auto_name : Text
  pub detected_name : Text
  pub tvg_id : Text
  pub key : Text

unfoldable pub first_variant : Characters → List Text → Text
first_variant chars [] = []
first_variant chars (n ∷ ns) =
    let rest = first_variant chars ns in
    if length (name_variant chars n) == 0 then rest else name_variant chars n

-- `channel_variant_key`.
unfoldable pub variant_key : Characters → Names → Text
variant_key chars n = first_variant chars (n.name ∷ n.tvg_name ∷ n.auto_name ∷ n.detected_name ∷ [])

-- The prefixes `name:`, `id:` and `raw:`.
unfoldable pub name_prefix : Text
name_prefix = 110 ∷ 97 ∷ 109 ∷ 101 ∷ 58 ∷ []

unfoldable pub id_prefix : Text
id_prefix = 105 ∷ 100 ∷ 58 ∷ []

unfoldable pub raw_prefix : Text
raw_prefix = 114 ∷ 97 ∷ 119 ∷ 58 ∷ []

-- `channel_group_key`; the identifier is stripped already.
unfoldable pub channel_group_key : Characters → Names → Text
channel_group_key chars n =
    if not (length (variant_key chars n) == 0)
    then name_prefix ++ variant_key chars n
    else if not (length n.tvg_id == 0)
    then id_prefix ++ n.tvg_id
    else if not (length (normalize_name chars n.name) == 0)
    then name_prefix ++ normalize_name chars n.name
    else raw_prefix ++ n.key

-- What a line's rank depends on; a missing port is `none`, a missing address empty.
pub record Line : Type 0 where
  pub export_health_status : String
  pub is_primary : Bool
  pub probe_status : String
  pub fcc_ip : Text
  pub fcc_port : Option ℕ
  pub fec_port : Option ℕ
  pub export_health_speed : ℕ
  pub packets : ℕ

unfoldable pub health_scores : Dict String ℕ
health_scores =
    ("ok", 4)
    ∷ ("partial", 3)
    ∷ ("skipped", 2)
    ∷ ("not_checked", 2)
    ∷ ("", 2)
    ∷ ("timeout", 1)
    ∷ ("failed", 0)
    ∷ ("error", 0)
    ∷ []

unfoldable pub probe_scores : Dict String ℕ
probe_scores = ("ok", 3) ∷ ("partial", 2) ∷ ("not_probed", 1) ∷ ("failed", 0) ∷ []

-- `scores.get(key, default)`.
unfoldable pub score_of : Dict String ℕ → String → ℕ → ℕ
score_of scores key default = elim (lookup key scores) [ none ↦ default | some n ↦ n ]

-- The truth of an optional port.
unfoldable pub is_set : Option ℕ → Bool
is_set none = false
is_set (some n) = not (n == 0)

unfoldable pub fcc_score : Line → ℕ
fcc_score l =
    (if not (length l.fcc_ip == 0) && is_set l.fcc_port then 2 else 0)
    + (if is_set l.fec_port then 1 else 0)

-- `channel_primary_score`, a tuple that Python compares from the left.
unfoldable pub channel_primary_score : Line → List ℕ
channel_primary_score l =
    score_of health_scores l.export_health_status 2
    ∷ (if l.is_primary then 1 else 0)
    ∷ score_of probe_scores l.probe_status 1
    ∷ fcc_score l
    ∷ l.export_health_speed
    ∷ l.packets
    ∷ []

-- `a > b` on tuples.
unfoldable pub exceeds : List ℕ → List ℕ → Bool
exceeds [] ys = false
exceeds (x ∷ xs) [] = true
exceeds (x ∷ xs) (y ∷ ys) = let rest = exceeds xs ys in if ltb y x then true else x == y && rest

-- The labels by picture size; a missing size is 0.
pub data Resolution : Type 0 where
  uhd full_hd hd unknown_size : Resolution
  other_size : ℕ → ℕ → Resolution

unfoldable pub resolution_label_from_size : ℕ → ℕ → Resolution
resolution_label_from_size width height =
    if leb 3840 width && leb 2160 height
    then uhd
    else if leb 1920 width && leb 1080 height
    then full_hd
    else if leb 1280 width && leb 720 height
    then hd
    else if ltb 0 width && ltb 0 height
    then other_size width height
    else unknown_size

pub data Quality : Type 0 where
  uhd_group hd_group plain_group unknown_group : Quality

unfoldable pub stream_quality_group : ℕ → ℕ → Quality
stream_quality_group width height =
    if leb 3840 width && leb 2160 height
    then uhd_group
    else if leb 1280 width && leb 720 height
    then hd_group
    else if ltb 0 width && ltb 0 height
    then plain_group
    else unknown_group
