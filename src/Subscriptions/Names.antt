-- ===== src/Subscriptions/Names.antt =====
-- services/epg_service.py, `normalize_channel_name`: a channel's name as programme guides compare it.
use iptv_sniffer_web.Base.{
  ℕ, zero, suc, ◌-◌, Bool, false, ◌&&◌, ◌||◌, List, [], ◌∷◌, ◌++◌, if◌then◌else◌, ◌==◌, nat_eq,
  string_eq, pair_eq, list_eq, length, Text,
}
use iptv_sniffer_web.Ranking.{member, has_prefix, remove_part, international, europe, america}

-- What Python knows of characters; `strip_lower` is `value.strip().lower()`.
pub record Letters : Type 0 where
  pub strip_lower : Text → Text
  pub is_space : ℕ → Bool
  pub is_decimal : ℕ → Bool

-- A full-width plus and minus in their plain forms.
unfoldable pub plain_signs : Text → Text
plain_signs [] = []
plain_signs (c ∷ cs) = (if c == 65291 then 43 else if c == 65293 then 45 else c) ∷ plain_signs cs

-- 频道高清, 超高清, 高清, 超清, 标清, 频道, 电视台, iptv, uhd, hd.
unfoldable pub noise_tokens : List Text
noise_tokens =
    (39057 ∷ 36947 ∷ 39640 ∷ 28165 ∷ [])
    ∷ (36229 ∷ 39640 ∷ 28165 ∷ [])
    ∷ (39640 ∷ 28165 ∷ [])
    ∷ (36229 ∷ 28165 ∷ [])
    ∷ (26631 ∷ 28165 ∷ [])
    ∷ (39057 ∷ 36947 ∷ [])
    ∷ (30005 ∷ 35270 ∷ 21488 ∷ [])
    ∷ (105 ∷ 112 ∷ 116 ∷ 118 ∷ [])
    ∷ (117 ∷ 104 ∷ 100 ∷ [])
    ∷ (104 ∷ 100 ∷ [])
    ∷ []

unfoldable pub remove_tokens : List Text → Text → Text
remove_tokens [] text = text
remove_tokens (w ∷ ws) text = remove_tokens ws (remove_part w zero text)

-- The class `[\\s\\-_·•.。:：/\\\\|()\\[\\]【】,，+]`.
unfoldable pub separators : Text
separators =
    45 ∷ 95 ∷ 183 ∷ 8226 ∷ 46 ∷ 12290 ∷ 58 ∷ 65306 ∷ 47 ∷ 92 ∷ 124 ∷ 40 ∷ 41 ∷ 91 ∷ 93 ∷ 12304
    ∷ 12305 ∷ 44 ∷ 65292 ∷ 43 ∷ []

unfoldable pub drop_separators : Letters → Text → Text
drop_separators letters [] = []
drop_separators letters (c ∷ cs) =
    let rest = drop_separators letters cs in
    if letters.is_space c || member c separators then rest else c ∷ rest

-- How much of `cctv` (99, 99, 116, 118) stands before the next character.
unfoldable pub advance : ℕ → ℕ → ℕ
advance k c =
    if c == 99
    then (if k == 1 || k == 2 then 2 else 1)
    else if c == 116 && k == 2
    then 3
    else if c == 118 && k == 3
    then 4
    else 0

unfoldable pub starts_decimal : Letters → Text → Bool
starts_decimal letters [] = false
starts_decimal letters (c ∷ cs) = letters.is_decimal c

-- `re.sub(r"cctv0+(\d+)", r"cctv\1", text)`: after `cctv`, zeros before another digit are dropped.
unfoldable pub trim_numbers : Letters → ℕ → Text → Text
trim_numbers letters k [] = []
trim_numbers letters k (c ∷ cs) =
    let dropped = trim_numbers letters k cs in
    let kept = trim_numbers letters (advance k c) cs in
    if k == 4 && (c == 48 && starts_decimal letters cs) then dropped else c ∷ kept

-- `text.replace(part, new)` for a part that is not empty.
unfoldable pub replace_part : Text → Text → ℕ → Text → Text
replace_part part new skip [] = []
replace_part part new (suc skip) (x ∷ xs) = replace_part part new skip xs
replace_part part new zero (x ∷ xs) =
    let after = replace_part part new (length part - 1) xs in
    let rest = replace_part part new zero xs in
    if has_prefix part (x ∷ xs) then new ++ after else x ∷ rest

-- cctv4, cctv4euo and cctv4ame; 中文国际, 欧洲 and 美洲.
unfoldable pub cctv4 : Text
cctv4 = 99 ∷ 99 ∷ 116 ∷ 118 ∷ 52 ∷ []

unfoldable pub cctv4_euo : Text
cctv4_euo = 99 ∷ 99 ∷ 116 ∷ 118 ∷ 52 ∷ 101 ∷ 117 ∷ 111 ∷ []

unfoldable pub cctv4_ame : Text
cctv4_ame = 99 ∷ 99 ∷ 116 ∷ 118 ∷ 52 ∷ 97 ∷ 109 ∷ 101 ∷ []

unfoldable pub name_regions : Text → Text
name_regions text =
    let a = replace_part (cctv4 ++ international ++ europe) cctv4_euo zero text in
    let b = replace_part (cctv4 ++ europe) cctv4_euo zero a in
    let c = replace_part (cctv4 ++ international ++ america) cctv4_ame zero b in
    replace_part (cctv4 ++ america) cctv4_ame zero c

unfoldable pub normalize_channel_name : Letters → Text → Text
normalize_channel_name letters value = name_regions (
    trim_numbers letters 0 (
      drop_separators letters
        (remove_tokens noise_tokens (plain_signs (letters.strip_lower value)))))
