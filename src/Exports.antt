-- ===== src/Exports.antt =====
-- services/export_service.py: the rows of a playlist, one for each channel key, and the choice of one
-- line for each group. `before` is `_channel_sort_key(a) < _channel_sort_key(b)`. A channel has the
-- fields on which the choice depends, and `rest` for the others; texts are stripped already.
pub mod Urls
pub mod Groups
pub mod Best
pub mod Rows
pub mod Prefix
use iptv_sniffer_web.Base.{
  ℕ, zero, suc, ◌+◌, ◌-◌, ◌*◌, ◌/◌, ◌%◌, ◌^◌, ◌≤◌, ◌<◌, min, max, String, ◌≡◌, refl, sym, ap, ◌∙◌,
  ◌≢◌, ◌↔◌, ◌⊎◌, inl, inr, Bool, true, false, not, ◌&&◌, ◌||◌, Option, none, some, List, [], ◌∷◌,
  ◌++◌, map, arith, ◌>>=◌, >>=-eq-some, ltb, leb, if◌then◌else◌, ◌==◌, nat_eq, string_eq, pair_eq,
  list_eq, Bool-cases, Option-cases, ltb→lt, ltb→le, lt→ltb, le→ltb, leb→le, le→leb, length, get_or,
  get_elem?, take, drop, last_n, length-append, length-take, length-drop, take-append-drop,
  take-append, drop-append, take_all, take-append_le, drop-append_le, slice-append, get_or-append,
  All, All-append, byte_at, slice, be16, be32, le16, le32, IsByte, AreBytes, put_be16, put_be32,
  put_le16, put_le32, ==_iff, ==_refl, Text, str_nat, is_digit, digits_value, digits_value-str_nat,
}
use iptv_sniffer_web.Base.Dict.{Dict, lookup, insert}
use iptv_sniffer_web.Address.{split_on}
use iptv_sniffer_web.Ranking.{
  is_set, Characters, Names, Line, channel_group_key, channel_primary_score, exceeds, is_one_of,
  member,
}

pub record Channel : Type 0 where
  pub key : Text
  pub host : Text
  pub port : ℕ
  pub name : Text
  pub category : Text
  pub tvg_id : Text
  pub line : Line
  pub rest : Dict Text Text

-- A row of the table: an integer that does not parse is `none`, an empty text stands for a missing one.
pub record Row : Type 0 where
  pub name : Text
  pub host : Text
  pub port : Option ℕ
  pub packets : Option ℕ
  pub key : Text
  pub category : Text
  pub tvg_id : Text
  pub line : Line
  pub rest : Dict Text Text

-- 其它频道.
unfoldable pub other_category : Text
other_category = 20854 ∷ 23427 ∷ 39057 ∷ 36947 ∷ []

unfoldable pub or_text : Text → Text → Text
or_text [] default = default
or_text (c ∷ cs) default = c ∷ cs

-- `row.get("key") or f"{host}:{port}"`.
unfoldable pub key_of : Row → ℕ → Text
key_of r port = or_text r.key (r.host ++ 58 ∷ str_nat port)

unfoldable pub channel_of : Row → ℕ → ℕ → Channel
channel_of r port packets = record {
  key = key_of r port;
  host = r.host;
  port = port;
  name = r.name;
  category = or_text r.category other_category;
  tvg_id = r.tvg_id;
  line = record r.line { packets = packets };
  rest = r.rest;
}

-- The loop of `_normalize_channels` with `seen_keys`; `none` is its ValueError.
unfoldable pub normalize_rows : List Row → List Text → Option (List Channel)
normalize_rows [] seen = some []
normalize_rows (r ∷ rs) seen =
    let skipped = normalize_rows rs seen in
    if length r.name == 0
    then skipped
    else (r.port >>= λ port. r.packets >>= λ packets.
        if is_one_of (key_of r port) seen
        then skipped
        else (normalize_rows rs (key_of r port ∷ seen) >>= λ rest.
            some (channel_of r port packets ∷ rest)))

-- Python's stable sort.
unfoldable pub insert_sorted : (Channel → Channel → Bool) → Channel → List Channel → List Channel
insert_sorted before c [] = c ∷ []
insert_sorted before c (d ∷ ds) = if before d c then d ∷ insert_sorted before c ds else c ∷ d ∷ ds

unfoldable pub sort_channels : (Channel → Channel → Bool) → List Channel → List Channel
sort_channels before [] = []
sort_channels before (c ∷ cs) = insert_sorted before c (sort_channels before cs)

unfoldable pub normalize_channels : (Channel → Channel → Bool) → List Row → Option (List Channel)
normalize_channels before rows =
    normalize_rows rows [] >>= λ channels. some (sort_channels before channels)

unfoldable pub names_of : Channel → Names
names_of c = record {
  name = c.name;
  tvg_name = [];
  auto_name = [];
  detected_name = [];
  tvg_id = c.tvg_id;
  key = c.key;
}

unfoldable pub group_of : Characters → Channel → Text
group_of chars c = channel_group_key chars (names_of c)

unfoldable pub or_none : Option (List Channel) → List Channel
or_none none = []
or_none (some cs) = cs

-- `groups.setdefault(gk, []).append(ch)`.
unfoldable pub group_channels :
    Characters → List Channel → Dict Text (List Channel) → Dict Text (List Channel)
group_channels chars [] groups = groups
group_channels chars (c ∷ cs) groups =
    group_channels chars cs
      (insert (group_of chars c) (or_none (lookup (group_of chars c) groups) ++ c ∷ []) groups)

-- `max(members, key=…)`: the first of the best.
unfoldable pub better : Channel → Channel → Channel
better b c = if exceeds (channel_primary_score c.line) (channel_primary_score b.line) then c else b

unfoldable pub best_of : Channel → List Channel → Channel
best_of b [] = b
best_of b (c ∷ cs) = best_of (better b c) cs

unfoldable pub best_members : Dict Text (List Channel) → List Channel
best_members [] = []
best_members ((g, []) ∷ groups) = best_members groups
best_members ((g, c ∷ cs) ∷ groups) = best_of c cs ∷ best_members groups

unfoldable pub select_best_channels :
    Characters → (Channel → Channel → Bool) → List Channel → List Channel
select_best_channels chars before channels =
    sort_channels before (best_members (group_channels chars channels []))
