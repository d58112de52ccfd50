-- ===== src/Subscriptions.antt =====
-- services/subscription_service.py: durable identifiers of channels and the catalogue of a
-- subscription, with `normalize_channel_name` of services/epg_service.py. Fields are stripped texts,
-- empty where they are missing. `lower`, the characters that are spaces or decimal, and the digests of
-- SHA-1 are Python's; `fill` is the function that the caller passes to name a channel.
pub mod Names
pub mod Current
use iptv_sniffer_web.Base.{
  ℕ, zero, suc, ◌+◌, ◌-◌, ◌*◌, ◌/◌, ◌%◌, ◌^◌, ◌≤◌, ◌<◌, min, max, String, ◌≡◌, refl, sym, ap, ◌∙◌,
  ◌≢◌, ◌↔◌, ◌⊎◌, inl, inr, Bool, true, false, not, ◌&&◌, ◌||◌, Option, none, some, List, [], ◌∷◌,
  ◌++◌, map, arith, ◌>>=◌, >>=-eq-some, ltb, leb, if◌then◌else◌, ◌==◌, nat_eq, string_eq, pair_eq,
  list_eq, Bool-cases, Option-cases, ltb→lt, ltb→le, lt→ltb, le→ltb, leb→le, le→leb, length, get_or,
  get_elem?, take, drop, last_n, length-append, length-take, length-drop, take-append-drop,
  take-append, drop-append, take_all, take-append_le, drop-append_le, slice-append, get_or-append,
  All, All-append, byte_at, slice, be16, be32, le16, le32, IsByte, AreBytes, put_be16, put_be32,
  put_le16, put_le32, ==_iff, ==_refl, Text, str_nat, is_digit, digits_value, digits_value-str_nat,
}
use iptv_sniffer_web.Base.Dict.{Dict, lookup, insert, contains}
use iptv_sniffer_web.Address.{valid_ipv4_multicast}
use iptv_sniffer_web.Records.{is_alnum}
use iptv_sniffer_web.Ranking.{has_prefix}
use iptv_sniffer_web.Exports.{or_text}
use iptv_sniffer_web.Exports.Urls.{strip}
use iptv_sniffer_web.Subscriptions.Names.{Letters, normalize_channel_name}

pub record Row : Type 0 where
  pub key : Text
  pub host : Text
  pub port : Option ℕ
  pub name : Text
  pub category : Text
  pub tvg_id : Text
  pub channel_id : Text
  pub stable_id : Text
  pub fcc_ip : Text
  pub fcc_port : Option ℕ
  pub fec_port : Option ℕ
  pub operator_group : Text
  pub is_hd : Bool
  pub source_state : Text
  pub source_origin : Text

pub record Operator : Type 0 where
  pub host : Text
  pub port : Option ℕ
  pub name : Text
  pub category : Text
  pub channel_id : Text
  pub fcc_ip : Text
  pub fcc_port : Option ℕ
  pub fec_port : Option ℕ
  pub operator_group : Text
  pub is_hd : Bool

-- The characters `[A-Za-z0-9._-]`.
unfoldable pub is_id_char : ℕ → Bool
is_id_char c = is_alnum c || (c == 46 || (c == 95 || c == 45))

unfoldable pub all_id_chars : Text → Bool
all_id_chars [] = true
all_id_chars (c ∷ cs) = is_id_char c && all_id_chars cs

-- `_STABLE_CHANNEL_ID_RE`.
unfoldable pub is_stable_id : Text → Bool
is_stable_id [] = false
is_stable_id (c ∷ cs) = is_alnum c && (all_id_chars cs && leb (length cs) 95)

unfoldable pub valid_stable_channel_id : Text → Text
valid_stable_channel_id text = if is_stable_id text then text else []

-- `re.sub(r"[^A-Za-z0-9._-]+", "-", …)`; `inside` says that a run of other characters is under way.
unfoldable pub dash_runs : Bool → Text → Text
dash_runs inside [] = []
dash_runs inside (c ∷ cs) =
    let out = dash_runs false cs in
    let within = dash_runs true cs in
    if is_id_char c then c ∷ out else if inside then within else 45 ∷ within

unfoldable pub is_dot_or_dash : ℕ → Bool
is_dot_or_dash c = c == 46 || c == 45

-- `c-` and the normalised identifier, if that is valid, else empty.
unfoldable pub channel_candidate : Text → Text
channel_candidate channel_id =
    if length channel_id == 0
    then []
    else valid_stable_channel_id (99 ∷ 45 ∷ strip is_dot_or_dash (dash_runs false channel_id))

unfoldable pub fingerprint : Letters → Row → Text
fingerprint letters r = r.tvg_id ++ (124 ∷ normalize_channel_name letters r.name) ++ (124 ∷ r.key)

-- `_stable_channel_id`; the operator's row is absent for a manual source.
unfoldable pub operator_id : Option Operator → Text
operator_id none = []
operator_id (some o) = o.channel_id

unfoldable pub stable_channel_id : Letters → (Text → Text) → Row → Option Operator → Text
stable_channel_id letters sha1 r o =
    or_text (channel_candidate (or_text (operator_id o) r.channel_id)) (
      or_text (valid_stable_channel_id r.stable_id)
        (109 ∷ 45 ∷ take 16 (sha1 (fingerprint letters r))))

-- `current`, `operator` and `manual`.
unfoldable pub current : Text
current = 99 ∷ 117 ∷ 114 ∷ 114 ∷ 101 ∷ 110 ∷ 116 ∷ []

unfoldable pub operator_origin : Text
operator_origin = 111 ∷ 112 ∷ 101 ∷ 114 ∷ 97 ∷ 116 ∷ 111 ∷ 114 ∷ []

unfoldable pub manual_origin : Text
manual_origin = 109 ∷ 97 ∷ 110 ∷ 117 ∷ 97 ∷ 108 ∷ []

unfoldable pub other_category : Text
other_category = 20854 ∷ 23427 ∷ 39057 ∷ 36947 ∷ []

-- A port that is missing or 0 leaves the stored one.
unfoldable pub or_port : Option ℕ → Option ℕ → Option ℕ
or_port none stored = stored
or_port (some n) stored = if n == 0 then stored else some n

unfoldable pub empty_row : Row
empty_row = record {
  key = [];
  host = [];
  port = none;
  name = [];
  category = [];
  tvg_id = [];
  channel_id = [];
  stable_id = [];
  fcc_ip = [];
  fcc_port = none;
  fec_port = none;
  operator_group = [];
  is_hd = false;
  source_state = [];
  source_origin = [];
}

unfoldable pub stored_row : Text → Dict Text Row → Row
stored_row key stored = elim (lookup key stored) [ none ↦ empty_row | some r ↦ r ]

-- The row of an operator's channel, on what is stored under its key.
unfoldable pub operator_row : Text → Operator → Row → Row
operator_row key o r = record r {
  key = key;
  host = o.host;
  port = o.port;
  name = or_text r.name o.name;
  category = or_text r.category (or_text o.category other_category);
  fcc_ip = or_text o.fcc_ip r.fcc_ip;
  fcc_port = or_port o.fcc_port r.fcc_port;
  fec_port = or_port o.fec_port r.fec_port;
  operator_group = or_text o.operator_group r.operator_group;
  is_hd = o.is_hd || r.is_hd;
  source_state = current;
  source_origin = operator_origin;
}

-- A multicast host and a port in range.
unfoldable pub is_endpoint : Operator → Bool
is_endpoint o = elim o.port [
  | none ↦ false
  | some port ↦ valid_ipv4_multicast o.host && (leb 1 port && leb port 65535)
]

abbrev pub Candidate : Type 0
Candidate = Row × Option Operator

unfoldable pub operator_candidates : Dict Text Row → Dict Text Operator → List Candidate
operator_candidates stored [] = []
operator_candidates stored ((key, o) ∷ ops) =
    let rest = operator_candidates stored ops in
    if is_endpoint o then (operator_row key o (stored_row key stored), some o) ∷ rest else rest

-- Stored sources that are in no operator's table and did not come from one.
unfoldable pub is_manual : Dict Text Operator → Text → Row → Bool
is_manual ops key r = not (contains key ops) && not (has_prefix (99 ∷ 45 ∷ []) r.stable_id)

unfoldable pub manual_candidates : Dict Text Operator → Dict Text Row → List Candidate
manual_candidates ops [] = []
manual_candidates ops ((key, r) ∷ stored) =
    let rest = manual_candidates ops stored in
    if is_manual ops key r
    then (record r { source_state = current; source_origin = manual_origin }, none) ∷ rest
    else rest

unfoldable pub stored_candidates : Dict Text Row → List Candidate
stored_candidates [] = []
stored_candidates ((key, r) ∷ stored) = (r, none) ∷ stored_candidates stored

unfoldable pub candidates : Dict Text Row → Dict Text Operator → List Candidate
candidates stored [] = stored_candidates stored
candidates stored (o ∷ ops) =
    operator_candidates stored (o ∷ ops) ++ manual_candidates (o ∷ ops) stored

-- An identifier that is taken gets a suffix of the key's digest.
unfoldable pub catalog_id : (Text → Text) → Row → Text → Dict Text Candidate → Text
catalog_id sha1 r id catalog = if contains id catalog then id ++ (45 ∷ take 8 (sha1 r.key)) else id

unfoldable pub build_catalog :
    Letters
    → (Text → Text)
    → (Row → Row)
    → List Candidate
    → Dict Text Candidate
    → Dict Text Candidate
build_catalog letters sha1 fill [] catalog = catalog
build_catalog letters sha1 fill ((r, o) ∷ cs) catalog =
    let row = fill r in
    let id = catalog_id sha1 row (stable_channel_id letters sha1 row o) catalog in
    let skipped = build_catalog letters sha1 fill cs catalog in
    let added =
      build_catalog letters sha1 fill cs (insert id (record row { stable_id = id }, o) catalog) in
    if length row.name == 0 then skipped else added

-- `_stable_channel_catalog`.
unfoldable pub stable_channel_catalog :
    Letters → (Text → Text) → (Row → Row) → Dict Text Row → Dict Text Operator → Dict Text Candidate
stable_channel_catalog letters sha1 fill stored ops =
    build_catalog letters sha1 fill (candidates stored ops) []
