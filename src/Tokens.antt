-- ===== src/Tokens.antt =====
-- services/storage_service.py, `StbTokenStore`: the tokens that captures showed, the last hundred of
-- them, beside the identity of the terminal in one file, and the session of the operator's service in
-- another. A file that holds no JSON object is `none`; texts are stripped already, and a field that a
-- record lacks is `none`.
pub mod History
use iptv_sniffer_web.Base.{
  ℕ, zero, suc, ◌+◌, ◌-◌, ◌*◌, ◌/◌, ◌%◌, ◌^◌, ◌≤◌, ◌<◌, min, max, String, ◌≡◌, refl, sym, ap, ◌∙◌,
  ◌≢◌, ◌↔◌, ◌⊎◌, inl, inr, Bool, true, false, not, ◌&&◌, ◌||◌, Option, none, some, List, [], ◌∷◌,
  ◌++◌, map, arith, ◌>>=◌, >>=-eq-some, ltb, leb, if◌then◌else◌, ◌==◌, nat_eq, string_eq, pair_eq,
  list_eq, Bool-cases, Option-cases, ltb→lt, ltb→le, lt→ltb, le→ltb, leb→le, le→leb, length, get_or,
  get_elem?, take, drop, last_n, length-append, length-take, length-drop, take-append-drop,
  take-append, drop-append, take_all, take-append_le, drop-append_le, slice-append, get_or-append,
  All, All-append, byte_at, slice, be16, be32, le16, le32, IsByte, AreBytes, put_be16, put_be32,
  put_le16, put_le32, ==_iff, ==_refl, Text, str_nat, is_digit, digits_value, digits_value-str_nat,
}
use iptv_sniffer_web.Base.Dict.{Dict, lookup}
use iptv_sniffer_web.Records.{safe_port}

pub record Token : Type 0 where
  pub token : Text
  pub sip : Text
  pub sport : Option ℕ
  pub dip : Text
  pub dport : Option ℕ
  pub path : Text
  pub captured_at : Option ℕ

-- A record to save.
pub record Capture : Type 0 where
  pub token : Text
  pub sip : Text
  pub sport : Option ℕ
  pub dip : Option Text
  pub dport : Option ℕ
  pub path : Text
  pub captured_at : Option ℕ

pub record TokenFile : Type 0 where
  pub latest : Option Token
  pub history : List Token
  pub auth_info : Option (Dict Text Text)

pub record TokenStore : Type 0 where
  pub file : Option TokenFile
  pub uios_session : Option (Dict Text Text)

unfoldable pub empty_file : TokenFile
empty_file = record { latest = none; history = []; auth_info = none }

unfoldable pub read_file : Option TokenFile → TokenFile
read_file none = empty_file
read_file (some f) = f

unfoldable pub kept_tokens : ℕ
kept_tokens = 100

-- `load`.
unfoldable pub load : TokenStore → TokenFile
load s = record (read_file s.file) { history = last_n kept_tokens (read_file s.file).history }

unfoldable pub or_empty : Option (Dict Text Text) → Dict Text Text
or_empty none = []
or_empty (some d) = d

unfoldable pub load_auth_info : TokenStore → Dict Text Text
load_auth_info s = or_empty (read_file s.file).auth_info

unfoldable pub load_uios_session : TokenStore → Dict Text Text
load_uios_session s = or_empty s.uios_session

-- A field that is there and not empty.
unfoldable pub has_field : Text → Dict Text Text → Bool
has_field key d = elim (lookup key d) [ none ↦ false | some v ↦ not (length v == 0) ]

-- `save_uios_session`, with the names of the fields `authorization` and `endpoint`.
unfoldable pub save_uios_session : Text → Text → Dict Text Text → TokenStore → TokenStore
save_uios_session authorization endpoint session s =
    if not (has_field authorization session) || not (has_field endpoint session)
    then s
    else record s { uios_session = some session }

unfoldable pub save_auth_info : Dict Text Text → TokenStore → TokenStore
save_auth_info info s = record s {
  file = some (record (read_file s.file) { auth_info = some info });
}

-- Whether the token with its destination is the latest already.
unfoldable pub is_latest : Capture → Option Token → Bool
is_latest r none = false
is_latest r (some t) = t.token == r.token && (elim r.dip [ none ↦ false | some dip ↦ t.dip == dip ])

unfoldable pub or_blank : Option Text → Text
or_blank none = []
or_blank (some t) = t

unfoldable pub payload : Capture → Token
payload r = record {
  token = r.token;
  sip = r.sip;
  sport = safe_port r.sport;
  dip = or_blank r.dip;
  dport = safe_port r.dport;
  path = r.path;
  captured_at = r.captured_at;
}

unfoldable pub add_token : Token → TokenFile → TokenFile
add_token t f = record f { latest = some t; history = last_n kept_tokens (f.history ++ t ∷ []) }

unfoldable pub save_token : Capture → TokenStore → TokenStore × Bool
save_token r s =
    if length r.token == 0 || is_latest r (read_file s.file).latest
    then (s, false)
    else (record s { file = some (add_token (payload r) (read_file s.file)) }, true)
