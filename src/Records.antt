-- ===== src/Records.antt =====
-- services/storage_service.py: `FccStore` and `DiscoveryStore`, what captures told of fast channel
-- change and of channel names, with the host check of utils.py. A store is the dict that its file
-- holds, and `writes` counts how often the file is written. In a record that comes in, a missing field
-- is `none`, and a number that does not parse as well; texts are stripped already.
pub mod Seen
use iptv_sniffer_web.Base.{
  ℕ, zero, suc, ◌+◌, ◌-◌, ◌*◌, ◌/◌, ◌%◌, ◌^◌, ◌≤◌, ◌<◌, min, max, String, ◌≡◌, refl, sym, ap, ◌∙◌,
  ◌≢◌, ◌↔◌, ◌⊎◌, inl, inr, Bool, true, false, not, ◌&&◌, ◌||◌, Option, none, some, List, [], ◌∷◌,
  ◌++◌, map, arith, ◌>>=◌, >>=-eq-some, ltb, leb, if◌then◌else◌, ◌==◌, nat_eq, string_eq, pair_eq,
  list_eq, Bool-cases, Option-cases, ltb→lt, ltb→le, lt→ltb, le→ltb, leb→le, le→leb, length, get_or,
  get_elem?, take, drop, last_n, length-append, length-take, length-drop, take-append-drop,
  take-append, drop-append, take_all, take-append_le, drop-append_le, slice-append, get_or-append,
  All, All-append, byte_at, slice, be16, be32, le16, le32, IsByte, AreBytes, put_be16, put_be32,
  put_le16, put_le32, ==_iff, ==_refl, Text, str_nat, is_digit, digits_value, digits_value-str_nat,
}
use iptv_sniffer_web.Base.Dict.{Dict, lookup, insert}

-- `valid_ip_or_host`, where `is_ipv6` says whether `ipaddress` reads an IPv6 address; an IPv4 address
-- has the form of a host name.
unfoldable pub is_alnum : ℕ → Bool
is_alnum c = leb 65 c && leb c 90 || (leb 97 c && leb c 122 || is_digit c)

unfoldable pub all_host_chars : Text → Bool
all_host_chars [] = true
all_host_chars (c ∷ cs) = (is_alnum c || (c == 46 || c == 45)) && all_host_chars cs

unfoldable pub is_host : Text → Bool
is_host [] = false
is_host (c ∷ cs) = is_alnum c && (all_host_chars cs && leb (length cs) 252)

unfoldable pub valid_ip_or_host : (Text → Bool) → Text → Bool
valid_ip_or_host is_ipv6 value = not (length value == 0) && (is_ipv6 value || is_host value)

-- `ChannelStore._safe_port`.
unfoldable pub safe_port : Option ℕ → Option ℕ
safe_port none = none
safe_port (some n) = if leb 1 n && leb n 65535 then some n else none

-- `record.get(field, current.get(field, ""))`.
unfoldable pub or_stored : Option Text → Text → Text
or_stored none stored = stored
or_stored (some t) stored = t

unfoldable pub or_port : Option (Option ℕ) → Option ℕ → Option ℕ
or_port none stored = stored
or_port (some p) stored = p

-- `current.get("first_seen") or …`; a time of 0 counts as none.
unfoldable pub or_time : Option ℕ → Option ℕ → Option ℕ
or_time none t = t
or_time (some n) t = if n == 0 then t else some n

pub record FccRecord : Type 0 where
  pub key : Text
  pub host : Option Text
  pub port : Option (Option ℕ)
  pub fcc_ip : Text
  pub fcc_port : Option ℕ
  pub source_url : Option Text
  pub raw_field : Option Text
  pub discovered_at : Option ℕ

pub record FccEntry : Type 0 where
  pub host : Text
  pub port : Option ℕ
  pub fcc_ip : Text
  pub fcc_port : ℕ
  pub source_url : Text
  pub raw_field : Text
  pub first_seen : Option ℕ
  pub last_seen : Option ℕ

-- A key that is not stored reads as an empty dict.
unfoldable pub no_fcc_entry : FccEntry
no_fcc_entry = record {
  host = [];
  port = none;
  fcc_ip = [];
  fcc_port = 0;
  source_url = [];
  raw_field = [];
  first_seen = none;
  last_seen = none;
}

unfoldable pub current_fcc : Text → Dict Text FccEntry → FccEntry
current_fcc key rows = elim (lookup key rows) [ none ↦ no_fcc_entry | some e ↦ e ]

unfoldable pub fcc_entry : FccRecord → ℕ → Option ℕ → FccEntry → FccEntry
fcc_entry r fcc_port now current = record {
  host = or_stored r.host current.host;
  port = safe_port (or_port r.port current.port);
  fcc_ip = r.fcc_ip;
  fcc_port = fcc_port;
  source_url = or_stored r.source_url current.source_url;
  raw_field = or_stored r.raw_field current.raw_field;
  first_seen = or_time current.first_seen now;
  last_seen = now;
}

-- The port of an acceptable record.
unfoldable pub accepted_port : (Text → Bool) → FccRecord → Option ℕ
accepted_port is_ipv6 r = r.fcc_port >>= λ port.
    if length r.key == 0
      || (not (valid_ip_or_host is_ipv6 r.fcc_ip) || not (leb 1 port && leb port 65535))
    then none
    else some port

pub record FccStore : Type 0 where
  pub rows : Dict Text FccEntry
  pub writes : ℕ

-- `FccStore.save_record`.
unfoldable pub save_fcc : (Text → Bool) → FccRecord → FccStore → FccStore × Bool
save_fcc is_ipv6 r s = elim (accepted_port is_ipv6 r) [
  | none ↦ (s, false)
  | some port ↦ (
    record {
      rows = insert r.key (fcc_entry r port r.discovered_at (current_fcc r.key s.rows)) s.rows;
      writes = s.writes + 1;
    },
    true,
  )
]

-- The loop of `FccStore.bulk_save`, with the number of records saved.
unfoldable pub bulk_rows :
    (Text → Bool) → ℕ → List FccRecord → Dict Text FccEntry → ℕ → Dict Text FccEntry × ℕ
bulk_rows is_ipv6 now [] rows saved = (rows, saved)
bulk_rows is_ipv6 now (r ∷ rs) rows saved = elim (accepted_port is_ipv6 r) [
  | none ↦ bulk_rows is_ipv6 now rs rows saved
  | some port ↦
      bulk_rows is_ipv6 now rs
        (insert r.key (fcc_entry r port (some now) (current_fcc r.key rows)) rows) (saved + 1)
]

unfoldable pub bulk_save : (Text → Bool) → ℕ → List FccRecord → FccStore → FccStore × ℕ
bulk_save is_ipv6 now rs s =
    let out = bulk_rows is_ipv6 now rs s.rows 0 in
    (record { rows = out.0; writes = if out.1 == 0 then s.writes else s.writes + 1 }, out.1)

pub record NameRecord : Type 0 where
  pub key : Text
  pub name : Text
  pub host : Option Text
  pub port : Option (Option ℕ)
  pub channel_id : Option Text
  pub source : Option Text
  pub raw_field : Option Text
  pub source_url : Option Text
  pub discovered_at : Option ℕ

pub record NameEntry : Type 0 where
  pub host : Text
  pub port : Option ℕ
  pub name : Text
  pub channel_id : Text
  pub source : Text
  pub raw_field : Text
  pub source_url : Text
  pub first_seen : Option ℕ
  pub last_seen : Option ℕ

-- An entry that is not there; `default` is the source `stb_payload`.
unfoldable pub no_name_entry : Text → NameEntry
no_name_entry default = record {
  host = [];
  port = none;
  name = [];
  channel_id = [];
  source = default;
  raw_field = [];
  source_url = [];
  first_seen = none;
  last_seen = none;
}

unfoldable pub name_entry : NameRecord → NameEntry → NameEntry
name_entry r current = record {
  host = or_stored r.host current.host;
  port = safe_port (or_port r.port current.port);
  name = r.name;
  channel_id = or_stored r.channel_id current.channel_id;
  source = or_stored r.source current.source;
  raw_field = or_stored r.raw_field current.raw_field;
  source_url = or_stored r.source_url current.source_url;
  first_seen = or_time current.first_seen r.discovered_at;
  last_seen = r.discovered_at;
}

pub record NameStore : Type 0 where
  pub rows : Dict Text NameEntry
  pub writes : ℕ

-- `DiscoveryStore.save_record`.
unfoldable pub save_name : Text → NameRecord → NameStore → NameStore × Bool
save_name default r s = if length r.key == 0 || length r.name == 0 then (s, false) else (
  record {
    rows =
        insert r.key
          (name_entry r (elim (lookup r.key s.rows) [ none ↦ no_name_entry default | some e ↦ e ]))
          s.rows;
    writes = s.writes + 1;
  },
  true,
)
