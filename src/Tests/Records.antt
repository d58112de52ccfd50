-- ===== src/Tests/Records.antt =====
-- Witnesses for the stores of servers and tokens, and for subscriptions.
use iptv_sniffer_web.Base.{
  ◌+◌, ◌≡◌, refl, false, none, some, [], ◌∷◌, ◌++◌, arith, if◌then◌else◌, ◌==◌, nat_eq, string_eq,
  pair_eq, list_eq, last_n, All, is_digit,
}
use iptv_sniffer_web.Base.Dict.{lookup}
use iptv_sniffer_web.Records.{FccRecord, FccEntry, FccStore, current_fcc, bulk_save}
use iptv_sniffer_web.Records.Seen.{
  save_each, count_accepted, one, bulk, save_all, bulk_save-save_each, save_all-IsSeen,
}
use iptv_sniffer_web.Tokens.{Capture, TokenStore, kept_tokens, read_file, load, load_auth_info}
use iptv_sniffer_web.Tokens.History.{additions, save_tokens, load-save_tokens}
use iptv_sniffer_web.Subscriptions.Names.{Letters}
use iptv_sniffer_web.Subscriptions.{Operator, stable_channel_catalog}
use iptv_sniffer_web.Subscriptions.Current.{IsEntry, stable_channel_catalog-IsEntry}

-- "a" for the key and the server "b", port 8027.
abbrev server : FccRecord
server = record {
  key = 97 ∷ [];
  host = none;
  port = none;
  fcc_ip = 98 ∷ [];
  fcc_port = some 8027;
  source_url = none;
  raw_field = none;
  discovered_at = some 50;
}

abbrev stored_server : FccEntry
stored_server = record {
  host = [];
  port = none;
  fcc_ip = 98 ∷ [];
  fcc_port = 8027;
  source_url = [];
  raw_field = [];
  first_seen = some 20;
  last_seen = some 30;
}

abbrev servers : FccStore
servers = record { rows = (97 ∷ [], stored_server) ∷ []; writes = 0 }

bulk_save-save_each_example :
    ((bulk_save (λ w. false) 60 (server ∷ []) servers).0.rows
      ≡ (save_each (λ w. false) 60 (server ∷ []) servers).rows)
    × ((bulk_save (λ w. false) 60 (server ∷ []) servers).1
        ≡ count_accepted (λ w. false) (server ∷ []))
    × ((bulk_save (λ w. false) 60 (server ∷ []) servers).0.writes
        ≡ (if count_accepted (λ w. false) (server ∷ []) == 0 then 0 else 0 + 1))
bulk_save-save_each_example = bulk_save-save_each (λ w. false) 60 (server ∷ []) servers

save_all-IsSeen_example :
    (current_fcc
      (97 ∷ [])
      (save_all (λ w. false) (one server ∷ bulk 60 (server ∷ []) ∷ []) servers).rows).first_seen
    ≡ some 20
unfolding current_fcc lookup
save_all-IsSeen_example =
    save_all-IsSeen (λ w. false) (97 ∷ []) 20 (one server ∷ bulk 60 (server ∷ []) ∷ []) servers
      (omega arith) refl

abbrev capture : Capture
capture = record {
  token = 116 ∷ [];
  sip = [];
  sport = some 40000;
  dip = some (100 ∷ []);
  dport = some 8080;
  path = [];
  captured_at = some 50;
}

abbrev tokens : TokenStore
tokens = record {
  file = some (record { latest = none; history = []; auth_info = some ((97 ∷ [], 98 ∷ []) ∷ []) });
  uios_session = none;
}

load-save_tokens_example :
    ((load (save_tokens (capture ∷ capture ∷ []) tokens)).history
      ≡ last_n kept_tokens (
          (read_file tokens.file).history
          ++ additions (read_file tokens.file).latest (capture ∷ capture ∷ [])))
    × (load_auth_info (save_tokens (capture ∷ capture ∷ []) tokens) ≡ load_auth_info tokens)
load-save_tokens_example = load-save_tokens (capture ∷ capture ∷ []) tokens

abbrev letters : Letters
letters = record { strip_lower = λ w. w; is_space = λ c. c == 32; is_decimal = λ c. is_digit c }

-- 239.1.1.1.
abbrev channel : Operator
channel = record {
  host = 50 ∷ 51 ∷ 57 ∷ 46 ∷ 49 ∷ 46 ∷ 49 ∷ 46 ∷ 49 ∷ [];
  port = some 5000;
  name = 65 ∷ [];
  category = [];
  channel_id = 55 ∷ [];
  fcc_ip = [];
  fcc_port = none;
  fec_port = none;
  operator_group = [];
  is_hd = false;
}

stable_channel_catalog-IsEntry_example :
    All
      (IsEntry [] ((97 ∷ [], channel) ∷ []))
      (stable_channel_catalog letters (λ t. t) (λ r. r) [] ((97 ∷ [], channel) ∷ []))
stable_channel_catalog-IsEntry_example =
    stable_channel_catalog-IsEntry letters (λ t. t) (λ r. r) [] (97 ∷ []) channel []
      (λ r. (refl, refl, refl))
