-- ===== src/Exports/Urls.antt =====
-- services/export_service.py: `normalize_path_prefix`, `make_http_url` and `make_source_url`.
use iptv_sniffer_web.Base.{
  ℕ, String, Bool, true, false, not, ◌&&◌, ◌||◌, Option, none, some, List, [], ◌∷◌, ◌++◌, ◌>>=◌,
  leb, if◌then◌else◌, ◌==◌, nat_eq, string_eq, pair_eq, list_eq, length, Text, str_nat, is_digit,
}
use iptv_sniffer_web.Address.{split_on}
use iptv_sniffer_web.Ranking.{is_set}

-- `normalize_path_prefix`, where `none` is its ValueError. A slash is 47, a dot 46.
unfoldable pub strip_left : (ℕ → Bool) → Text → Text
strip_left drops [] = []
strip_left drops (c ∷ cs) = if drops c then strip_left drops cs else c ∷ cs

unfoldable pub strip_right : (ℕ → Bool) → Text → Text
strip_right drops [] = []
strip_right drops (c ∷ cs) =
    let rest = strip_right drops cs in if length rest == 0 && drops c then [] else c ∷ rest

unfoldable pub strip : (ℕ → Bool) → Text → Text
strip drops text = strip_right drops (strip_left drops text)

-- The class `[A-Za-z0-9._~/-]`.
unfoldable pub is_path_char : ℕ → Bool
is_path_char c =
    leb 65 c && leb c 90
    || (leb 97 c && leb c 122
        || (is_digit c || (c == 46 || (c == 95 || (c == 126 || (c == 47 || c == 45))))))

unfoldable pub all_path_chars : Text → Bool
all_path_chars [] = true
all_path_chars (c ∷ cs) = is_path_char c && all_path_chars cs

-- `".." in text.split("/")`.
unfoldable pub has_parent : List Text → Bool
has_parent [] = false
has_parent (w ∷ ws) = w == 46 ∷ 46 ∷ [] || has_parent ws

unfoldable pub is_slash : ℕ → Bool
is_slash c = c == 47

unfoldable pub with_slash : Text → Text
with_slash [] = 47 ∷ []
with_slash (c ∷ cs) = if c == 47 then c ∷ cs else 47 ∷ c ∷ cs

unfoldable pub check_prefix : Text → Option Text
check_prefix [] = none
check_prefix (c ∷ cs) =
    if c == 47
      && (not (length cs == 0) && (all_path_chars cs && not (has_parent (split_on 47 (c ∷ cs)))))
    then some (c ∷ cs)
    else none

unfoldable pub normalize_path_prefix : (ℕ → Bool) → Text → Option Text
normalize_path_prefix is_space value =
    let text = strip is_space value in
    if length text == 0 || text == 47 ∷ []
    then some []
    else check_prefix (strip_right is_slash (with_slash text))

unfoldable pub join_params : List Text → Text
join_params [] = []
join_params (p ∷ []) = p
join_params (p ∷ q ∷ ps) = p ++ 38 ∷ join_params (q ∷ ps)

-- The server of fast channel change and its type, and the port of forward error correction.
pub record Server : Type 0 where
  pub fcc_ip : Text
  pub fcc_port : Option ℕ
  pub fec_port : Option ℕ
  pub fcc_type : Text

unfoldable pub port_text : Option ℕ → Text
port_text none = []
port_text (some n) = str_nat n

-- `fcc=`, `fcc-type=` and `fec=`.
unfoldable pub fcc_params : Server → List Text
fcc_params s =
    if length s.fcc_ip == 0 || not (is_set s.fcc_port)
    then []
    else (102 ∷ 99 ∷ 99 ∷ 61 ∷ s.fcc_ip ++ 58 ∷ port_text s.fcc_port)
      ∷ (if length s.fcc_type == 0
          then []
          else (102 ∷ 99 ∷ 99 ∷ 45 ∷ 116 ∷ 121 ∷ 112 ∷ 101 ∷ 61 ∷ s.fcc_type) ∷ [])

unfoldable pub url_params : Server → List Text
url_params s =
    fcc_params s
    ++ (if is_set s.fec_port then (102 ∷ 101 ∷ 99 ∷ 61 ∷ port_text s.fec_port) ∷ [] else [])

unfoldable pub with_params : Text → Server → Text
with_params url s =
    if length (url_params s) == 0 then url else url ++ 63 ∷ join_params (url_params s)

-- `make_source_url`: rtp:// or udp://.
unfoldable pub make_source_url : String → Text → ℕ → Server → Text
make_source_url path_mode host port s =
    with_params
      ((if path_mode == "rtp" then 114 ∷ 116 ∷ 112 ∷ [] else 117 ∷ 100 ∷ 112 ∷ [])
        ++ 58 ∷ 47 ∷ 47 ∷ host
        ++ 58 ∷ str_nat port)
      s

-- `make_http_url`, which raises what the prefix raises.
unfoldable pub make_http_url : (ℕ → Bool) → Text → ℕ → Text → Text → ℕ → Server → Text → Option Text
make_http_url is_space http_host http_port path_mode host port s path_prefix =
    normalize_path_prefix is_space path_prefix >>= λ prefix. some (
      with_params
        (104 ∷ 116 ∷ 116 ∷ 112 ∷ 58 ∷ 47 ∷ 47 ∷ http_host
          ++ 58 ∷ str_nat http_port
          ++ prefix
          ++ 47 ∷ path_mode
          ++ 47 ∷ host
          ++ 58 ∷ str_nat port)
        s)
