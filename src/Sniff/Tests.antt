-- ===== src/Sniff/Tests.antt =====
-- Runs of the dispatcher with two prefix rules and one host.
use rain_net.Common.{◌≡◌, refl, [], ◌∷◌, ◌++◌, codes, str_beq, nat_eq, str_eq}
use rain_net.Common.Maps.{lookup}
use rain_net.Sniff.{
  Config, dispatch, handed, read_rec, match_prefixes, hex_bytes, hex_pairs, no_spaces, has_prefix,
  compared, match_rest, is_http, http_target, cut_at, host_line, trim, trim_left, lower, split_host,
  contains,
}
use rain_net.Sniff.Replay.{dispatch-Replays}

abbrev config : Config
config = record {
  http_methods = codes "GET" ∷ codes "POST" ∷ [];
  host_routes = (codes "a.example", codes "web") ∷ [];
  http_default = codes "pages";
  prefixes =
      record { prefix = codes "41 42 43 44"; target = codes "first" }
      ∷ record { prefix = codes "53544152"; target = codes "star" }
      ∷ [];
  default = codes "tls";
}

abbrev short : Config
short = record config { prefixes = record { prefix = codes "5354"; target = codes "star" } ∷ [] }

short_prefix : dispatch short 0 (codes "STAR!") ≡ handed (codes "star") (codes "STA") (codes "R!")
unfolding dispatch read_rec match_prefixes hex_bytes hex_pairs no_spaces has_prefix compared
    match_rest
short_prefix = refl

-- The second of two long prefixes is compared with the head and the bytes behind the first one's.
second_long_prefix :
    dispatch config 0 (codes "STAR-tunnel") ≡ handed (codes "tls") (codes "STAR-") (codes "tunnel")
unfolding dispatch read_rec match_prefixes hex_bytes hex_pairs no_spaces has_prefix compared
    match_rest is_http
second_long_prefix = refl

by_host :
    dispatch short 19 (codes "GET / HTTP/1.1\nHost: A.example:80\n\n")
    ≡ handed (codes "web") (codes "GET / HTTP/1.1\nHost: A") (codes ".example:80\n\n")
unfolding dispatch read_rec match_prefixes hex_bytes hex_pairs no_spaces has_prefix compared
    match_rest is_http http_target cut_at host_line trim trim_left lower split_host contains lookup
    str_beq
by_host = refl

dispatch-Replays_example : codes "STAR-" ++ codes "tunnel" ≡ codes "STAR-tunnel"
unfolding dispatch read_rec match_prefixes hex_bytes hex_pairs no_spaces has_prefix compared
    match_rest is_http
dispatch-Replays_example = dispatch-Replays config 0 (codes "STAR-tunnel")
