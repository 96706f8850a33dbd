-- ===== src/Sniff.antt =====
-- internal/ingress/sniff/sniff.go: one port for several protocols. `stream` is everything that a client
-- will send; `Rec` is recReader over it. How far bufio reads ahead of the lines that it is asked for
-- depends on the network and is the argument `ahead`. Header lines are taken to be ASCII. The queue
-- of a target and its timeout, and the accept loop, are not modelled.
pub mod Replay
mod Tests
use rain_net.Common.{
  ℕ, ◌+◌, ◌-◌, ◌*◌, Bool, true, false, ◌&&◌, Option, none, some, List, [], ◌∷◌, ◌++◌, ltb, leb,
  nat_beq, if◌then◌else◌, length, take, drop, Bytes, Str, zero, suc, not, ◌||◌, map, reverse, codes,
  nat_eq, str_eq,
}
use rain_net.Common.Maps.{lookup, Map}

pub record PrefixRule : Type 0 where
  pub prefix : Str
  pub target : Str

pub record Config : Type 0 where
  pub http_methods : List Str
  pub host_routes : Map Str Str
  pub http_default : Str
  pub prefixes : List PrefixRule
  pub default : Str

-- The bytes read so far, which are replayed, and those still to come.
pub record Rec : Type 0 where
  pub buf : Bytes
  pub rest : Bytes

-- io.ReadFull through recReader: n bytes, or none when the stream ends before.
unfoldable pub read_rec : ℕ → Rec → Option (Bytes × Rec)
read_rec n r =
    if leb n (length r.rest)
    then some (take n r.rest, record { buf = r.buf ++ take n r.rest; rest = drop n r.rest })
    else none

abbrev pub hex_value : ℕ → Option ℕ
hex_value c =
    if leb 48 c && leb c 57
    then some (c - 48)
    else if leb 97 c && leb c 102
    then some (c - 87)
    else if leb 65 c && leb c 70
    then some (c - 55)
    else none

-- strings.ReplaceAll(s, " ", "")
unfoldable pub no_spaces : Str → Str
no_spaces [] = []
no_spaces (c ∷ cs) = if nat_beq c 32 then no_spaces cs else c ∷ no_spaces cs

abbrev pub hex_digits : Option ℕ → Option ℕ → Option ℕ
hex_digits (some x) (some y) = some (x * 16 + y)
hex_digits none y = none
hex_digits (some x) none = none

abbrev pub hex_cons : Option ℕ → Option Bytes → Option Bytes
hex_cons (some x) (some xs) = some (x ∷ xs)
hex_cons none xs = none
hex_cons (some x) none = none

-- The loop goes by pairs, so a last odd digit is not looked at.
unfoldable pub hex_pairs : Str → Option Bytes
hex_pairs [] = some []
hex_pairs (a ∷ []) = some []
hex_pairs (a ∷ b ∷ cs) = hex_cons (hex_digits (hex_value a) (hex_value b)) (hex_pairs cs)

unfoldable pub hex_bytes : Str → Option Bytes
hex_bytes s = hex_pairs (no_spaces s)

unfoldable pub has_prefix : Bytes → Bytes → Bool
has_prefix bs [] = true
has_prefix [] (p ∷ ps) = false
has_prefix (b ∷ bs) (p ∷ ps) = nat_beq b p && has_prefix bs ps

-- Where the prefix rules end: a target, a closed connection, or no rule and what was read so far.
pub data Sniffed : Type 0 where
  hit : Str → Rec → Sniffed
  cut : Sniffed
  missed : Rec → Sniffed

abbrev pub behind : Bytes → Option (Bytes × Rec) → Option (Bytes × Rec)
behind head none = none
behind head (some (more, r)) = some (head ++ more, r)

-- A prefix that is longer than the head is compared with the head and bytes that are read now.
unfoldable pub compared : Bytes → Bytes → Rec → Option (Bytes × Rec)
compared head prefix r =
    if ltb (length head) (length prefix)
    then behind head (read_rec (length prefix - length head) r)
    else some (head, r)

-- The loop over the prefix rules in their order.
unfoldable pub match_prefixes : Bytes → List PrefixRule → Rec → Sniffed
match_prefixes head [] r = missed r
match_prefixes head (p ∷ ps) r = elim (hex_bytes p.prefix) [
  | none ↦ match_prefixes head ps r
  | some [] ↦ match_prefixes head ps r
  | some (b ∷ bs) ↦ elim (compared head (b ∷ bs) r) [
    | none ↦ cut
    | some (cmp, r') ↦
        let later = match_prefixes head ps r' in
        if has_prefix cmp (b ∷ bs) then hit p.target r' else later
  ]
]

-- The part before the first byte `c` and the part after it.
unfoldable pub cut_at : ℕ → Bytes → Option (Bytes × Bytes)
cut_at c [] = none
cut_at c (b ∷ bs) =
    let later = cut_at c bs in
    if nat_beq b c
    then some ([], bs)
    else elim later [ none ↦ none | some (front, back) ↦ some (b ∷ front, back) ]

unfoldable pub contains : ℕ → Bytes → Bool
contains c [] = false
contains c (b ∷ bs) = nat_beq b c || contains c bs

-- strings.TrimSpace and strings.ToLower on ASCII.
abbrev pub is_space : ℕ → Bool
is_space c = (leb 9 c && leb c 13) || nat_beq c 32

unfoldable pub trim_left : Str → Str
trim_left [] = []
trim_left (c ∷ cs) = if is_space c then trim_left cs else c ∷ cs

unfoldable pub trim : Str → Str
trim s = reverse (trim_left (reverse (trim_left s)))

abbrev pub lower_char : ℕ → ℕ
lower_char c = if leb 65 c && leb c 90 then c + 32 else c

unfoldable pub lower : Str → Str
lower s = map lower_char s

-- net.SplitHostPort, its host only: `[host]:port`, or `host:port` with one colon.
abbrev pub bracketed : Str → Bytes × Bytes → Option Str
bracketed t (host, []) = none
bracketed t (host, c ∷ port) =
    if nat_beq c 58 && not (contains 58 port) && not (contains 91 t) && not (contains 93 port)
    then some host
    else none

abbrev pub plain : Str → Bytes × Bytes → Option Str
plain s (host, port) =
    if contains 58 port || contains 91 s || contains 93 s then none else some host

unfoldable pub split_host : Str → Option Str
split_host [] = none
split_host (c ∷ cs) =
    if nat_beq c 91
    then elim (cut_at 93 cs) [ none ↦ none | some p ↦ bracketed cs p ]
    else elim (cut_at 58 (c ∷ cs)) [ none ↦ none | some p ↦ plain (c ∷ cs) p ]

-- The value of the first Host header; fuel: the lines of the text, which are no more than its bytes.
unfoldable pub host_line : ℕ → Bytes → Str
host_line zero bs = []
host_line (suc fuel) bs = elim (cut_at 10 bs) [
  | none ↦ []
  | some (line, more) ↦
      let later = host_line fuel more in
      let text = trim line in
      if nat_beq (length text) 0
      then []
      else if has_prefix (lower text) (codes "host:")
      then trim (drop 5 text)
      else later
]

abbrev pub host_of : Bytes → Str
host_of bs =
    let host = lower (host_line (length bs) bs) in
    elim (split_host host) [ none ↦ host | some h ↦ h ]

-- A method counts when it has three letters and the head is the first three.
unfoldable pub is_http : List Str → Bytes → Bool
is_http [] head = false
is_http (m ∷ ms) head = (leb 3 (length m) && has_prefix head (take 3 m)) || is_http ms head

-- The request line is skipped; without its end no header is looked at.
unfoldable pub http_target : Config → Bytes → Str
http_target cfg bs = elim (cut_at 10 bs) [
  | none ↦ cfg.http_default
  | some (request, headers) ↦ elim (lookup (host_of headers) cfg.host_routes) [
    | none ↦ cfg.http_default
    | some target ↦ target
  ]
]

-- What bufio took from the stream.
abbrev pub advance : ℕ → Rec → Rec
advance n r = record { buf = r.buf ++ take n r.rest; rest = drop n r.rest }

-- Where a connection goes: to a target, with the bytes to replay and those still to come, or nowhere.
pub data Dispatched : Type 0 where
  handed : Str → Bytes → Bytes → Dispatched
  dropped : Dispatched

-- Every name in the settings has its target but "", which goes to the default.
abbrev pub routed : Config → Str → Str
routed cfg [] = cfg.default
routed cfg (c ∷ cs) = c ∷ cs

abbrev pub handoff : Config → Str → Rec → Dispatched
handoff cfg target r = handed (routed cfg target) r.buf r.rest

unfoldable pub match_rest : Config → ℕ → Bytes → Sniffed → Dispatched
match_rest cfg ahead head (hit target r) = handoff cfg target r
match_rest cfg ahead head cut = dropped
match_rest cfg ahead head (missed r) =
    if is_http cfg.http_methods head
    then handoff cfg (http_target cfg r.rest) (advance ahead r)
    else handoff cfg cfg.default r

unfoldable pub dispatch : Config → ℕ → Bytes → Dispatched
dispatch cfg ahead stream = elim (read_rec 3 (record { buf = []; rest = stream })) [
  | none ↦ dropped
  | some (head, r) ↦ match_rest cfg ahead head (match_prefixes head cfg.prefixes r)
]

-- replayConn.Read of a buffer of n bytes: first what was recorded, then the connection.
unfoldable pub replay_read : ℕ → Bytes × Bytes → (Bytes × Bytes) × Bytes
replay_read n ([], rest) = (([], drop n rest), take n rest)
replay_read n (b ∷ bs, rest) = ((drop n (b ∷ bs), rest), take n (b ∷ bs))
