-- ===== src/Sniff/Replay.antt =====
-- A target gets the whole stream, whatever sniffing read of it.
use rain_net.Common.{
  ℕ, ◌-◌, ◌≤◌, ◌≡◌, refl, sym, ap, subst, ◌∙◌, inl, inr, Option, none, some, List, [], ◌∷◌, ◌++◌,
  append_assoc, arith, ltb, leb, if◌then◌else◌, Bool-cases, length, take, drop, take-append-drop,
  length-take, Bytes,
}
use rain_net.Sniff.{
  behind, Rec, read_rec, compared, match_prefixes, Sniffed, hit, cut, missed, hex_bytes, has_prefix,
  match_rest, Dispatched, handed, dropped, dispatch, advance, Config, PrefixRule, is_http,
  replay_read,
}

abbrev pub whole : Rec → Bytes
whole r = r.buf ++ r.rest

advance-whole : (n : ℕ) (r : Rec) → whole (advance n r) ≡ whole r
advance-whole n r =
    append_assoc r.buf (take n r.rest) (drop n r.rest)
    ∙ ap (λ t. r.buf ++ t) (take-append-drop n r.rest)

-- A read that got as far as a record kept the stream.
abbrev Keeps : Bytes → Option (Bytes × Rec) → Type 0
Keeps stream none = Unit {0}
Keeps stream (some (bs, r)) = whole r ≡ stream

read_rec-Keeps : (n : ℕ) (r : Rec) → Keeps (whole r) (read_rec n r)
unfolding read_rec
read_rec-Keeps n r = elim (Bool-cases (leb n (length r.rest))) [
  | inl t ↦ rw t (advance-whole n r)
  | inr t ↦ rw t tt
]

behind-Keeps :
    (stream head : Bytes) (o : Option (Bytes × Rec)) → Keeps stream o → Keeps stream (behind head o)
behind-Keeps stream head none k = tt
behind-Keeps stream head (some (more, r)) k = k

compared-Keeps : (head prefix : Bytes) (r : Rec) → Keeps (whole r) (compared head prefix r)
unfolding compared
compared-Keeps head prefix r = elim (Bool-cases (ltb (length head) (length prefix))) [
  | inl t ↦ rw t (
      behind-Keeps (whole r) head (read_rec (length prefix - length head) r)
        (read_rec-Keeps (length prefix - length head) r))
  | inr t ↦ rw t refl
]

abbrev SniffKeeps : Bytes → Sniffed → Type 0
SniffKeeps stream (hit target r) = whole r ≡ stream
SniffKeeps stream cut = Unit {0}
SniffKeeps stream (missed r) = whole r ≡ stream

-- One rule, given that the rules after it keep the stream.
module _ (head : Bytes) (p : PrefixRule) (later : Rec → Sniffed) (r : Rec)
    (kept : (r' : Rec) → SniffKeeps (whole r') (later r')) where
  compare-SniffKeeps :
      (prefix : Bytes) (c : Option (Bytes × Rec))
      → Keeps (whole r) c
      → SniffKeeps (whole r) (elim c [
        | none ↦ cut
        | some (cmp, r') ↦ if has_prefix cmp prefix then hit p.target r' else later r'
      ])
  compare-SniffKeeps prefix none k = tt
  compare-SniffKeeps prefix (some (cmp, r')) k = elim (Bool-cases (has_prefix cmp prefix)) [
    | inl t ↦ rw t k
    | inr t ↦ rw t (subst (λ s. SniffKeeps s (later r')) k (kept r'))
  ]

  rule-SniffKeeps :
      (hex : Option Bytes)
      → SniffKeeps (whole r) (elim hex [
        | none ↦ later r
        | some [] ↦ later r
        | some (b ∷ bs) ↦ elim (compared head (b ∷ bs) r) [
          | none ↦ cut
          | some (cmp, r') ↦ if has_prefix cmp (b ∷ bs) then hit p.target r' else later r'
        ]
      ])
  rule-SniffKeeps none = kept r
  rule-SniffKeeps (some []) = kept r
  rule-SniffKeeps (some (b ∷ bs)) =
      compare-SniffKeeps (b ∷ bs) (compared head (b ∷ bs) r) (compared-Keeps head (b ∷ bs) r)

match_prefixes-SniffKeeps :
    (head : Bytes) (ps : List PrefixRule) (r : Rec)
    → SniffKeeps (whole r) (match_prefixes head ps r)
unfolding match_prefixes
match_prefixes-SniffKeeps head [] r = refl
match_prefixes-SniffKeeps head (p ∷ ps) r =
    rule-SniffKeeps head p (λ r'. match_prefixes head ps r') r
      (λ r'. match_prefixes-SniffKeeps head ps r') (hex_bytes p.prefix)

-- A connection that was handed over is, replayed bytes first, the whole stream.
abbrev pub Replays : Bytes → Dispatched → Type 0
Replays stream (handed target replay rest) = replay ++ rest ≡ stream
Replays stream dropped = Unit {0}

match_rest-Replays :
    (cfg : Config) (ahead : ℕ) (head stream : Bytes) (s : Sniffed)
    → SniffKeeps stream s
    → Replays stream (match_rest cfg ahead head s)
unfolding match_rest
match_rest-Replays cfg ahead head stream (hit target r) k = k
match_rest-Replays cfg ahead head stream cut k = tt
match_rest-Replays cfg ahead head stream (missed r) k =
    elim (Bool-cases (is_http cfg.http_methods head)) [
      | inl t ↦ rw t (advance-whole ahead r ∙ k)
      | inr t ↦ rw t k
    ]

headed-Replays :
    (cfg : Config) (ahead : ℕ) (stream : Bytes) (o : Option (Bytes × Rec))
    → Keeps stream o
    → Replays stream (elim o [
      | none ↦ dropped
      | some (head, r) ↦ match_rest cfg ahead head (match_prefixes head cfg.prefixes r)
    ])
headed-Replays cfg ahead stream none k = tt
headed-Replays cfg ahead stream (some (head, r)) k =
    match_rest-Replays cfg ahead head stream (match_prefixes head cfg.prefixes r) (
      subst (λ s. SniffKeeps s (match_prefixes head cfg.prefixes r)) k
        (match_prefixes-SniffKeeps head cfg.prefixes r))

-- Whatever sniffing read of a connection and however far it read ahead, a target that is handed the
-- connection gets every byte of the stream, once and in order.
pub dispatch-Replays :
    (cfg : Config) (ahead : ℕ) (stream : Bytes) → Replays stream (dispatch cfg ahead stream)
unfolding dispatch
dispatch-Replays cfg ahead stream =
    let start : Rec = record { buf = []; rest = stream } in
    headed-Replays cfg ahead stream (read_rec 3 start) (read_rec-Keeps 3 start)

-- A Read of the handed connection gives at most n bytes, from the front of replay and rest together,
-- and leaves the others.
pub replay_read_lem :
    (n : ℕ) (replay rest : Bytes)
    → ((replay_read n (replay, rest)).1
          ++ ((replay_read n (replay, rest)).0.0 ++ (replay_read n (replay, rest)).0.1)
        ≡ replay ++ rest)
      × (length (replay_read n (replay, rest)).1 ≤ n)
unfolding replay_read
replay_read_lem n [] rest = (take-append-drop n rest, omega (arith, length-take n rest))
replay_read_lem n (b ∷ bs) rest = (
  sym (append_assoc (take n (b ∷ bs)) (drop n (b ∷ bs)) rest)
      ∙ ap (λ t. t ++ rest) (take-append-drop n (b ∷ bs)),
  omega (arith, length-take n (b ∷ bs)),
)
