-- ===== src/Star/Window/Credit.antt =====
-- The window as an account: what was taken never exceeds the limit and what was given back.
use rain_net.Common.{
  ℕ, zero, suc, ◌+◌, ◌-◌, ◌≤◌, ◌<◌, min, ◌≡◌, refl, sym, subst, ◌∙◌, inl, inr, true, false, some,
  arith, leb, if◌then◌else◌, Bool-cases,
}
use rain_net.Common.Int.{
  parts_disjoint, pos, pos_part, neg_part, ◌+ℤ◌, ◌-ℤ◌, leb_ℤ, +ℤ_parts, -ℤ_parts, int_laws,
}
use mathlib.Core.Option.{some-injective}
use rain_net.Star.Window.{
  Window, Attempt, acquired, refused, blocked, close, release, fits, taking, acquire,
}

-- No more than the limit is outstanding.
abbrev pub IsBounded : Window → Type 0
IsBounded w = pos_part w.outstanding ≤ w.limit

-- `outstanding` after `n` more bytes.
abbrev pub Adds : Window → ℕ → Window → Type 0
Adds w n w' =
    (pos_part w'.outstanding + neg_part w.outstanding
      ≡ neg_part w'.outstanding + pos_part w.outstanding + n)
    × (w'.limit ≡ w.limit)

-- What each result of Acquire says of the window: a call takes the bytes that it asked for, or those
-- that are no longer to be taken when it sleeps, or nothing.
abbrev pub Took : Window → ℕ → Attempt → Type 0
Took w n (acquired w') = Adds w n w' × IsBounded w' × (w.closed ≡ false) × (w'.closed ≡ false)
Took w n refused = w.closed ≡ true
Took w n (blocked w' m) =
    (m ≤ n)
    × Adds w (n - m) w'
    × IsBounded w'
    × (w.closed ≡ false)
    × (w'.closed ≡ false)
    × (fits w' m ≡ false)

taking-Adds : (w : Window) (n : ℕ) → Adds w (min n w.limit) (taking w n)
taking-Adds w n = omega int_laws

fits-IsBounded : (w : Window) (n : ℕ) → fits w n ≡ true → IsBounded (taking w n)
fits-IsBounded w n h = ground (arith, parts_disjoint (w.outstanding +ℤ pos (min n w.limit)))

-- A round of the loop before what the rest of the call does.
taking-Took :
    (w : Window) (n : ℕ) (r : Attempt) → Took (taking w n) (n - min n w.limit) r → Took w n r
taking-Took w n (acquired w') t =
    ((omega (arith, t, taking-Adds w n), omega (arith, t)), t.1, t.2, t.3)
taking-Took w n refused t = t
taking-Took w n (blocked w' m) t =
    (omega (arith, t), (omega (arith, t, taking-Adds w n), omega (arith, t)), t.2, t.3, t.4, t.5)

module _ (fuel : ℕ) (w : Window) (n : ℕ) where
  acquire_shut : w.closed ≡ true → acquire (suc fuel) w n ≡ some refused
  unfolding acquire
  acquire_shut h = ground arith

  acquire_full :
      w.closed ≡ false
      → fits w n ≡ false
      → acquire (suc fuel) w n ≡ some (blocked (record w { waiters = w.waiters + 1 }) n)
  unfolding acquire
  acquire_full h f = ground arith

  acquire_last :
      w.closed ≡ false
      → fits w n ≡ true
      → leb n (min n w.limit) ≡ true
      → acquire (suc fuel) w n ≡ some (acquired (taking w n))
  unfolding acquire
  acquire_last h f l = ground arith

  acquire_more :
      w.closed ≡ false
      → fits w n ≡ true
      → leb n (min n w.limit) ≡ false
      → acquire (suc fuel) w n ≡ acquire fuel (taking w n) (n - min n w.limit)
  unfolding acquire
  acquire_more h f l = ground arith

Took-some : (w : Window) (n : ℕ) {r r' : Attempt} → some r ≡ some r' → Took w n r → Took w n r'
Took-some w n e = subst (Took w n) (some-injective _ _ e)

-- A call of Acquire on a bounded window takes exactly the bytes that it reports, keeps the window
-- bounded, and sleeps only on an open window that the rest does not fit into.
pub acquire-Took :
    (fuel : ℕ) (w : Window) (n : ℕ) (r : Attempt)
    → IsBounded w
    → acquire fuel w n ≡ some r
    → Took w n r
acquire-Took zero w n r b h = unfold acquire in cc
acquire-Took (suc fuel) w n r b h = elim (Bool-cases w.closed) [
  | inl shut ↦ Took-some w n (sym (acquire_shut fuel w n shut) ∙ h) shut
  | inr open_ ↦ elim (Bool-cases (fits w n)) [
    | inr full ↦
        Took-some w n (sym (acquire_full fuel w n open_ full) ∙ h)
          (omega arith, (omega arith, refl), b, open_, open_, full)
    | inl room ↦ elim (Bool-cases (leb n (min n w.limit))) [
      | inl last ↦
          Took-some w n (sym (acquire_last fuel w n open_ room last) ∙ h)
            ((ground (arith, taking-Adds w n), refl), fits-IsBounded w n room, open_, open_)
      | inr more ↦ taking-Took w n r (
          acquire-Took fuel (taking w n) (n - min n w.limit) r (fits-IsBounded w n room)
            (sym (acquire_more fuel w n open_ room more) ∙ h))
    ]
  ]
]

-- With a positive limit the loop always comes to an end: fuel above the bytes asked for suffices.
pub acquire_total :
    (fuel : ℕ) (w : Window) (n : ℕ)
    → 0 < w.limit
    → n < fuel
    → (r : Attempt) × (acquire fuel w n ≡ some r)
acquire_total zero w n p h = absurd (omega arith)
acquire_total (suc fuel) w n p h = elim (Bool-cases w.closed) [
  | inl shut ↦ (refused, acquire_shut fuel w n shut)
  | inr open_ ↦ elim (Bool-cases (fits w n)) [
    | inr full ↦ (blocked _ n, acquire_full fuel w n open_ full)
    | inl room ↦ elim (Bool-cases (leb n (min n w.limit))) [
      | inl last ↦ (acquired (taking w n), acquire_last fuel w n open_ room last)
      | inr more ↦
          let (r, e) = acquire_total fuel (taking w n) (n - min n w.limit) p (ground arith) in
          (r, acquire_more fuel w n open_ room more ∙ e)
    ]
  ]
]

-- Bytes that fit at once are taken in one piece; if they do not fit the call sleeps, whatever else.
pub acquire_once :
    (fuel : ℕ) (w : Window) (n : ℕ)
    → n ≤ w.limit
    → w.closed ≡ false
    → acquire (suc fuel) w n ≡ (
        if leb_ℤ (w.outstanding +ℤ pos n) (pos w.limit)
        then some (acquired (record w { outstanding = w.outstanding +ℤ pos n }))
        else some (blocked (record w { waiters = w.waiters + 1 }) n))
acquire_once fuel w n l o =
    let whole : min n w.limit ≡ n = omega arith in
    ground (arith, whole, acquire_full fuel w n o, acquire_last fuel w n o)

room_after_release :
    (w : Window) (m k : ℕ)
    → IsBounded w
    → m ≤ k
    → leb_ℤ ((w.outstanding -ℤ pos k) +ℤ pos m) (pos w.limit) ≡ true
room_after_release w m k b h =
    ground (arith, +ℤ_parts (w.outstanding -ℤ pos k) (pos m), -ℤ_parts w.outstanding (pos k))

-- No caller sleeps for ever on credit that came back: once as much is released as a sleeping call
-- still has to take, that call succeeds when it is woken, and nobody is left on the list.
pub release_unblocks :
    (fuel : ℕ) (w : Window) (m k : ℕ)
    → IsBounded w
    → w.closed ≡ false
    → m ≤ w.limit
    → m ≤ k
    → ((w' : Window) × (acquire (suc fuel) (release w k) m ≡ some (acquired w')))
      × ((release w k).waiters ≡ 0)
unfolding release
release_unblocks fuel w m k b o l h =
    let w' : Window = record w { outstanding = w.outstanding -ℤ pos k; waiters = 0 } in
    (
      (
        record w' { outstanding = w'.outstanding +ℤ pos m },
        acquire_once fuel w' m l o ∙ rw (room_after_release w m k b h),
      ),
      refl,
    )

-- After Close every call fails, and the sleepers were woken to find that out.
pub close_refuses :
    (fuel : ℕ) (w : Window) (n k : ℕ)
    → (acquire (suc fuel) (close w) n ≡ some refused)
      × (acquire (suc fuel) (release (close w) k) n ≡ some refused)
      × ((close w).waiters ≡ 0)
unfolding close release
close_refuses fuel w n k = (acquire_shut fuel _ n refl, acquire_shut fuel _ n refl, refl)
