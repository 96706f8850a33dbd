-- ===== src/Star/Window/Ledger.antt =====
-- Any history of one window: who takes, what comes back, when it is closed.
use rain_net.Common.{ℕ, ◌+◌, ◌-◌, ◌≤◌, ◌≡◌, refl, some, arith}
use rain_net.Common.Int.{◌-ℤ◌, parts_disjoint, pos, pos_part, neg_part, -ℤ_parts}
use rain_net.Star.Window.{
  Window, Attempt, acquired, refused, blocked, new_window, close, release, acquire,
}
use rain_net.Star.Window.Credit.{IsBounded, Took, acquire-Took}

-- The window with the bytes that callers have taken and that peers have given back.
pub record Ledger : Type 0 where
  pub window : Window
  pub taken : ℕ
  pub returned : ℕ

-- What an Acquire of `n` bytes did to the ledger, if it got as far as `r`.
abbrev pub book : Ledger → ℕ → Attempt → Ledger
book l n (acquired w) = record l { window = w; taken = l.taken + n }
book l n refused = l
book l n (blocked w m) = record l { window = w; taken = l.taken + (n - m) }

-- One call on the window by any goroutine; a sleeper that is woken acquires what it still wants.
pub data Step (l : Ledger) : Ledger → Type 0 where
  acquires : (fuel n : ℕ) (r : Attempt) → acquire fuel l.window n ≡ some r → Step l (book l n r)
  releases : (n : ℕ) → Step l (record l { window = release l.window n; returned = l.returned + n })
  closes : Step l (record l { window = close l.window })

pub data Reach (l : Ledger) : Ledger → Type 0 where
  here : Reach l l
  next : {m n : Ledger} → Reach l m → Step m n → Reach l n

abbrev pub opened : ℕ → Ledger
opened limit = record { window = new_window limit; taken = 0; returned = 0 }

-- The counter is what was taken less what was returned, and is bounded.
pub record IsBalanced (limit : ℕ) (l : Ledger) : Type 0 where
  pub same_limit : l.window.limit ≡ limit
  pub bounded : IsBounded l.window
  pub balance : pos_part l.window.outstanding + l.returned ≡ neg_part l.window.outstanding + l.taken

book-IsBalanced :
    {limit : ℕ} (l : Ledger) (n : ℕ) (r : Attempt)
    → Took l.window n r
    → IsBalanced limit l
    → IsBalanced limit (book l n r)
book-IsBalanced l n (acquired w) t b = record {
  same_limit = omega (arith, t, b.same_limit);
  bounded = t.1;
  balance = omega (arith, t, b.balance);
}
book-IsBalanced l n refused t b = b
book-IsBalanced l n (blocked w m) t b = record {
  same_limit = omega (arith, t, b.same_limit);
  bounded = t.2;
  balance = omega (arith, t, b.balance);
}

Step-IsBalanced : {limit : ℕ} {l m : Ledger} → Step l m → IsBalanced limit l → IsBalanced limit m
unfolding release close
Step-IsBalanced {l = l} (acquires fuel n r e) b =
    book-IsBalanced l n r (acquire-Took fuel l.window n r b.bounded e) b
Step-IsBalanced {l = l} (releases n) b = record {
  same_limit = b.same_limit;
  bounded = ground (
    arith,
    b.bounded,
    parts_disjoint (l.window.outstanding -ℤ pos n),
    -ℤ_parts l.window.outstanding (pos n),
  );
  balance = omega (arith, b.balance, -ℤ_parts l.window.outstanding (pos n));
}
Step-IsBalanced closes b = record {
  same_limit = b.same_limit;
  bounded = b.bounded;
  balance = b.balance;
}

pub Reach-IsBalanced :
    {limit : ℕ} {l m : Ledger} → Reach l m → IsBalanced limit l → IsBalanced limit m
Reach-IsBalanced here b = b
Reach-IsBalanced (next r s) b = Step-IsBalanced s (Reach-IsBalanced r b)

opened-IsBalanced : (limit : ℕ) → IsBalanced limit (opened limit)
unfolding new_window
opened-IsBalanced limit = record { same_limit = refl; bounded = omega arith; balance = refl }

-- After any history of calls on a new window, the bytes that senders have taken are at most the
-- limit more than those that the peer has given back, and the window is still bounded.
pub taken-IsBounded :
    (limit : ℕ) (l : Ledger)
    → Reach (opened limit) l
    → (l.taken ≤ limit + l.returned) × IsBounded l.window
taken-IsBounded limit l r =
    let b = Reach-IsBalanced r (opened-IsBalanced limit) in
    (omega (arith, b.balance, b.bounded, b.same_limit), b.bounded)
