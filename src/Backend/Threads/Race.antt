-- ===== src/Backend/Threads/Race.antt =====
-- A schedule on which one thread seeks between the seek and the read of another.
use capfs.Base.{ℕ, ◌+◌, ◌≤◌, ◌≡◌, refl, ap, List, [], ◌∷◌, arith}
use capfs.Machine.{State}
use capfs.Machine.Post.{Returns, returns, Returns-bind}
use capfs.Metadata.{files_size}
use capfs.Backend.Settled.{Holds}
use capfs.Backend.Threads.{Job, Thread, waiting, sought, answered, advance, turn, interleave}
use capfs.Backend.Threads.Turns.{place, Allowed, found_at, seek-Returns, fetch-Returns}

module _ {Q : State → Type 0} where
  pub first_turn :
      (th th' : Thread) (ths : List Thread) (s : State)
      → Returns (λ x t. (x ≡ th') × Q t) (advance th s)
      → Returns (λ x t. (x ≡ th' ∷ ths) × Q t) (turn 0 (th ∷ ths) s)
  unfolding turn
  first_turn th th' ths s r = Returns-bind r λ x t (same, q). returns (ap (λ y. y ∷ ths) same, q)

  pub second_turn :
      (th₀ th th' : Thread) (ths : List Thread) (s : State)
      → Returns (λ x t. (x ≡ th') × Q t) (advance th s)
      → Returns (λ x t. (x ≡ th₀ ∷ th' ∷ ths) × Q t) (turn 1 (th₀ ∷ th ∷ ths) s)
  unfolding turn
  second_turn th₀ th th' ths s r =
      Returns-bind (first_turn th th' ths s r) λ x t (same, q). returns (ap (λ y. th₀ ∷ y) same, q)

  pub next_turn :
      {P : List Thread → State → Type 0} (i : ℕ) (is : List ℕ) (ths ths' : List Thread) (s : State)
      → Returns (λ x t. (x ≡ ths') × Q t) (turn i ths s)
      → ((t : State) → Q t → Returns P (interleave is ths' t))
      → Returns P (interleave (i ∷ is) ths s)
  unfolding interleave
  next_turn i is ths ths' s r next = Returns-bind r λ x t (same, q). rw same (next t q)

module _ (memory : ℕ → ℕ) (mine other : Job) where
  -- On a ready file (of the expected size, on which every call works) whose data is the given
  -- memory, two threads each read through a readable capability, a range that ends inside it and
  -- inside the data region. If the first thread seeks, then the second one, and then each reads,
  -- the first returns its count of bytes with the data at the place of the second, and the second
  -- those that follow, where that many bytes follow in the data region; so neither gets its own
  -- range.
  pub interleave_leaks :
      (s : State)
      → Holds memory s
      → Allowed mine
      → Allowed other
      → place other + mine.bytes + other.bytes ≤ files_size
      → Returns
          (λ ths t.
            (ths
              ≡ answered (found_at memory mine (place other))
                ∷ answered (found_at memory other (place other + mine.bytes))
                ∷ [])
            × Holds memory t)
          (interleave (0 ∷ 1 ∷ 0 ∷ 1 ∷ []) (waiting mine ∷ waiting other ∷ []) s)
  unfolding interleave
  interleave_leaks s h a b room =
      let leaked = answered (found_at memory mine (place other)) in
      let late = answered (found_at memory other (place other + mine.bytes)) in
      next_turn 0 (1 ∷ 0 ∷ 1 ∷ []) (waiting mine ∷ waiting other ∷ [])
        (sought mine ∷ waiting other ∷ []) s
        (first_turn (waiting mine) (sought mine) _ s (seek-Returns memory mine h a))
        λ t p.
          next_turn 1 (0 ∷ 1 ∷ []) (sought mine ∷ waiting other ∷ [])
            (sought mine ∷ sought other ∷ []) t
            (second_turn _ (waiting other) (sought other) [] t (seek-Returns memory other p.held b))
            λ u q.
              next_turn 0 (1 ∷ []) (sought mine ∷ sought other ∷ []) (leaked ∷ sought other ∷ []) u
                (first_turn (sought mine) leaked _ u
                  (fetch-Returns memory mine (place other) q a (omega arith)))
                λ v r.
                  next_turn 1 [] (leaked ∷ sought other ∷ []) (leaked ∷ late ∷ []) v
                    (second_turn _ (sought other) late [] v
                      (fetch-Returns memory other (place other + mine.bytes) r b room))
                    λ w z. returns (refl, z.held)
