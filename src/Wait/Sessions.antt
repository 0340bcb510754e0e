-- ===== src/Wait/Sessions.antt =====
-- The sessions that `rmw_wait` runs.
use rmw_microxrcedds.Prelude.{
  ℕ, ◌+◌, ◌-◌, ◌/◌, ◌%◌, ◌^◌, ◌≤◌, ◌<◌, ◌≡◌, ◌≢◌, ◌⊎◌, refl, sym, ap, ◌∙◌, inl, inr, Bool, true,
  false, ◌&&◌, ◌||◌, not, Option, none, some, List, [], ◌∷◌, arith, Bool-cases, ◌==◌, has, length,
  ltb,
}
use mathlib.Core.List.{foldl}
use rmw_microxrcedds.Prelude.Int.{ℤ, pos, negsuc}
use rmw_microxrcedds.Types.{Ptr, RmwTime, Buffers, Owners, RmwTimeLibrary}
use rmw_microxrcedds.StaticBuffer.Clean.{select}
use rmw_microxrcedds.Wait.{
  SessionLibrary, Flags, set_flag, WaitState, WaitSets, entries, clear_loop, enable_loop,
  count_loop, run_needed, run_idle, per_session_timeout, wait_timeout_ms, run_sessions, needed,
  same_ℤ, as_uint64,
}

-- Some entity of the list is of the session.
abbrev pub of_session : (Ptr → Ptr) → List Ptr → Ptr → Bool
of_session context_of [] y = false
of_session context_of (x ∷ xs) y = y == context_of x || of_session context_of xs y

clear_loop-has : (xs : List Ptr) (f : Flags) (y : Ptr) → clear_loop xs f y ≡ (not (has y xs) && f y)
unfolding clear_loop
clear_loop-has [] f y = ground arith
clear_loop-has (x ∷ xs) f y = ground (arith, clear_loop-has xs (set_flag x false f) y)

enable_loop-of_session :
    (context_of : Ptr → Ptr) (xs : List Ptr) (f : Flags) (y : Ptr)
    → enable_loop context_of xs f y ≡ (of_session context_of xs y || f y)
unfolding enable_loop
enable_loop-of_session context_of [] f y = refl
enable_loop-of_session context_of (x ∷ xs) f y =
    ground (arith, enable_loop-of_session context_of xs (set_flag (context_of x) true f) y)

count_loop-select :
    (f : Flags) (xs : List Ptr) (n : ℕ)
    → n + length xs < 256
    → count_loop f xs n ≡ n + length (select f xs)
unfolding count_loop
count_loop-select f [] n h = ground arith
count_loop-select f (x ∷ xs) n h = elim (Bool-cases (f x)) [
  | inl e ↦ rw e (ground (arith, count_loop-select f xs ((n + 1) % 256) (ground arith)))
  | inr e ↦ rw e (ground (arith, count_loop-select f xs ((n + 0) % 256) (ground arith)))
]

count_select :
    (f : Flags) (xs : List Ptr) → length xs < 256 → count_loop f xs 0 ≡ length (select f xs)
count_select f xs h = ground (arith, count_loop-select f xs 0 (ground arith))

has_one : (x : Ptr) (xs : List Ptr) → (length (x ∷ xs) == 0) ≡ false
has_one x xs = ground arith

-- The value as a `uint64_t`.
abbrev pub unsigned_of : ℤ → ℕ
unsigned_of (pos n) = n
unsigned_of (negsuc n) = 2 ^ 64 - (n + 1)

same_ℤ-path : (a b : ℤ) → same_ℤ a b ≡ true → a ≡ b
unfolding same_ℤ
same_ℤ-path (pos m) (pos n) h = ap (λ k. pos k) (ground arith)
same_ℤ-path (pos m) (negsuc n) h = absurd (ground arith)
same_ℤ-path (negsuc m) (pos n) h = absurd (ground arith)
same_ℤ-path (negsuc m) (negsuc n) h = ap (λ k. negsuc k) (ground arith)

same_ℤ-self : (a : ℤ) → same_ℤ a a ≡ true
unfolding same_ℤ
same_ℤ-self a = ground arith

same_ℤ-apart : (a b : ℤ) → same_ℤ a b ≡ false → a ≢ b
same_ℤ-apart a b h e = absurd (ground (arith, h, ap (λ c. same_ℤ a c) e, same_ℤ-self a))

module _ (time : RmwTimeLibrary) (library : SessionLibrary) where
  -- Each session of a list runs until data arrive.
  abbrev pub run_each : ℤ → List Ptr → Buffers → Buffers
  run_each timeout [] b = b
  run_each timeout (x ∷ xs) b = run_each timeout xs (library.run_session_until_data x timeout b)

  run_needed-run_each :
      (f : Flags) (timeout : ℤ) (xs : List Ptr) (b : Buffers)
      → run_needed time library f timeout xs b ≡ run_each timeout (select f xs) b
  unfolding run_needed
  run_needed-run_each f timeout [] b = refl
  run_needed-run_each f timeout (x ∷ xs) b = elim (Bool-cases (f x)) [
    | inl e ↦ rw e (run_needed-run_each f timeout xs (library.run_session_until_data x timeout b))
    | inr e ↦ rw e (run_needed-run_each f timeout xs b)
  ]

  run_idle-run_without_blocking :
      (xs : List Ptr) (b : Buffers)
      → run_idle time library xs b ≡ foldl (λ c x. library.run_session_timeout x (pos 0) c) b xs
  unfolding run_idle
  run_idle-run_without_blocking [] b = refl
  run_idle-run_without_blocking (x ∷ xs) b =
      run_idle-run_without_blocking xs (library.run_session_timeout x (pos 0) b)

  -- The whole timeout in milliseconds: without end if there is none or it is infinite, and else its
  -- nanoseconds divided by a million, at most the largest `int`.
  abbrev pub IsTimeout : Option RmwTime → ℤ → Type 0
  IsTimeout none t = t ≡ library.timeout_inf
  IsTimeout (some d) t =
      ((time.rmw_time_equal d time.duration_infinite ≡ true) × (t ≡ library.timeout_inf))
      ⊎ ((time.rmw_time_equal d time.duration_infinite ≡ false)
          × (let ms = unsigned_of (time.rmw_time_total_nsec d) / 1000000 in
              ((ms ≤ 2147483647) × (t ≡ pos ms)) ⊎ ((2147483647 < ms) × (t ≡ pos 2147483647))))

  wait_timeout_ms-IsTimeout :
      (timeout : Option RmwTime) → IsTimeout timeout (wait_timeout_ms time library timeout)
  unfolding wait_timeout_ms as_uint64
  wait_timeout_ms-IsTimeout none = refl
  wait_timeout_ms-IsTimeout (some d) =
      elim (Bool-cases (time.rmw_time_equal d time.duration_infinite)) [
        | inl e ↦ inl (e, rw e refl)
        | inr e ↦
            let ms = as_uint64 (time.rmw_time_total_nsec d) / 1000000 in
            inr (
              e,
              elim (Bool-cases (ltb 2147483647 ms)) [
                | inl m ↦ inr (ground (arith, m), rw (e, m) refl)
                | inr m ↦ inl (ground (arith, m), rw (e, m) refl)
              ],
            )
      ]

  -- The share of each of `n` sessions of a timeout.
  abbrev pub IsShare : ℤ → ℕ → ℤ → Type 0
  IsShare t n share =
      ((t ≡ library.timeout_inf) × (share ≡ library.timeout_inf))
      ⊎ ((t ≢ library.timeout_inf) × (share ≡ library.float_quotient t n))

  per_session_timeout-IsShare : (t : ℤ) (n : ℕ) → IsShare t n (per_session_timeout time library t n)
  unfolding per_session_timeout
  per_session_timeout-IsShare t n = elim (Bool-cases (same_ℤ t library.timeout_inf)) [
    | inl e ↦ inl (same_ℤ-path t library.timeout_inf e, rw e refl)
    | inr e ↦ inr (same_ℤ-apart t library.timeout_inf e, rw e refl)
  ]

  -- What runs when `chosen` of the sessions are flagged: all sessions without blocking if none is,
  -- and else the chosen ones, each for its share of the timeout.
  abbrev pub RunsChosen : Option RmwTime → List Ptr → List Ptr → Buffers → Buffers → Type 0
  RunsChosen timeout sessions [] b end =
      end ≡ foldl (λ c x. library.run_session_timeout x (pos 0) c) b sessions
  RunsChosen timeout sessions (x ∷ xs) b end =
      (t : ℤ) × (share : ℤ) × IsTimeout timeout t
      × IsShare t (length (x ∷ xs)) share
      × (end ≡ run_each share (x ∷ xs) b)

  run_sessions-RunsChosen :
      (f : Flags) (timeout : Option RmwTime) (sessions chosen : List Ptr) (b : Buffers)
      → chosen ≡ select f sessions
      → length sessions < 256
      → RunsChosen timeout sessions chosen b (run_sessions time library f timeout sessions b)
  unfolding run_sessions
  run_sessions-RunsChosen f timeout sessions [] b e small =
      rw (count_select f sessions small, sym e) (run_idle-run_without_blocking sessions b)
  run_sessions-RunsChosen f timeout sessions (x ∷ xs) b e small =
      let n = length (x ∷ xs) in
      let t = wait_timeout_ms time library timeout in
      let share = per_session_timeout time library t n in
      (
        t,
        share,
        wait_timeout_ms-IsTimeout timeout,
        per_session_timeout-IsShare t n,
        rw (count_select f sessions small, sym e, has_one x xs)
            (run_needed-run_each f share sessions b ∙ ap (λ l. run_each share l b) (sym e)),
      )

  needed-of_session :
      (o : Owners) (sets : WaitSets Ptr) (s : WaitState) (y : Ptr)
      → has y s.sessions ≡ true
      → needed time library o sets s y ≡ (
          of_session
            (λ x. s.context (o.subscriptions.at x).owner_node)
            (entries sets.subscriptions)
            y
          || of_session (λ x. s.context (o.clients.at x).owner_node) (entries sets.clients) y
          || of_session (λ x. s.context (o.services.at x).owner_node) (entries sets.services) y)
  unfolding needed
  needed-of_session o sets s y i =
      let f₀ = clear_loop s.sessions s.need_to_be_ran in
      let c₁ = λ (x : Ptr). s.context (o.services.at x).owner_node in
      let c₂ = λ (x : Ptr). s.context (o.clients.at x).owner_node in
      let f₁ = enable_loop c₁ (entries sets.services) f₀ in
      let f₂ = enable_loop c₂ (entries sets.clients) f₁ in
      ground (
        arith,
        clear_loop-has s.sessions s.need_to_be_ran y,
        enable_loop-of_session c₁ (entries sets.services) f₀ y,
        enable_loop-of_session c₂ (entries sets.clients) f₁ y,
        enable_loop-of_session (λ x. s.context (o.subscriptions.at x).owner_node)
            (entries sets.subscriptions) f₂ y,
      )

  -- With less than 256 sessions (`available_contexts` is a `uint8_t`) `rmw_wait` runs the sessions
  -- that are flagged, in their order, each for its share of the time. If no session is flagged it
  -- runs all of them without blocking. After the flags are set those of a session are set exactly
  -- when one of the subscriptions, clients and services is of that session.
  pub run_sessions-needed :
      (o : Owners) (sets : WaitSets Ptr) (timeout : Option RmwTime) (s : WaitState) (b : Buffers)
      → length s.sessions < 256
      → let f = needed time library o sets s in
        RunsChosen timeout s.sessions
          (select f s.sessions)
          b
          (run_sessions time library f timeout s.sessions b)
        × ((y : Ptr)
            → has y s.sessions ≡ true
            → f y ≡ (
                of_session
                  (λ x. s.context (o.subscriptions.at x).owner_node)
                  (entries sets.subscriptions)
                  y
                || of_session (λ x. s.context (o.clients.at x).owner_node) (entries sets.clients) y
                || of_session
                    (λ x. s.context (o.services.at x).owner_node)
                    (entries sets.services)
                    y))
  run_sessions-needed o sets timeout s b small =
      (run_sessions-RunsChosen _ timeout s.sessions _ b refl small, needed-of_session o sets s)
