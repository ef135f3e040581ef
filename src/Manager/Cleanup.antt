-- ===== src/Manager/Cleanup.antt =====
-- The cleanup of connections keeps those that were used recently.
use pulsar_rdg_rs.Prelude.{
  ℕ, ◌+◌, ◌-◌, ◌≤◌, ◌<◌, ◌≡◌, refl, ap, ◌∙◌, Bool, true, some, List, [], ◌∷◌, ltb, lt→ltb, arith,
  Bool-cases, inl, inr,
}
use pulsar_rdg_rs.Manager.{
  ConnectionRetryOptions, connected, Entry, returned, get_connection, should_retain, retain,
}

-- What happens to an entry: a task looks it up, or the table is cleaned up; and when.
pub data Use : Type 0 where
  looked_up checked : ℕ → Use

module _ (is_valid : ℕ → Bool) (strong_count : ℕ → ℕ) (options : ConnectionRetryOptions)
    (tx : ℕ) where
  unfoldable pub on_use : Use → Entry → Entry
  unfolding get_connection retain
  on_use (looked_up now) entry = (get_connection is_valid now tx entry).0
  on_use (checked now) entry = retain is_valid strong_count options now entry

  unfoldable pub uses : List Use → Entry → Entry
  unfolding on_use
  uses [] entry = entry
  uses (u ∷ us) entry = uses us (on_use u entry)

  abbrev pub time : Use → ℕ
  time (looked_up now) = now
  time (checked now) = now

  abbrev pub AllWithin : ℕ → List Use → Type 0
  AllWithin start [] = Unit
  AllWithin start (u ∷ us) =
      (start ≤ time u) × (time u < start + options.connection_max_idle) × AllWithin start us

  get_connection-valid :
      (conn last now : ℕ)
      → is_valid conn ≡ true
      → get_connection is_valid now tx (some (connected conn last))
        ≡ (some (connected conn now), returned conn)
  unfolding get_connection
  get_connection-valid conn last now v = rw v refl

  retain-recent :
      (conn last now : ℕ)
      → is_valid conn ≡ true
      → now - last < options.connection_max_idle
      → retain is_valid strong_count options now (some (connected conn last))
        ≡ some (connected conn last)
  unfolding retain should_retain
  retain-recent conn last now v l = elim (Bool-cases (ltb 1 (strong_count conn))) [
    | inl e ↦ rw (v, e) refl
    | inr e ↦ rw (v, e, lt→ltb (now - last) options.connection_max_idle l) refl
  ]

  uses-kept :
      (conn start last : ℕ) (us : List Use)
      → is_valid conn ≡ true
      → start ≤ last
      → AllWithin start us
      → (t : ℕ) × (uses us (some (connected conn last)) ≡ some (connected conn t))
  unfolding uses on_use
  uses-kept conn start last [] v l w = (last, refl)
  uses-kept conn start last (looked_up now ∷ us) v l (a, b, w) =
      let (t, e) = uses-kept conn start now us v a w in
      (t, ap (λ p. uses us p.0) (get_connection-valid conn last now v) ∙ e)
  uses-kept conn start last (checked now ∷ us) v l (a, b, w) =
      let (t, e) = uses-kept conn start last us v l w in
      (t, ap (uses us) (retain-recent conn last now v (omega arith)) ∙ e)

  -- When a task was handed a valid connection at `start`, and the connection stays valid, then
  -- after any lookups and cleanups at times from `start` on and before the maximal idle time has
  -- passed since, in any order, and however few tasks hold the connection, the next lookup is
  -- handed the same connection.
  pub uses-returned :
      (conn last start later : ℕ) (us : List Use)
      → is_valid conn ≡ true
      → AllWithin start us
      → (get_connection is_valid later tx
          (uses us (get_connection is_valid start tx (some (connected conn last))).0)).1
        ≡ returned conn
  uses-returned conn last start later us v w =
      let (t, e) = uses-kept conn start start us v (omega arith) w in
      ap (λ p. (get_connection is_valid later tx (uses us p.0)).1)
        (get_connection-valid conn last start v)
      ∙ ap (λ k. (get_connection is_valid later tx k).1) e
      ∙ ap (λ p. p.1) (get_connection-valid conn t later v)
