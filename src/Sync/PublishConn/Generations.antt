-- ===== src/Sync/PublishConn/Generations.antt =====
-- Publishers that share the connection, in any interleaving (src/routes/sync/publish_conn.rs).
use teddy_fyi_api_rust.Prelude.{
  ℕ, suc, ◌<◌, ◌≡◌, ◌≢◌, sym, ap, subst, ◌∙◌, Option, none, some, List, [], ◌∷◌, ◌==◌, arith, ◌⊎◌,
  inl, inr, Option-cases, Bool-cases,
}
use teddy_fyi_api_rust.Sync.PublishConn.{RedisPublisher, connection, discard}

-- The connection was handed out under the generation.
abbrev pub Handed : {C : Type 0} → ℕ → C → List (ℕ × C) → Type 0
Handed g c [] = ⊥
Handed g c ((g', c') ∷ log) = ((g' ≡ g) × (c' ≡ c)) ⊎ Handed g c log

abbrev pub undialled_yet : {C : Type 0} → RedisPublisher C
undialled_yet = record { cached = none; generations = 0 }

-- The publisher after some of its callers' steps, and all that it handed out.
pub data Reachable (C : Type 0) : RedisPublisher C → List (ℕ × C) → Type 0 where
  new : Reachable C undialled_yet []
  connected :
      (p : RedisPublisher C) (log : List (ℕ × C)) (dial : Option C) (pair : ℕ × C)
      → Reachable C p log
      → (connection dial p).1 ≡ some pair
      → Reachable C (connection dial p).0 (pair ∷ log)
  refused :
      (p : RedisPublisher C) (log : List (ℕ × C)) (dial : Option C)
      → Reachable C p log
      → (connection dial p).1 ≡ none
      → Reachable C (connection dial p).0 log
  discarded :
      (p : RedisPublisher C) (log : List (ℕ × C)) (g : ℕ)
      → Reachable C p log
      → Reachable C (discard g p) log

record Named (C : Type 0) (p : RedisPublisher C) (log : List (ℕ × C)) : Type 0 where
  pub below : (g : ℕ) (c : C) → Handed g c log → g < p.generations
  pub single : (g : ℕ) (c c' : C) → Handed g c log → Handed g c' log → c ≡ c'
  pub held : (g : ℕ) (c : C) → p.cached ≡ some (g, c) → Handed g c log

module _ {C : Type 0} where
  Handed-before :
      (log : List (ℕ × C)) (g k : ℕ) (c d : C)
      → Handed g c log
      → Handed k d ((g, c) ∷ log)
      → Handed k d log
  Handed-before log g k c d h (inl (e, q)) =
      subst (λ x. Handed x d log) e (subst (λ x. Handed g x log) q h)
  Handed-before log g k c d h (inr m) = m

  -- A pair that was handed out before is handed out again.
  Named-again :
      (p : RedisPublisher C) (log : List (ℕ × C)) (g : ℕ) (c : C)
      → Handed g c log
      → Named C p log
      → Named C p ((g, c) ∷ log)
  Named-again p log g c h n = record {
    below = λ k d m. n.below k d (Handed-before log g k c d h m);
    single = λ k d d' m m'.
        n.single k d d' (Handed-before log g k c d h m) (Handed-before log g k c d' h m');
    held = λ k d e. inr (n.held k d e);
  }

  -- The first time that a generation is handed out.
  Named-fresh :
      (p : RedisPublisher C) (log : List (ℕ × C)) (c : C)
      → Named C p log
      → Named C
          (record { cached = some (p.generations, c); generations = suc p.generations })
          ((p.generations, c) ∷ log)
  Named-fresh p log c n = record {
    below =
        λ k d m. elim m [ inl (e, q) ↦ omega (arith, e) | inr m' ↦ omega (arith, n.below k d m') ];
    single = λ k d d' m m'. elim m [
      | inl (e, q) ↦ elim m' [
        | inl (e', q') ↦ sym q ∙ q'
        | inr o' ↦ absurd (omega (arith, e, n.below k d' o'))
      ]
      | inr o ↦ elim m' [
        | inl (e', q') ↦ absurd (omega (arith, e', n.below k d o))
        | inr o' ↦ n.single k d d' o o'
      ]
    ];
    held = λ k d e. inl (ground arith);
  }

  Named-discard :
      (p : RedisPublisher C) (log : List (ℕ × C)) (g : ℕ)
      → Named C p log
      → Named C (discard g p) log
  unfolding discard
  Named-discard p log g n = record {
    below = λ k d m. ground (arith, n.below k d m);
    single = n.single;
    held = λ k d e. n.held k d (ground arith);
  }

  connection_cached :
      (p : RedisPublisher C) (dial : Option C) (pair : ℕ × C)
      → p.cached ≡ some pair
      → connection dial p ≡ (p, some pair)
  unfolding connection
  connection_cached p dial pair q = ground arith

  connection_failed : (p : RedisPublisher C) → p.cached ≡ none → connection none p ≡ (p, none)
  unfolding connection
  connection_failed p q = ground arith

  connection_fresh :
      (p : RedisPublisher C) (c : C)
      → p.cached ≡ none
      → connection (some c) p ≡ (
        record { cached = some (p.generations, c); generations = suc p.generations },
        some (p.generations, c),
      )
  unfolding connection
  connection_fresh p c q = ground arith

  -- What the log and the publisher are after the step, by what the step answered.
  abbrev After : List (ℕ × C) → RedisPublisher C × Option (ℕ × C) → Type 0
  After log (p, none) = Named C p log
  After log (p, some pair) = Named C p (pair ∷ log)

  connection-After :
      (p : RedisPublisher C) (log : List (ℕ × C)) (dial : Option C)
      → Named C p log
      → After log (connection dial p)
  connection-After p log dial n = elim (Option-cases p.cached) [
    | inr ((k, d), q) ↦
        subst (After log) (sym (connection_cached p dial (k, d) q))
          (Named-again p log k d (n.held k d q) n)
    | inl q ↦ elim dial as (λ x. After log (connection x p)) [
      | none ↦ subst (After log) (sym (connection_failed p q)) n
      | some c ↦ subst (After log) (sym (connection_fresh p c q)) (Named-fresh p log c n)
    ]
  ]

  After-some :
      (log : List (ℕ × C)) (reply : RedisPublisher C × Option (ℕ × C)) (pair : ℕ × C)
      → reply.1 ≡ some pair
      → After log reply
      → Named C reply.0 (pair ∷ log)
  After-some log (p, none) pair e n = absurd (ground arith)
  After-some log (p, some pair') pair e n =
      subst (λ x. Named C p (x ∷ log)) (ap (λ o. elim o [ none ↦ pair | some x ↦ x ]) e) n

  After-none :
      (log : List (ℕ × C)) (reply : RedisPublisher C × Option (ℕ × C))
      → reply.1 ≡ none
      → After log reply
      → Named C reply.0 log
  After-none log (p, none) e n = n
  After-none log (p, some pair) e n = absurd (ground arith)

  Reachable-Named : (p : RedisPublisher C) (log : List (ℕ × C)) → Reachable C p log → Named C p log
  Reachable-Named _ _ new = record {
    below = λ g c m. absurd m;
    single = λ g c c' m m'. absurd m;
    held = λ g c e. ground arith;
  }
  Reachable-Named _ _ (connected p log dial pair r e) =
      After-some log (connection dial p) pair e
        (connection-After p log dial (Reachable-Named p log r))
  Reachable-Named _ _ (refused p log dial r e) =
      After-none log (connection dial p) e (connection-After p log dial (Reachable-Named p log r))
  Reachable-Named _ _ (discarded p log g r) = Named-discard p log g (Reachable-Named p log r)

  -- Whatever the callers did in between, a caller that discards the connection that failed it leaves
  -- in place any other connection that has been dialled since.
  pub discard_spares_others :
      (p : RedisPublisher C) (log : List (ℕ × C)) (g k : ℕ) (failed current : C)
      → Reachable C p log
      → Handed g failed log
      → p.cached ≡ some (k, current)
      → failed ≢ current
      → discard g p ≡ p
  unfolding discard
  discard_spares_others p log g k failed current r h e other =
      let n = Reachable-Named p log r in
      elim (Bool-cases (k == g)) [
        | inl q ↦ absurd (
            other (
              n.single g failed current h
                (subst (λ x. Handed x current log) (ground arith) (n.held k current e))))
        | inr q ↦ ground arith
      ]
