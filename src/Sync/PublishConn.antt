-- ===== src/Sync/PublishConn.antt =====
-- src/routes/sync/publish_conn.rs: one cached connection of Redis, which every publisher shares. The
-- mutex makes `connection` and `discard` one step each. A connection is redis's, and a parameter; so
-- is what a dial brings and what an operation on a connection answers. The counter, a `u64`, is a
-- number: it would take 2^64 dials to wrap.
pub mod Generations
use teddy_fyi_api_rust.Prelude.{
  ℕ, suc, String, Option, none, some, List, [], ◌∷◌, ◌==◌, if◌then◌else◌,
}
use teddy_fyi_api_rust.Errors.{Result, ok, err, redis}

pub record RedisPublisher (C : Type 0) : Type 0 where
  pub cached : Option (ℕ × C)
  pub generations : ℕ

module _ {C : Type 0} where
  -- What the dial brings, if the connection has to be dialled.
  unfoldable pub connection : Option C → RedisPublisher C → RedisPublisher C × Option (ℕ × C)
  connection dial p = elim p.cached [
    | some held ↦ (p, some held)
    | none ↦ elim dial [
      | none ↦ (p, none)
      | some conn ↦ (
        record { cached = some (p.generations, conn); generations = suc p.generations },
        some (p.generations, conn),
      )
    ]
  ]

  unfoldable pub discard : ℕ → RedisPublisher C → RedisPublisher C
  discard generation p = elim p.cached [
    | none ↦ p
    | some (current, conn) ↦ if current == generation then record p { cached = none } else p
  ]

  -- With nothing in between: the two dials, and what the operation answers at first and again.
  unfoldable pub with_redial :
      {T : Type 0}
      → Option C
      → Option C
      → (C → Option T)
      → (C → Option T)
      → RedisPublisher C
      → RedisPublisher C × Result T
  unfolding connection discard
  with_redial dial redial op again p =
      let (p1, first) = connection dial p in
      elim first [
        | none ↦ (p1, err redis)
        | some (generation, conn) ↦ elim (op conn) [
          | some value ↦ (p1, ok value)
          | none ↦
              let (p2, fresh) = connection redial (discard generation p1) in
              elim fresh [
                | none ↦ (p2, err redis)
                | some (_, conn2) ↦ elim (again conn2) [
                  | none ↦ (p2, err redis)
                  | some value ↦ (p2, ok value)
                ]
              ]
        ]
      ]
