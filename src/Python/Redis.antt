-- ===== src/Python/Redis.antt =====
-- python/nsb_client.py: `DBConnector` and `RedisConnector`. The server is the parameter of the C++
-- connector; redis-py sends the bytes as they are, and raises where a command has no reply.
use nsb_beta.Base.{
  ℕ, ◌+◌, ◌%◌, ◌^◌, Bool, true, false, Option, none, some, List, [], ◌∷◌, ◌++◌, Bytes, codes,
  decimal,
}
use nsb_beta.Client.Redis.{Redis, Reply, nil, str, Connector}
use nsb_beta.Python.Raises.{Result, returns, raises, connection_error, Method}

-- The key: `now` are the milliseconds of the clock. The masks keep 41 and 20 bits.
unfoldable pub generate_key : ℕ → Connector → Bytes × Connector
generate_key now c =
    let plctr = (c.plctr + 1) % 2 ^ 20 in
    (
      decimal (now % 2 ^ 41) ++ b'-' ∷ (c.client_id ++ b'-' ∷ decimal plctr),
      record c { plctr = plctr },
    )

-- What the reply of a command is for its caller: `None`, or bytes.
abbrev reply_of : Option Reply → Result (Option Bytes)
reply_of none = raises connection_error
reply_of (some nil) = returns none
reply_of (some (str v)) = returns (some v)

module _ (r : Redis) where
  command : List Bytes → Method r.State (Option Bytes)
  command args s = let (s', reply) = r.command s args in (reply_of reply, s')

  -- `is_connected`: a PING.
  unfoldable pub is_connected : r.State → Bool × r.State
  is_connected s =
      let (s', reply) = r.command s (codes "PING" ∷ []) in
      (elim reply [ none ↦ false | some v ↦ true ], s')

  -- `store`: the counter has gone on when the command raises.
  unfoldable pub store : ℕ → Bytes → Method (Connector × r.State) Bytes
  unfolding command generate_key
  store now value (c, s) =
      let (key, c') = generate_key now c in
      let (reply, s') = command (codes "SET" ∷ key ∷ value ∷ []) s in
      (elim reply [ returns _ ↦ returns key | raises e ↦ raises e ], (c', s'))

  unfoldable pub check_out : Bytes → Method r.State (Option Bytes)
  unfolding command
  check_out key = command (codes "GETDEL" ∷ key ∷ [])

  unfoldable pub peek : Bytes → Method r.State (Option Bytes)
  unfolding command
  peek key = command (codes "GET" ∷ key ∷ [])
