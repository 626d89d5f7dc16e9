-- ===== src/Client/Context.antt =====
-- cpp/include/nsb.h and cpp/src/nsb.cc: the life of a `RedisConnector`: its constructor, `connect`,
-- `isConnected`, `disconnect` and its destructor; and `testRedisConnector` of cpp/nsb_test.cc.
use nsb_beta.Base.{
  ℕ, ◌≤◌, ◌≡◌, Bool, true, false, Option, none, some, List, [], ◌∷◌, ◌++◌, arith, if◌then◌else◌,
  length, Bytes, c_str, ℤ,
}
use nsb_beta.Outcome.{Outcome, ok, fault, null_pointer, ◌>>=◌}
use nsb_beta.Client.Redis.{Redis, Connector, new_connector, store, check_out}

-- `address` and `port` of a connector, its identifier and counter, and `context`.
pub record RedisConnector (r : Redis) : Type 0 where
  pub base : Connector
  pub address : Bytes
  pub port : ℤ
  pub context : Option r.State

-- What happens to a context.
pub data ContextAction : Type 0 where
  makes frees : ContextAction

-- `redis_connect` is `redisConnect`: a null pointer, or a context with or without an error.
module _ (r : Redis) (redis_connect : Bytes → ℤ → Option r.State) where
  -- `isConnected`
  unfoldable pub is_connected : Option r.State → Bool
  is_connected none = false
  is_connected (some s) = r.connected s

  -- `connect`: it reads the error of the context without a look whether there is one.
  unfoldable pub connect : Bytes → ℤ → Outcome (Bool × Option r.State)
  unfolding c_str
  connect address port = elim (redis_connect (c_str address) port) [
    | none ↦ fault null_pointer
    | some s ↦ ok (r.connected s, some s)
  ]

  -- The constructor, and what it leaves in the caller's variable: the address is moved out of it.
  unfoldable pub new_redis_connector : Bytes → Bytes → ℤ → Outcome (RedisConnector r × Bytes)
  unfolding connect
  new_redis_connector id address port = do
    (_, context) ← connect address port
    ok (record { base = new_connector id; address = address; port = port; context = context }, [])

  -- The destructor: `disconnect` only if the connection is good.
  unfoldable pub destroy : RedisConnector r → List ContextAction
  unfolding is_connected
  destroy c = if is_connected c.context then frees ∷ [] else []

  unfoldable pub store_with : ℕ → Bytes → RedisConnector r → Bytes × RedisConnector r
  unfolding store
  store_with now value c = elim c.context [
    | none ↦ ([], c)
    | some s ↦
        let (key, base, s') = store r now value c.base s in
        (key, record c { base = base; context = some s' })
  ]

  unfoldable pub check_out_with : Bytes → RedisConnector r → Outcome (Bytes × RedisConnector r)
  unfolding check_out
  check_out_with key c = elim c.context [
    | none ↦ ok ([], c)
    | some s ↦ (check_out r key s >>= λ (v, s'). ok (v, record c { context = some s' }))
  ]

  -- `testRedisConnector`: the payload that is received, and what happened to the contexts.
  unfoldable pub test_redis_connector :
      Bytes → Bytes → Bytes → ℤ → ℕ → Bytes → Outcome (Bytes × List ContextAction)
  unfolding new_redis_connector store_with check_out_with destroy
  test_redis_connector this_app that_app address port now payload = do
    (this_conn, address') ← new_redis_connector this_app address port
    (that_conn, _) ← new_redis_connector that_app address' port
    let (key, this_conn') = store_with now payload this_conn
    (received, that_conn') ← check_out_with key that_conn
    ok (received, makes ∷ makes ∷ (destroy that_conn' ++ destroy this_conn'))

  abbrev connector : Bytes → Bytes → ℤ → r.State → RedisConnector r
  connector id address port s = record {
    base = new_connector id;
    address = address;
    port = port;
    context = some s;
  }

  new_redis_connector_lem :
      (id a : Bytes) (port : ℤ) (s : r.State)
      → redis_connect (c_str a) port ≡ some s
      → new_redis_connector id a port ≡ ok (connector id a port s, [])
  unfolding new_redis_connector
  new_redis_connector_lem id a port s e = rw (e, connect)

  check_out_with_offline :
      (key id a : Bytes) (port : ℤ) (s : r.State)
      → r.connected s ≡ false
      → check_out_with key (connector id a port s) ≡ ok ([], connector id a port s)
  unfolding check_out_with check_out
  check_out_with_offline key id a port s e = rw e

  destroy_offline :
      (id a : Bytes) (port : ℤ) (s : r.State)
      → r.connected s ≡ false
      → destroy (connector id a port s) ≡ []
  unfolding destroy is_connected
  destroy_offline id a port s e = rw e

  -- Of two connectors that are made with the same variable the second has no address. If a server
  -- answers at the address and hiredis makes a context without a connection where there is no
  -- address, as it does, then what the first stores the second does not check out, and at most one
  -- of the two contexts is freed.
  pub second_connector_offline :
      (this_app that_app address : Bytes) (port : ℤ) (first offline : r.State) (now : ℕ)
      (payload : Bytes)
      → redis_connect (c_str address) port ≡ some first
      → redis_connect [] port ≡ some offline
      → r.connected offline ≡ false
      → (frees : List ContextAction) × (test_redis_connector this_app that_app address port now
            payload
          ≡ ok ([], makes ∷ makes ∷ frees))
        × (length frees ≤ 1)
  unfolding test_redis_connector destroy
  second_connector_offline this_app that_app address port first offline now payload h k off = (
    destroy (store_with now payload (connector this_app address port first)).1,
    rw (new_redis_connector_lem this_app address port first h) (
        rw (new_redis_connector_lem that_app [] port offline k) (
          rw (
            check_out_with_offline
                (store_with now payload (connector this_app address port first)).0 that_app [] port
                offline off,
            destroy_offline that_app [] port offline off,
          ))),
    at_most_one
        (is_connected (store_with now payload (connector this_app address port first)).1.context),
  )
    where
      at_most_one : (b : Bool) → length {A = ContextAction} (if b then frees ∷ [] else []) ≤ 1
      at_most_one true = omega arith
      at_most_one false = omega arith
