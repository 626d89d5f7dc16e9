-- ===== src/Client/Redis.antt =====
-- cpp/include/nsb.h and cpp/src/nsb.cc: `DBConnector` and `RedisConnector`.
-- hiredis and the Redis server are a parameter: a connection is a state, and a command takes its
-- arguments as they stand after `%s` has read them as C strings.
use nsb_beta.Base.{
  ℕ, ◌+◌, ◌%◌, ◌^◌, ◌≡◌, Bool, true, Option, none, some, List, [], ◌∷◌, ◌++◌, if◌then◌else◌, Bytes,
  codes, str_eq, c_str, pos, to_int32, to_string,
}
use nsb_beta.Outcome.{Outcome, ok, fault, null_pointer, ◌>>=◌}

-- `reply->type` is nil, or the reply has the bytes of `reply->str`.
pub data Reply : Type 0 where
  nil : Reply
  str : Bytes → Reply

-- `connected` is `context->err == REDIS_OK`; a command that fails has no reply and sets `err`.
pub record Redis : Type 1 where
  pub State : Type 0
  pub connected : State → Bool
  pub command : State → List Bytes → State × Option Reply

-- What the code relies on: the documented effect of SET, GET and GETDEL on the stored values, while
-- the connection is good.
pub record IsLawful (r : Redis) : Type 0 where
  pub stored : r.State → Bytes → Option Bytes
  pub set_reply :
      (s : r.State) (k v : Bytes)
      → r.connected s ≡ true
      → (r.command s (codes "SET" ∷ k ∷ v ∷ [])).1 ≡ some (str (codes "OK"))
  pub set_connected :
      (s : r.State) (k v : Bytes)
      → r.connected s ≡ true
      → r.connected (r.command s (codes "SET" ∷ k ∷ v ∷ [])).0 ≡ true
  pub set_stored :
      (s : r.State) (k v j : Bytes)
      → r.connected s ≡ true
      → stored (r.command s (codes "SET" ∷ k ∷ v ∷ [])).0 j
        ≡ (if str_eq k j then some v else stored s j)
  pub getdel_reply :
      (s : r.State) (k : Bytes)
      → r.connected s ≡ true
      → (r.command s (codes "GETDEL" ∷ k ∷ [])).1
        ≡ some (elim (stored s k) [ none ↦ nil | some v ↦ str v ])
  pub getdel_connected :
      (s : r.State) (k : Bytes)
      → r.connected s ≡ true
      → r.connected (r.command s (codes "GETDEL" ∷ k ∷ [])).0 ≡ true
  pub getdel_stored :
      (s : r.State) (k j : Bytes)
      → r.connected s ≡ true
      → stored (r.command s (codes "GETDEL" ∷ k ∷ [])).0 j
        ≡ (if str_eq k j then none else stored s j)
  pub get_reply :
      (s : r.State) (k : Bytes)
      → r.connected s ≡ true
      → (r.command s (codes "GET" ∷ k ∷ [])).1
        ≡ some (elim (stored s k) [ none ↦ nil | some v ↦ str v ])
  pub get_stored :
      (s : r.State) (k j : Bytes)
      → r.connected s ≡ true
      → stored (r.command s (codes "GET" ∷ k ∷ [])).0 j ≡ stored s j

-- `clientId` and `plctr`.
pub record Connector : Type 0 where
  pub client_id : Bytes
  pub plctr : ℕ

-- `DBConnector(clientIdentifier)`
abbrev pub new_connector : Bytes → Connector
new_connector id = record { client_id = id; plctr = 0 }

-- `now` is the count of the system clock. The mask `0xFFFFF` keeps the low 20 bits.
unfoldable pub payload_id : ℕ → Bytes → ℕ → Bytes
payload_id now client_id plctr =
    to_string (to_int32 now) ++ b'-' ∷ (client_id ++ b'-' ∷ to_string (pos plctr))

unfoldable pub generate_payload_id : ℕ → Connector → Bytes × Connector
unfolding payload_id
generate_payload_id now c =
    let plctr = (c.plctr + 1) % 2 ^ 20 in
    (payload_id now c.client_id plctr, record c { plctr = plctr })

module _ (r : Redis) where
  -- `store`: the key, or no bytes on a failure.
  unfoldable pub store : ℕ → Bytes → Connector → r.State → Bytes × Connector × r.State
  unfolding generate_payload_id c_str
  store now value c s =
      if r.connected s
      then (let (key, c') = generate_payload_id now c in
          let (s', reply) = r.command s (codes "SET" ∷ c_str key ∷ c_str value ∷ []) in
          (if r.connected s' then key else [], c', s'))
      else ([], c, s)

  reply_value : Option Reply → Outcome Bytes
  reply_value none = fault null_pointer
  reply_value (some nil) = ok []
  reply_value (some (str v)) = ok v

  unfoldable pub check_out : Bytes → r.State → Outcome (Bytes × r.State)
  unfolding reply_value c_str
  check_out key s =
      if r.connected s
      then (let (s', reply) = r.command s (codes "GETDEL" ∷ c_str key ∷ []) in
          (if r.connected s' then reply_value reply else ok []) >>= λ v. ok (v, s'))
      else ok ([], s)

  -- Unlike the others, `peek` reads the reply without a look at `context->err`.
  unfoldable pub peek : Bytes → r.State → Outcome (Bytes × r.State)
  unfolding reply_value c_str
  peek key s =
      if r.connected s
      then (let (s', reply) = r.command s (codes "GET" ∷ c_str key ∷ []) in
          reply_value reply >>= λ v. ok (v, s'))
      else ok ([], s)
