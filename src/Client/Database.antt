-- ===== src/Client/Database.antt =====
-- `RedisConnector` of cpp/src/nsb.cc over a server that works as documented.
use nsb_beta.Base.{
  ℕ, ◌≡◌, refl, ap, ◌∙◌, true, false, none, some, [], ◌∷◌, ◌++◌, arith, if◌then◌else◌, is_empty,
  Bytes, codes, str_eq, str_eq_refl, c_str, Lacks, c_str-Lacks, to_int32, to_string,
}
use nsb_beta.Outcome.{ok}
use nsb_beta.Client.Redis.{Redis, IsLawful, Connector, generate_payload_id, store, check_out}

module _ (r : Redis) (l : IsLawful r) where
  store_connected :
      (now : ℕ) (p : Bytes) (c : Connector) (s : r.State)
      → r.connected s ≡ true
      → let (key, c') = generate_payload_id now c in
        store r now p c s ≡ (key, c', (r.command s (codes "SET" ∷ c_str key ∷ c_str p ∷ [])).0)
  unfolding store
  store_connected now p c s h = rw h (rw (l.set_connected s _ _ h))

  check_out_stored :
      (key v : Bytes) (s : r.State)
      → r.connected s ≡ true
      → l.stored s (c_str key) ≡ some v
      → check_out r key s ≡ ok (v, (r.command s (codes "GETDEL" ∷ c_str key ∷ [])).0)
  unfolding check_out
  check_out_stored key v s h e =
      rw h (rw (l.getdel_connected s _ h) (rw (l.getdel_reply s _ h) (rw e)))

  -- Over a good connection a payload that is stored is checked out under the returned key, as far
  -- as its first NUL byte; the connection is then still good, the key holds nothing, and no other
  -- key has changed its value.
  pub check_out-store :
      (now : ℕ) (p : Bytes) (c : Connector) (s : r.State)
      → r.connected s ≡ true
      → let stored = store r now p c s in
        (s' : r.State) × (check_out r stored.0 stored.2 ≡ ok (c_str p, s'))
        × (r.connected s' ≡ true)
        × ((j : Bytes) → l.stored s' j ≡ (if str_eq (c_str stored.0) j then none else l.stored s j))
  check_out-store now p c s h =
      let key : Bytes = (generate_payload_id now c).0 in
      let s1 : r.State = (r.command s (codes "SET" ∷ c_str key ∷ c_str p ∷ [])).0 in
      let h1 : r.connected s1 ≡ true = l.set_connected s _ _ h in
      let e : l.stored s1 (c_str key) ≡ some (c_str p) =
        rw (l.set_stored s (c_str key) (c_str p) (c_str key) h, str_eq_refl (c_str key)) in
      rw (store_connected now p c s h) (
        (r.command s1 (codes "GETDEL" ∷ c_str key ∷ [])).0,
        check_out_stored key (c_str p) s1 h1 e,
        l.getdel_connected s1 _ h1,
        λ j.
            ground (
              arith,
              l.getdel_stored s1 (c_str key) j h1,
              l.set_stored s (c_str key) (c_str p) j h,
            ),
      )

  -- A key is never empty, so that an entry that carries it exists.
  pub store_key :
      (now : ℕ) (p : Bytes) (c : Connector) (s : r.State)
      → r.connected s ≡ true
      → is_empty (store r now p c s).0 ≡ false
  unfolding generate_payload_id
  store_key now p c s h = rw (store_connected now p c s h) (some_dash (to_string (to_int32 now)) _)
    where
      some_dash : (xs ys : Bytes) → is_empty (xs ++ b'-' ∷ ys) ≡ false
      some_dash [] ys = refl
      some_dash (x ∷ xs) ys = refl

  -- What is left of the database after a payload was stored and checked out.
  pub record Returned (key p : Bytes) (before stored : r.State) : Type 0 where
    pub after : r.State
    pub checked_out : check_out r key stored ≡ ok (p, after)
    pub still_connected : r.connected after ≡ true
    pub others_kept :
        (j : Bytes) → l.stored after j ≡ (if str_eq (c_str key) j then none else l.stored before j)

  pub store-Returned :
      (now : ℕ) (p : Bytes) (c : Connector) (s : r.State)
      → r.connected s ≡ true
      → Lacks 0 p
      → Returned (store r now p c s).0 p s (store r now p c s).2
  store-Returned now p c s h clean =
      let (after, e, k, others) = check_out-store now p c s h in
      record {
        after = after;
        checked_out = e ∙ ap (λ v. ok (v, after)) (c_str-Lacks p clean);
        still_connected = k;
        others_kept = others;
      }
