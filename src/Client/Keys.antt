-- ===== src/Client/Keys.antt =====
-- The keys of `DBConnector::generatePayloadId`, cpp/include/nsb.h: when two of them are equal.
use nsb_beta.Base.{
  ℕ, suc, ◌+◌, ◌%◌, ◌^◌, ◌≤◌, ◌<◌, ◌≡◌, refl, sym, ap, ◌≢◌, List, [], ◌∷◌, ◌++◌, arith, length,
  Bytes, Lacks, split_first, split_last, ℤ, pos, negsuc, to_int32, decimal, to_string,
  decimal-injective, Lacks-decimal, decimal-ne-nil,
}
use nsb_beta.Client.Redis.{Connector, payload_id, generate_payload_id}

digits_lack_dash : (n : ℕ) → Lacks b'-' (decimal n)
digits_lack_dash n = Lacks-decimal b'-' n (λ d h. omega arith)

-- A number that is not negative does not begin with a dash.
no_sign : (ds u w : Bytes) → ds ≢ [] → Lacks b'-' ds → ds ++ b'-' ∷ u ≢ b'-' ∷ w
no_sign [] u w some_digit h e = some_digit refl
no_sign (d ∷ ds) u w some_digit h e = h.0 (cc)

-- The time is what stands before the first dash that is no sign.
time_of_key :
    (i j : ℤ) (u v : Bytes)
    → to_string i ++ b'-' ∷ u ≡ to_string j ++ b'-' ∷ v
    → (to_string i ≡ to_string j) × (u ≡ v)
unfolding to_string
time_of_key (pos m) (pos n) u v e =
    split_first b'-' (decimal m) (decimal n) u v (digits_lack_dash m) (digits_lack_dash n) e
time_of_key (negsuc m) (negsuc n) u v e =
    let (p, q) =
      split_first b'-' (decimal (suc m)) (decimal (suc n)) u v (digits_lack_dash (suc m))
        (digits_lack_dash (suc n)) (cc) in
    (ap (λ ds. b'-' ∷ ds) p, q)
time_of_key (pos m) (negsuc n) u v e =
    absurd (no_sign (decimal m) u _ (decimal-ne-nil m) (digits_lack_dash m) e)
time_of_key (negsuc m) (pos n) u v e =
    absurd (no_sign (decimal n) v _ (decimal-ne-nil n) (digits_lack_dash n) (sym e))

-- Two keys are equal only if the client, the counter and the text of the clock's reading as an
-- `int` are.
pub payload_id-injective :
    (now now' : ℕ) (id id' : Bytes) (n n' : ℕ)
    → payload_id now id n ≡ payload_id now' id' n'
    → (to_string (to_int32 now) ≡ to_string (to_int32 now')) × (id ≡ id') × (n ≡ n')
unfolding payload_id to_string
payload_id-injective now now' id id' n n' e =
    let (time, rest) = time_of_key (to_int32 now) (to_int32 now') _ _ e in
    let (client, counter) =
      split_last b'-' id id' (decimal n) (decimal n') (digits_lack_dash n) (digits_lack_dash n')
        rest in
    (time, client, decimal-injective n n' counter)

-- The keys of one connector in a row, at the clock's readings.
pub keys : List ℕ → Connector → List Bytes
keys [] c = []
keys (now ∷ later) c = let (key, c') = generate_payload_id now c in key ∷ keys later c'

-- `key` is not among the keys.
abbrev pub Fresh : Bytes → List Bytes → Type 0
Fresh key [] = Unit {0}
Fresh key (k ∷ ks) = (key ≢ k) × Fresh key ks

-- No key comes twice.
abbrev pub AllFresh : List Bytes → Type 0
AllFresh [] = Unit {0}
AllFresh (k ∷ ks) = Fresh k ks × AllFresh ks

-- A counter does not come back to `n` before 2^20 steps.
Fresh-keys :
    (now n gap : ℕ) (later : List ℕ) (c : Connector)
    → n < 2 ^ 20
    → c.plctr ≡ (n + gap) % 2 ^ 20
    → gap + length later < 2 ^ 20
    → Fresh (payload_id now c.client_id n) (keys later c)
unfolding keys generate_payload_id
Fresh-keys now n gap [] c h e k = tt
Fresh-keys now n gap (t ∷ later) c h e k = (
  λ same.
      let (_, _, counter) = payload_id-injective now t c.client_id c.client_id n _ same in
      omega arith,
  Fresh-keys now n (gap + 1) later (record c { plctr = (c.plctr + 1) % 2 ^ 20 }) h (omega arith)
      (omega arith),
)

-- Among up to 2^20 keys in a row that one connector generates no two are equal, whatever the clock
-- reads at each of them.
pub keys-AllFresh : (nows : List ℕ) (c : Connector) → length nows ≤ 2 ^ 20 → AllFresh (keys nows c)
unfolding keys generate_payload_id
keys-AllFresh [] c h = tt
keys-AllFresh (now ∷ later) c h =
    let c' : Connector = record c { plctr = (c.plctr + 1) % 2 ^ 20 } in
    (
      Fresh-keys now c'.plctr 0 later c' (omega arith) (omega arith) (omega arith),
      keys-AllFresh later c' (omega arith),
    )
