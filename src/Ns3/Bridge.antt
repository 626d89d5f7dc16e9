-- ===== src/Ns3/Bridge.antt =====
-- nsb-testing.cc: what is fetched goes into the simulated network, and what a node receives is
-- posted.
use nsb_beta.Base.{
  ℕ, zero, suc, ◌+◌, ◌-◌, ◌%◌, ◌^◌, not, Option, none, some, [], ◌∷◌, ◌++◌, ltb, ◌==◌,
  if◌then◌else◌, Bytes, codes, ℤ, pos, negsuc,
}
use nsb_beta.Config.{MessageEntry, exists}
use nsb_beta.Outcome.{Outcome, ok, fault, exits, ◌>>=◌}
use nsb_beta.Hosts.{after_four, stoi, host_name}
use nsb_beta.Ns3.Topology.{Addresses, Sending}

-- `static_cast<uint32_t>(n)` of an `int`
abbrev pub to_uint32 : ℤ → ℕ
to_uint32 (pos n) = n % 2 ^ 32
to_uint32 (negsuc n) = 2 ^ 32 - 1 - n

-- `NodeList::GetNode` of `n` nodes, which asserts that there is one of this number.
abbrev get_node : ℕ → ℕ → Outcome ℕ
get_node n i = if ltb i n then ok i else fault exits

-- `s.substr(s.find_last_of('.') + 1)`: `best` is what stands behind the last dot so far, and the
-- whole text if there is none.
abbrev pub after_last_dot : Bytes → Bytes → Bytes
after_last_dot best [] = best
after_last_dot best (c ∷ s) = let best' = if c == b'.' then s else best in after_last_dot best' s

abbrev pub minus_1 : ℤ → ℤ
minus_1 (pos zero) = negsuc 0
minus_1 (pos (suc n)) = pos n
minus_1 (negsuc n) = negsuc (suc n)

module _ (net : Addresses) where
  -- `PollToFetch` at `time`, where `n` nodes are in the list and `e` is what `fetch` returned: when
  -- it runs again, and what it sends.
  unfoldable pub poll_to_fetch : ℕ → ℕ → MessageEntry → Outcome (ℕ × Option (Sending net.Addr))
  unfolding exists
  poll_to_fetch n time e = if not (exists e) then ok (time + 1, none) else (do
    number ← after_four e.destination
    let address : net.Addr = net.parse (codes "10.1.1." ++ number)
    text ← after_four e.source
    i ← stoi text
    sender ← get_node n (to_uint32 i)
    ok (
      time + 1,
      some (record {
        time = time;
        sender = sender;
        address = address;
        port = 5000;
        message = e.payload_obj;
      }),
    ))

  -- `ReceivePacket` on a node: `from` is the address of the sender.
  unfoldable pub receive_packet :
      {W : Type 0} → (Bytes → Bytes → Bytes → W → Outcome W) → ℕ → net.Addr → Bytes → W → Outcome W
  unfolding host_name
  receive_packet post node from payload w = do
    let text = net.print from
    i ← stoi (after_last_dot text text)
    post (host_name (minus_1 i)) (host_name (pos node)) payload w
