-- ===== src/Ns3/Network.antt =====
-- nsb-testing.cc with a network that takes every datagram to the node whose interface has its
-- address.
use nsb_beta.Base.{ℕ, Option, none, some, List, [], ◌∷◌, ◌==◌, if◌then◌else◌, Bytes, str_eq}
use nsb_beta.Config.{MessageEntry}
use nsb_beta.Outcome.{Outcome, ok, ◌>>=◌}
use nsb_beta.Ns3.Topology.{Addresses, Sending, node_mappings, interfaces_from}
use nsb_beta.Ns3.Bridge.{poll_to_fetch, receive_packet}

module _ (net : Addresses) where
  -- The first interface with this address, and the address of a node.
  unfoldable pub owner : net.Addr → List (ℕ × net.Addr) → Option ℕ
  owner x [] = none
  owner x ((i, y) ∷ rest) =
      let other = owner x rest in if str_eq (net.print y) (net.print x) then some i else other

  unfoldable pub address_of : ℕ → List (ℕ × net.Addr) → Option net.Addr
  address_of k [] = none
  address_of k ((i, y) ∷ rest) = let other = address_of k rest in if i == k then some y else other

  -- A datagram for an address that nobody has is lost.
  unfoldable pub arrive :
      {W : Type 0}
      → (Bytes → Bytes → Bytes → W → Outcome W)
      → List (ℕ × net.Addr)
      → Sending net.Addr
      → W
      → Outcome W
  unfolding owner address_of
  arrive post interfaces d w = elim (owner d.address interfaces) [
    | none ↦ ok w
    | some node ↦ elim (address_of d.sender interfaces) [
      | none ↦ ok w
      | some from ↦ receive_packet net post node from d.message w
    ]
  ]

  unfoldable pub carry_out :
      {W : Type 0}
      → (Bytes → Bytes → Bytes → W → Outcome W)
      → List (ℕ × net.Addr)
      → Option (Sending net.Addr)
      → W
      → Outcome W
  unfolding arrive
  carry_out post interfaces none w = ok w
  carry_out post interfaces (some d) w = arrive post interfaces d w

  -- The interfaces of `n` nodes.
  abbrev pub network : ℕ → List (ℕ × net.Addr)
  network n = interfaces_from net 0 (node_mappings net 0 n)

  -- What becomes of the fetched message `e`, and when `PollToFetch` runs again.
  unfoldable pub bridge :
      {W : Type 0}
      → (Bytes → Bytes → Bytes → W → Outcome W)
      → ℕ
      → ℕ
      → MessageEntry
      → W
      → Outcome (ℕ × W)
  unfolding carry_out
  bridge post n time e w = do
    (next, out) ← poll_to_fetch net n time e
    w' ← carry_out post (network n) out w
    ok (next, w')
