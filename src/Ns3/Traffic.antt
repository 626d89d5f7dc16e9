-- ===== src/Ns3/Traffic.antt =====
-- nsb-testing.cc, `GenerateTraffic`: the generated messages stay between neighbours.
use nsb_beta.Base.{
  ℕ, zero, suc, ◌+◌, ◌%◌, ◌≤◌, ◌<◌, ◌≡◌, refl, inl, inr, Option, some, List, [], ◌∷◌, map, arith,
  ◌==◌, Bool-cases,
}
use nsb_beta.Ns3.Network.{owner, network}
use nsb_beta.Ns3.Delivery.{owner_found}
use nsb_beta.Ns3.Topology.{Addresses, IsFaithful, Sending, ip_of, node_mappings, generate_traffic}
use nsb_beta.Ns3.Radio.{InRange, next-InRange, in_range}

previous-InRange : (i : ℕ) → InRange (suc i) i
previous-InRange i = elim (Bool-cases (i % 10 == 9)) [
  | inl last ↦ in_range (suc i) i 450 50 (ground arith) (ground arith) (omega arith)
  | inr inner ↦ in_range (suc i) i 50 0 (ground arith) (ground arith) (omega arith)
]

-- The nodes talk in pairs: who sends, and who receives.
abbrev pairs : ℕ → ℕ → List (ℕ × Option ℕ)
pairs i (suc (suc count)) = (i, some (suc i)) ∷ (suc i, some i) ∷ pairs (suc (suc i)) count
pairs i _ = []

module _ (net : Addresses) where
  -- Who sends each datagram, and whose interface has its address, if any has.
  abbrev pub hops : ℕ → List (Sending net.Addr) → List (ℕ × Option ℕ)
  hops n ds = map (λ (d : Sending net.Addr). (d.sender, owner net d.address (network net n))) ds

  -- Each datagram is for a node that is in the sender's range.
  abbrev pub AllReach : ℕ → List (Sending net.Addr) → Type 0
  AllReach n [] = Unit
  AllReach n (d ∷ ds) =
      ((j : ℕ) × (owner net d.address (network net n) ≡ some j) × InRange d.sender j)
      × AllReach n ds

  module _ (faithful : IsFaithful net) (n : ℕ) (small : n < 255) where
    owned : (k : ℕ) → k < n → owner net (net.parse (ip_of (k + 1))) (network net n) ≡ some k
    owned k h = owner_found net faithful 0 n k (omega arith) (omega arith) (omega arith)

    traffic_from :
        (i count : ℕ)
        → i + count ≤ n
        → AllReach n (generate_traffic net i (node_mappings net i count))
    unfolding generate_traffic node_mappings
    traffic_from i zero h = tt
    traffic_from i (suc zero) h = tt
    traffic_from i (suc (suc count)) h = (
      (suc i, owned (suc i) (omega (arith, h)), next-InRange i),
      (
        (i, owned i (omega (arith, h)), previous-InRange i),
        traffic_from (suc (suc i)) count (omega (arith, h)),
      ),
    )

    hops_from :
        (i count : ℕ)
        → i + count ≤ n
        → hops n (generate_traffic net i (node_mappings net i count)) ≡ pairs i count
    unfolding generate_traffic node_mappings
    hops_from i zero h = refl
    hops_from i (suc zero) h = refl
    hops_from i (suc (suc count)) h = λ j.
        (i, owned (suc i) (omega (arith, h)) j)
        ∷ (suc i, owned i (omega (arith, h)) j)
        ∷ hops_from (suc (suc i)) count (omega (arith, h)) j

    -- With at most 254 nodes, addresses that are written as they were given (`IsFaithful`), and a
    -- network that takes every datagram to the node that has its address, the generated messages go
    -- between the nodes of each pair, 0 and 1, 2 and 3 and so on: each of the two sends one and the
    -- other receives it, and is in the range of the sender. The last of an odd number of nodes
    -- neither sends nor receives.
    pub generate_traffic-AllReach :
        let traffic = generate_traffic net 0 (node_mappings net 0 n) in
        AllReach n traffic × (hops n traffic ≡ pairs 0 n)
    generate_traffic-AllReach = (traffic_from 0 n (omega arith), hops_from 0 n (omega arith))
