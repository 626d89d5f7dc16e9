-- ===== src/Ns3/Delivery.antt =====
-- nsb-testing.cc: for whom a message that goes through the simulated network is posted.
use nsb_beta.Base.{
  ℕ, zero, suc, ◌+◌, ◌≤◌, ◌<◌, ◌≡◌, refl, sym, ap, subst, ◌∙◌, inl, inr, true, some, [], ◌∷◌, arith,
  ◌==◌, ==_iff, Bool-cases, drop, Bytes, str_eq, str_eq_refl, str_eq_iff, Lacks, pos, decimal,
  to_string, decimal-injective, Lacks-decimal,
}
use nsb_beta.Config.{MessageEntry, exists}
use nsb_beta.Outcome.{Outcome, ok, ◌>>=◌}
use nsb_beta.Hosts.{stoi, host_name, stoi-decimal, after_host}
use nsb_beta.Ns3.Topology.{Addresses, IsFaithful, ip_of, node_mappings, interfaces_from}
use nsb_beta.Ns3.Bridge.{poll_to_fetch, receive_packet, after_last_dot, minus_1}
use nsb_beta.Ns3.Network.{owner, address_of, arrive, network, bridge}

ip_of-injective : (m n : ℕ) → ip_of m ≡ ip_of n → m ≡ n
ip_of-injective m n e = decimal-injective m n (ap (drop 7) e)

one_less : (n m : ℕ) → n ≡ suc m → minus_1 (pos n) ≡ pos m
one_less n m e = rw e

last_unchanged : (best s : Bytes) → Lacks b'.' s → after_last_dot best s ≡ best
last_unchanged best [] h = refl
last_unchanged best (c ∷ s) h = ground (arith, last_unchanged best s h.1)

module _ (net : Addresses) where
  module _ (faithful : IsFaithful net) where
    same_number :
        (m n : ℕ)
        → m < 256
        → n < 256
        → str_eq (net.print (net.parse (ip_of m))) (net.print (net.parse (ip_of n))) ≡ (m == n)
    same_number m n h k = elim (Bool-cases (m == n)) [
      | inl same ↦
          subst
            (λ j. str_eq (net.print (net.parse (ip_of j))) (net.print (net.parse (ip_of n))) ≡ true)
            (sym ((==_iff m n).0 same)) (str_eq_refl (net.print (net.parse (ip_of n))))
          ∙ sym same
      | inr differ ↦
          elim (Bool-cases
            (str_eq (net.print (net.parse (ip_of m))) (net.print (net.parse (ip_of n))))) [
              | inr apart ↦ apart ∙ sym differ
              | inl together ↦ absurd (
                  let e : m ≡ n = ip_of-injective m n (
                    sym (faithful m h)
                    ∙ (str_eq_iff (net.print (net.parse (ip_of m)))
                          (net.print (net.parse (ip_of n)))).0
                        together
                    ∙ faithful n k) in
                  ground arith)
            ]
    ]

    pub owner_found :
        (i count k : ℕ)
        → i ≤ k
        → k < i + count
        → i + count < 256
        → owner net (net.parse (ip_of (k + 1))) (interfaces_from net i (node_mappings net i count))
          ≡ some k
    unfolding owner interfaces_from node_mappings
    owner_found i zero k h h' small = absurd (omega arith)
    owner_found i (suc count) k h h' small = ground (
      arith,
      same_number (i + 1) (k + 1) (omega arith) (omega arith),
      owner_found (suc i) count k,
    )

    address_found :
        (i count k : ℕ)
        → i ≤ k
        → k < i + count
        → address_of net k (interfaces_from net i (node_mappings net i count))
          ≡ some (net.parse (ip_of (k + 1)))
    unfolding address_of interfaces_from node_mappings
    address_found i zero k h h' = absurd (omega arith)
    address_found i (suc count) k h h' = ground (arith, address_found (suc i) count k)

    number_behind : (n : ℕ) → n < 256 → stoi (after_last_dot (ip_of n) (ip_of n)) ≡ ok (pos n)
    number_behind n h =
        ap stoi (last_unchanged (decimal n) (decimal n) (Lacks-decimal 46 n (λ d h e. omega arith)))
        ∙ stoi-decimal n (omega arith)

    received :
        {W : Type 0} (post : Bytes → Bytes → Bytes → W → Outcome W) (i k : ℕ) (p : Bytes) (w : W)
        → i < 255
        → receive_packet net post k (net.parse (ip_of (i + 1))) p w
          ≡ post (host_name (pos i)) (host_name (pos k)) p w
    unfolding receive_packet
    received post i k p w h =
        ap
          (λ text. stoi (after_last_dot text text) >>= λ i'.
            post (host_name (minus_1 i')) (host_name (pos k)) p w)
          (faithful (i + 1) (omega arith))
        ∙ ap (λ m. m >>= λ i'. post (host_name (minus_1 i')) (host_name (pos k)) p w)
            (number_behind (i + 1) (omega arith))
        ∙ ap (λ j. post (host_name j) (host_name (pos k)) p w) (one_less (i + 1) i (omega arith))

    reaches :
        {W : Type 0} (post : Bytes → Bytes → Bytes → W → Outcome W) (n i k time : ℕ) (p : Bytes)
        (w : W)
        → n < 255
        → i < n
        → k < n
        → arrive net post
            (network net n)
            (record {
              time = time;
              sender = i;
              address = net.parse (ip_of (k + 1));
              port = 5000;
              message = p;
            })
            w
          ≡ post (host_name (pos i)) (host_name (pos k)) p w
    unfolding arrive
    reaches post n i k time p w small hi hk =
        rw (owner_found 0 n k (omega arith) (omega arith) (omega arith), arrive)
          (rw (address_found 0 n i (omega arith) (omega arith))
            (received post i k p w (omega arith)))

    polled :
        (n i k time : ℕ) (e : MessageEntry)
        → n < 255
        → i < n
        → k < n
        → exists e ≡ true
        → e.source ≡ host_name (pos i)
        → e.destination ≡ host_name (pos (k + 1))
        → poll_to_fetch net n time e
          ≡ ok (
            time + 1,
            some (record {
              time = time;
              sender = i;
              address = net.parse (ip_of (k + 1));
              port = 5000;
              message = e.payload_obj;
            }),
          )
    unfolding poll_to_fetch host_name to_string
    polled n i k time e small hi hk there from to =
        rw
          (
            there,
            from,
            to,
            after_host (decimal i),
            after_host (decimal (k + 1)),
            stoi-decimal i (omega arith),
          )
          (ground arith)

    -- With at most 254 nodes, addresses that are written as they were given (`IsFaithful`), and a
    -- network that takes every datagram to the node that has its address, a message that exists,
    -- from host `i` to host `k + 1`, where `i` and `k` are numbers of nodes, is posted with its
    -- source and its payload, but for host `k`; and the next fetch is a second later. The addresses
    -- count from 1, and the nodes from 0.
    pub bridge_posts_for_predecessor :
        {W : Type 0} (post : Bytes → Bytes → Bytes → W → Outcome W) (n i k time : ℕ)
        (e : MessageEntry) (w : W)
        → n < 255
        → i < n
        → k < n
        → exists e ≡ true
        → e.source ≡ host_name (pos i)
        → e.destination ≡ host_name (pos (k + 1))
        → bridge net post n time e w ≡ (
            post (host_name (pos i)) (host_name (pos k)) e.payload_obj w >>= λ w'.
            ok (time + 1, w'))
    unfolding bridge
    bridge_posts_for_predecessor post n i k time e w small hi hk there from to = rw (
      polled n i k time e small hi hk there from to,
      reaches post n i k time e.payload_obj w small hi hk,
      bridge,
    )
