-- ===== src/Omnet/Network.antt =====
-- NSBHostNetwork.ned and NSBHostNetworkTenHosts.ned with NSBHost.cc: host i has the name "host<i>",
-- and its gate `out[k]` leads to host k.
use nsb_beta.Base.{
  ℕ, zero, suc, ◌^◌, ◌<◌, ◌≡◌, refl, sym, subst, ◌≢◌, inl, inr, Option, none, some, arith, ◌==◌,
  ==_iff, Bool-cases, Bytes, str_eq_refl, pos,
}
use nsb_beta.Outcome.{fault, Outcome, ok, ◌>>=◌}
use nsb_beta.Hosts.{host_name, host_index-host_name, other_host_name}
use nsb_beta.Omnet.Host.{NsbMessage, Host, Arrived, posted, forwarded, process_packet}

-- The host `i` of `n`.
abbrev pub host_of : ℕ → ℕ → ℕ → Host
host_of n interval i = record {
  host_id = host_name (pos i);
  send_interval = interval;
  out_gates = n;
  next_send = none;
}

abbrev carry_on :
    {W : Type 0} → (ℕ → NsbMessage → Outcome (Option W)) → Arrived W → Outcome (Option W)
carry_on k (posted w) = ok (some w)
carry_on k (forwarded gate msg) = k gate msg

-- `post i` is `simClient->post` on host `i`. A message that arrives there goes on from gate to gate,
-- `fuel` hosts far, until it is posted.
module _ {W : Type 0} (post : ℕ → Bytes → Bytes → Bytes → W → Outcome W) (n interval : ℕ) where
  unfoldable pub carry : ℕ → ℕ → NsbMessage → W → Outcome (Option W)
  carry zero i msg w = ok none
  carry (suc fuel) i msg w =
      process_packet (post i) msg (host_of n interval i) w
      >>= carry_on (λ gate msg'. carry fuel gate msg' w)

  abbrev message_to : Bytes → ℕ → Bytes → NsbMessage
  message_to src k payload = record { src_id = src; dest_id = host_name (pos k); payload = payload }

  arrives_home :
      (k : ℕ) (src payload : Bytes) (w : W)
      → k < 2 ^ 31
      → process_packet (post k) (message_to src k payload) (host_of n interval k) w
        ≡ (post k src (host_name (pos k)) payload w >>= λ w'. ok (posted w'))
  unfolding process_packet
  arrives_home k src payload w h =
      rw (host_index-host_name k h, str_eq_refl (host_name (pos k)), process_packet)

  passes_on :
      (i k : ℕ) (src payload : Bytes) (w : W)
      → i ≢ k
      → k < 2 ^ 31
      → k < n
      → process_packet (post i) (message_to src k payload) (host_of n interval i) w
        ≡ ok (forwarded k (message_to src k payload))
  unfolding process_packet
  passes_on i k src payload w d h within =
      ground (arith, host_index-host_name k h, other_host_name i k d)

  -- In a network of `n` hosts, a message for host `k`, where `k` is less than `n` and than 2^31, is
  -- posted there, with its source and its payload, wherever it arrives first: a host for which it
  -- is not sends it on through the right gate, so it passes at most two hosts.
  pub carry_posts :
      (fuel i k : ℕ) (src payload : Bytes) (w : W)
      → k < 2 ^ 31
      → k < n
      → carry
          (suc (suc fuel))
          i
          (record { src_id = src; dest_id = host_name (pos k); payload = payload })
          w
        ≡ (post k src (host_name (pos k)) payload w >>= λ w'. ok (some w'))
  unfolding carry
  carry_posts fuel i k src payload w h within = elim (Bool-cases (i == k)) [
    | inl here ↦
        subst
          (λ j.
            carry (suc (suc fuel)) j (message_to src k payload) w
            ≡ (post k src (host_name (pos k)) payload w >>= λ w'. ok (some w')))
          (sym ((==_iff i k).0 here)) (home (suc fuel))
    | inr away ↦ rw (passes_on i k src payload w (λ e. ground arith) h within) (home fuel)
  ]
    where
      once_posted :
          (f : ℕ) (m : Outcome W)
          → (m >>= λ w'. ok (posted w')) >>= carry_on (λ gate msg'. carry f gate msg' w)
            ≡ (m >>= λ w'. ok (some w'))
      once_posted f (ok w') = refl
      once_posted f (fault e) = refl

      home :
          (f : ℕ)
          → carry (suc f) k (message_to src k payload) w
            ≡ (post k src (host_name (pos k)) payload w >>= λ w'. ok (some w'))
      home f =
          rw (arrives_home k src payload w h)
            (once_posted f (post k src (host_name (pos k)) payload w))
