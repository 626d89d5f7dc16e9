-- ===== src/Inet/Packet.antt =====
-- The packet that nsbBasicApp.cc writes and nsbAppSink.cc reads: two identifiers with their lengths
-- in 16 bits, in the byte order of a little-endian host, and the payload.
use mathlib.Core.List.{append-nil}
use nsb_beta.Base.{
  ℕ, zero, suc, ◌+◌, ◌-◌, ◌*◌, ◌/◌, ◌%◌, ◌^◌, ◌≤◌, ◌<◌, ◌≡◌, refl, ap, subst, ◌∙◌, Bool, true, [],
  ◌∷◌, ◌++◌, arith, leb, if◌then◌else◌, length, take, drop, length-append, Bytes,
}

abbrev u16_bytes : ℕ → Bytes
u16_bytes n = (n % 256) ∷ (n / 256) ∷ []

-- `uint16_t lenSrc = srcId.size()` keeps the low 16 bits, and as many bytes are written.
abbrev pub u16 : ℕ → ℕ
u16 n = n % 2 ^ 16

-- `[len1][srcId][len2][destId][payload]`
unfoldable pub encode_packet : Bytes → Bytes → Bytes → Bytes
encode_packet src dest payload =
    let len_src = u16 (length src) in
    let len_dest = u16 (length dest) in
    u16_bytes len_src
    ++ (take len_src src ++ (u16_bytes len_dest ++ (take len_dest dest ++ payload)))

-- `std::istringstream`: what is left to read, and whether no read has failed.
pub record Stream : Type 0 where
  pub left : Bytes
  pub good : Bool

-- `stream.read(_, n)`: the bytes that it stores. A read that meets the end stores what is there and
-- sets the stream's error bits, and then no read does anything.
unfoldable pub read : ℕ → Stream → Bytes × Stream
read n s =
    if s.good
    then (take n s.left, record { left = drop n s.left; good = leb n (length s.left) })
    else ([], s)

abbrev u16_value : Bytes → ℕ
u16_value (lo ∷ hi ∷ bs) = lo + 256 * hi
u16_value _ = 0

-- A read into a variable that is not initialized: `junk` has the two bytes that it holds.
unfoldable pub read_u16 : ℕ × ℕ → Stream → ℕ × Stream
unfolding read
read_u16 (lo, hi) s =
    let (bs, s') = read 2 s in (u16_value (bs ++ drop (length bs) (lo ∷ hi ∷ [])), s')

zeros : ℕ → Bytes
zeros zero = []
zeros (suc n) = 0 ∷ zeros n

-- `std::string id(n, '\0')` and a read over it.
unfoldable pub read_text : ℕ → Stream → Bytes × Stream
unfolding read zeros
read_text n s = let (bs, s') = read n s in (bs ++ zeros (n - length bs), s')

-- A length, and the identifier after it.
unfoldable pub read_id : ℕ × ℕ → Stream → Bytes × Stream
unfolding read_u16 read_text
read_id junk s = let (n, s') = read_u16 junk s in read_text n s'

-- The source, the destination and the payload, which is all that is left.
unfoldable pub decode_packet : ℕ × ℕ → ℕ × ℕ → Bytes → Bytes × Bytes × Bytes
unfolding read_id
decode_packet junk1 junk2 raw =
    let (src, s1) = read_id junk1 (record { left = raw; good = true }) in
    let (dest, s2) = read_id junk2 s1 in (src, dest, s2.left)

take-append : (xs ys : Bytes) → take (length xs) (xs ++ ys) ≡ xs
take-append [] ys = refl
take-append (x ∷ xs) ys = rw (take-append xs ys)

drop-append : (xs ys : Bytes) → drop (length xs) (xs ++ ys) ≡ ys
drop-append [] ys = refl
drop-append (x ∷ xs) ys = drop-append xs ys

length-take : (n : ℕ) (xs : Bytes) → n ≤ length xs → length (take n xs) ≡ n
length-take zero xs h = refl
length-take (suc n) [] h = omega arith
length-take (suc n) (x ∷ xs) h = omega (arith, length-take n xs (omega arith))

-- What was written as an identifier is read back whole, and the rest is left.
read_text-append :
    (xs rest : Bytes)
    → read_text (length xs) (record { left = xs ++ rest; good = true })
      ≡ (xs, record { left = rest; good = true })
unfolding read_text
read_text-append xs rest = λ i. (text i, record { left = drop-append xs rest i; good = fits i })
  where
    none_missing : length xs - length xs ≡ 0
    none_missing = omega arith

    text :
        take (length xs) (xs ++ rest) ++ zeros (length xs - length (take (length xs) (xs ++ rest)))
        ≡ xs
    text = rw (take-append xs rest) (rw none_missing (append-nil xs))

    fits : leb (length xs) (length (xs ++ rest)) ≡ true
    fits = ground (arith, length-append xs rest)

read_u16-append :
    (junk : ℕ × ℕ) (n : ℕ) (rest : Bytes)
    → n < 2 ^ 16
    → read_u16 junk (record { left = u16_bytes n ++ rest; good = true })
      ≡ (n, record { left = rest; good = true })
unfolding read_u16
read_u16-append (lo, hi) n rest h = λ i. (value i, record { left = rest; good = fits i })
  where
    value : n % 256 + 256 * (n / 256) ≡ n
    value = omega arith

    fits : leb 2 (suc (suc (length rest))) ≡ true
    fits = ground arith

read_id_written :
    (junk : ℕ × ℕ) (s rest : Bytes)
    → let len = u16 (length s) in
      read_id junk (record { left = u16_bytes len ++ (take len s ++ rest); good = true })
      ≡ (take len s, record { left = rest; good = true })
unfolding read_id
read_id_written junk s rest =
    let len : ℕ = u16 (length s) in
    let here : length (take len s) ≡ len = length-take len s (omega arith) in
    ap (λ (r : ℕ × Stream). read_text r.0 r.1)
      (read_u16-append junk len (take len s ++ rest) (omega arith))
    ∙ subst
        (λ n.
          read_text n (record { left = take len s ++ rest; good = true })
          ≡ (take len s, record { left = rest; good = true }))
        here (read_text-append (take len s) rest)

-- A packet is read as it was written, whatever the memory held before: the payload whole, and as
-- many bytes of each identifier as its length has in 16 bits.
pub decode_packet-encode_packet :
    (junk1 junk2 : ℕ × ℕ) (src dest payload : Bytes)
    → decode_packet junk1 junk2 (encode_packet src dest payload)
      ≡ (take (u16 (length src)) src, take (u16 (length dest)) dest, payload)
unfolding decode_packet encode_packet
decode_packet-encode_packet junk1 junk2 src dest payload =
    let len : ℕ = u16 (length dest) in
    ap
      (λ (r : Bytes × Stream).
        let (d, st) = read_id junk2 r.1 in let t : Bytes × Bytes × Bytes = (r.0, d, st.left) in t)
      (read_id_written junk1 src (u16_bytes len ++ (take len dest ++ payload)))
    ∙ ap
        (λ (r : Bytes × Stream).
          let t : Bytes × Bytes × Bytes = (take (u16 (length src)) src, r.0, r.1.left) in t)
        (read_id_written junk2 dest payload)

-- A packet is read as it was written, whatever the memory held before, if both of its identifiers
-- have less than 2^16 bytes.
pub packet_roundtrip :
    (junk1 junk2 : ℕ × ℕ) (src dest payload : Bytes)
    → length src < 2 ^ 16
    → length dest < 2 ^ 16
    → decode_packet junk1 junk2 (encode_packet src dest payload) ≡ (src, dest, payload)
packet_roundtrip junk1 junk2 src dest payload h k =
    decode_packet-encode_packet junk1 junk2 src dest payload ∙ λ i.
    (whole src h i, whole dest k i, payload)
  where
    all_taken : (s : Bytes) → take (length s) s ≡ s
    all_taken [] = refl
    all_taken (x ∷ s) = rw (all_taken s)

    whole : (s : Bytes) → length s < 2 ^ 16 → take (u16 (length s)) s ≡ s
    whole s h = let e : u16 (length s) ≡ length s = omega arith in rw e (all_taken s)
