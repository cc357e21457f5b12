-- ===== src/Media/Rtcp/Compound.antt =====
-- ParseCompound of rtcp_packet_codec.cpp: what it returns tiles the input.
use video_pipeline.Base.{
  ℕ, zero, suc, ◌+◌, ◌*◌, ◌/◌, ◌%◌, ◌^◌, ◌≤◌, ◌<◌, ◌≡◌, ◌≢◌, refl, sym, ap, subst, ◌∙◌, ◌⊎◌, inl,
  inr, true, false, List, [], ◌∷◌, ◌++◌, append-nil, append_assoc, arith, ltb, length, take, drop,
  length-append, length-take, length-drop, take-append-drop, Bool-cases, ltb→lt, get_or-take,
  get_or-append, take-append, drop-append,
}
use video_pipeline.Media.Wire.{bytes, byte_at, read_u16, All}
use video_pipeline.Media.Rtcp.{
  Packet, CompoundResult, packet_size_of, parsed_of, is_malformed, rejected, finished,
  parse_packets, parse_compound,
}

-- The bytes of all packets, one after the other.
abbrev pub contents : List Packet → List ℕ
contents [] = []
contents (p ∷ ps) = p.content ++ contents ps

-- A packet whose content is what its own header announces.
pub record IsPacket (p : Packet) : Type 0 where
  pub version : byte_at p.content 0 / 2 ^ 6 ≡ 2
  pub count : p.report_count ≡ byte_at p.content 0 % 2 ^ 5
  pub kind : p.packet_type ≡ byte_at p.content 1
  pub words : length p.content ≡ (byte_at p.content 2 * 2 ^ 8 + byte_at p.content 3 + 1) * 4

contents-append : (ps qs : List Packet) → contents (ps ++ qs) ≡ contents ps ++ contents qs
contents-append [] qs = refl
contents-append (p ∷ ps) qs = rw (contents-append ps qs) (sym (append_assoc p.content _ _))

-- No packet can start here: the version is not 2, or the announced size exceeds what is left.
abbrev pub IsBad : List ℕ → Type 0
IsBad tail =
    (byte_at tail 0 / 2 ^ 6 ≢ 2) ⊎ (length tail < (byte_at tail 2 * 2 ^ 8 + byte_at tail 3 + 1) * 4)

-- How the loop ends: before fewer than four bytes, or at `offset` with a bad header.
abbrev pub Ends : List ℕ → ℕ → CompoundResult → Type 0
Ends tail offset r =
    ((r.valid ≡ true) × (r.trailing_bytes ≡ length tail) × (length tail < 4))
    ⊎ ((r.valid ≡ false) × (r.error_offset ≡ offset) × (4 ≤ length tail) × IsBad tail)

-- The bytes `rest` are the packets that `r` has beyond `before`, and a tail at which the loop ends.
abbrev Tiles : List ℕ → ℕ → List Packet → CompoundResult → Type 0
Tiles rest offset before r =
    (new : List Packet) × (tail : List ℕ) × (r.packets ≡ before ++ new)
    × All IsPacket new
    × (contents new ++ tail ≡ rest)
    × Ends tail (offset + length (contents new)) r

finished-Tiles :
    (rest : List ℕ) (offset : ℕ) (before : List Packet)
    → length rest < 4
    → Tiles rest offset before (finished before (length rest))
unfolding finished
finished-Tiles rest offset before h =
    ([], rest, sym (append-nil before), tt, refl, inl (refl, refl, h))

rejected-Tiles :
    (rest : List ℕ) (offset : ℕ) (before : List Packet)
    → 4 ≤ length rest
    → IsBad rest
    → Tiles rest offset before (rejected before offset rest)
unfolding rejected
rejected-Tiles rest offset before h bad =
    ([], rest, sym (append-nil before), tt, refl, inr (refl, omega arith, h, bad))

malformed-IsBad : (rest : List ℕ) → is_malformed rest (length rest) ≡ true → IsBad rest
unfolding is_malformed read_u16
malformed-IsBad rest h = ground arith

well_formed :
    (rest : List ℕ)
    → is_malformed rest (length rest) ≡ false
    → (byte_at rest 0 / 2 ^ 6 ≡ 2) × (4 ≤ packet_size_of rest) × (packet_size_of rest ≤ length rest)
unfolding is_malformed
well_formed rest h = ground arith

parsed_of-IsPacket :
    (rest : List ℕ) → is_malformed rest (length rest) ≡ false → IsPacket (parsed_of rest)
unfolding parsed_of read_u16
parsed_of-IsPacket rest h =
    let size = packet_size_of rest in
    let (v, lo, hi) = well_formed rest h in
    ground (
      arith,
      v,
      get_or-take size 0 rest 0 (omega arith),
      get_or-take size 1 rest 0 (omega arith),
      get_or-take size 2 rest 0 (omega arith),
      get_or-take size 3 rest 0 (omega arith),
      length-take size rest,
    )

-- One well-formed packet in front of bytes that are tiled.
extend-Tiles :
    (rest : List ℕ) (offset : ℕ) (before : List Packet) (r : CompoundResult)
    → is_malformed rest (length rest) ≡ false
    → Tiles
        (drop (packet_size_of rest) rest)
        (offset + packet_size_of rest)
        (before ++ (parsed_of rest ∷ []))
        r
    → Tiles rest offset before r
extend-Tiles rest offset before r good (new, tail, e, ps, c, end) =
    let size = packet_size_of rest in
    let first = parsed_of rest in
    let (_, _, fits) = well_formed rest good in
    let content : first.content ≡ take size rest = unfold parsed_of in refl in
    (
      first ∷ new,
      tail,
      e ∙ append_assoc before (first ∷ []) new,
      (parsed_of-IsPacket rest good, ps),
      rw (content, append_assoc, c) (take-append-drop size rest),
      subst (λ o. Ends tail o r)
          (omega (
            arith,
            ap length content,
            length-take size rest,
            length-append first.content (contents new),
          ))
          end,
    )

parse_packets-Tiles :
    (fuel : ℕ) (rest : List ℕ) (offset : ℕ) (before : List Packet)
    → length rest ≤ fuel
    → Tiles rest offset before (parse_packets fuel rest offset before)
unfolding parse_packets
parse_packets-Tiles zero rest offset before h = finished-Tiles rest offset before (omega arith)
parse_packets-Tiles (suc fuel) rest offset before h = elim (Bool-cases (ltb (length rest) 4)) [
  | inl short ↦ rw short (finished-Tiles rest offset before (ltb→lt _ _ short))
  | inr long ↦ elim (Bool-cases (is_malformed rest (length rest))) [
    | inl bad ↦
        rw (long, bad) (rejected-Tiles rest offset before (ground arith) (malformed-IsBad rest bad))
    | inr good ↦
        let (_, lo, _) = well_formed rest good in
        let size = packet_size_of rest in
        let after = drop size rest in
        let before' = before ++ (parsed_of rest ∷ []) in
        rw (long, good)
          (extend-Tiles rest offset before (parse_packets fuel after (offset + size) before') good (
            parse_packets-Tiles fuel after (offset + size) before'
              (omega (arith, length-drop size rest))))
  ]
]

-- The parser cuts every input into packets, each exactly as long as its own header says and of
-- version 2, and a tail: with `valid` set the tail is the trailing bytes, fewer than four; else it
-- starts at `error_offset` with a header of another version or with an announced size that exceeds
-- the bytes left. No byte is skipped, repeated or moved.
pub parse_compound-Tiles :
    (p : List ℕ)
    → let r = parse_compound (bytes p) in
      (tail : List ℕ) × All IsPacket r.packets
      × (contents r.packets ++ tail ≡ p)
      × Ends tail (length (contents r.packets)) r
unfolding parse_compound
parse_compound-Tiles p =
    let (new, tail, e, ps, c, end) = parse_packets-Tiles (length p) p 0 [] (omega arith) in
    (
      tail,
      rw e ps,
      rw e c,
      rw e (subst (λ o. Ends tail o (parse_packets (length p) p 0 [])) (omega arith) end),
    )

module _ (p : Packet) (after : List ℕ) (v : IsPacket p) where
  header_byte : (i : ℕ) → i < 4 → byte_at (p.content ++ after) i ≡ byte_at p.content i
  header_byte i h = get_or-append p.content after i 0 (omega (arith, v.words))

  size_of_packet : packet_size_of (p.content ++ after) ≡ length p.content
  unfolding packet_size_of
  size_of_packet = ground (arith, header_byte 2 (omega arith), header_byte 3 (omega arith))

  parsed_of_packet : parsed_of (p.content ++ after) ≡ p
  unfolding parsed_of
  parsed_of_packet = ground (
    arith,
    header_byte 0 (omega arith),
    header_byte 1 (omega arith),
    size_of_packet,
    take-append p.content after,
  )

  not_malformed : is_malformed (p.content ++ after) (length (p.content ++ after)) ≡ false
  unfolding is_malformed
  not_malformed =
      ground (arith, header_byte 0 (omega arith), size_of_packet, length-append p.content after)

  one_packet :
      (fuel offset : ℕ) (before : List Packet)
      → parse_packets (suc fuel) (p.content ++ after) offset before
        ≡ parse_packets fuel after (offset + length p.content) (before ++ (p ∷ []))
  unfolding parse_packets
  one_packet fuel offset before =
      rw (not_malformed, size_of_packet, parsed_of_packet, drop-append p.content after)
        (ground (arith, length-append p.content after))

parse_packets-contents :
    (ps : List Packet) (tail : List ℕ) (fuel offset : ℕ) (before : List Packet)
    → All IsPacket ps
    → length tail < 4
    → length (contents ps) ≤ fuel
    → parse_packets fuel (contents ps ++ tail) offset before ≡ finished (before ++ ps) (length tail)
parse_packets-contents [] tail zero offset before v h f =
    unfold parse_packets in rw (append-nil before)
parse_packets-contents [] tail (suc fuel) offset before v h f =
    unfold parse_packets in rw (append-nil before) (ground arith)
parse_packets-contents (p ∷ ps) tail zero offset before (vp, vs) h f =
    absurd (omega (arith, vp.words, length-append p.content (contents ps)))
parse_packets-contents (p ∷ ps) tail (suc fuel) offset before (vp, vs) h f =
    rw (append_assoc p.content (contents ps) tail) (
      one_packet p (contents ps ++ tail) vp fuel offset before
      ∙ parse_packets-contents ps tail fuel _ (before ++ (p ∷ [])) vs h
          (omega (arith, vp.words, length-append p.content (contents ps)))
      ∙ ap (λ l. finished l (length tail)) (append_assoc before (p ∷ []) ps))

-- Well-formed packets in a row, with fewer than four bytes behind them, are found again, and those
-- bytes are counted as trailing.
pub parse_compound-contents :
    (ps : List Packet) (tail : List ℕ)
    → All IsPacket ps
    → length tail < 4
    → parse_compound (bytes (contents ps ++ tail)) ≡ finished ps (length tail)
unfolding parse_compound
parse_compound-contents ps tail v h =
    parse_packets-contents ps tail _ 0 [] v h (omega (arith, length-append (contents ps) tail))
