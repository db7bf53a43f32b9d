-- ===== src/Net/Framer/Parse.antt =====
-- `TryParsePacket` reads back what `WritePacket` wrote.
use fakelua.Base.{
  ℕ, zero, suc, ◌+◌, ◌-◌, ◌*◌, ◌/◌, ◌%◌, ◌^◌, ◌≤◌, ◌<◌, ◌≡◌, arith, Bool, true, false,
}
use fakelua.Base.{List, [], ◌∷◌, ◌++◌, ltb, leb, ◌==◌, length, take, drop, ◌&&◌, ◌||◌, not, bit_or}
use fakelua.Base.{refl, ap, sym, ◌∙◌, none, length-append}
use fakelua.Base.{append_assoc, append-nil, take-length-append, drop-length-append}
use fakelua.Base.Bits.{or_disjoint, or_disjoint_above}
use fakelua.Net.Queue.{ByteQueue}
use fakelua.Net.Framer.{FramerType, header4_big_endian, header4_little_endian, header2_big_endian}
use fakelua.Net.Framer.{header2_little_endian, line_delimiter, fixed_length, raw_stream, custom}
use fakelua.Net.Framer.{web_socket, header4_big, header4_little, header2_big, header2_little}
use fakelua.Net.Framer.{length4_big, length4_little, length2_big, length2_little}
use fakelua.Net.Framer.{NetConfig, Parsed, packet, parse_header, parse_framed}
use fakelua.Net.Framer.{parse_fixed, take_payload, try_parse_packet}
use fakelua.Net.Framer.Line.{is_line, ends_in_return, line_parsed}
use fakelua.Net.Framer.Bytes.{packet_bytes, take_all}

length4_big-header4_big : (l : ℕ) → l < 2 ^ 32 → length4_big (header4_big l) ≡ l
unfolding length4_big header4_big
length4_big-header4_big l h =
    let b0 : ℕ = l / 2 ^ 24 % 256 in
    let b1 : ℕ = l / 2 ^ 16 % 256 in
    let b2 : ℕ = l / 2 ^ 8 % 256 in
    let first : bit_or (b0 * 2 ^ 24) (b1 * 2 ^ 16) ≡ (b0 * 256 + b1) * 2 ^ 16 =
      or_disjoint_above 24 (b1 * 2 ^ 16) b0 (omega arith) ∙ omega arith in
    let second : bit_or ((b0 * 256 + b1) * 2 ^ 16) (b2 * 2 ^ 8)
        ≡ ((b0 * 256 + b1) * 256 + b2) * 2 ^ 8 =
      or_disjoint_above 16 (b2 * 2 ^ 8) (b0 * 256 + b1) (omega arith) ∙ omega arith in
    rw (first, second)
      (or_disjoint_above 8 (l % 256) ((b0 * 256 + b1) * 256 + b2) (omega arith) ∙ omega arith)

length4_little-header4_little : (l : ℕ) → l < 2 ^ 32 → length4_little (header4_little l) ≡ l
unfolding length4_little header4_little
length4_little-header4_little l h =
    let b1 : ℕ = l / 2 ^ 8 % 256 in
    let b2 : ℕ = l / 2 ^ 16 % 256 in
    let b3 : ℕ = l / 2 ^ 24 % 256 in
    let first : bit_or (l % 256) (b1 * 2 ^ 8) ≡ l % 256 + b1 * 2 ^ 8 =
      or_disjoint 8 (l % 256) b1 (omega arith) in
    let second : bit_or (l % 256 + b1 * 2 ^ 8) (b2 * 2 ^ 16) ≡ l % 256 + b1 * 2 ^ 8 + b2 * 2 ^ 16 =
      or_disjoint 16 (l % 256 + b1 * 2 ^ 8) b2 (omega arith) in
    rw (first, second)
      (or_disjoint 24 (l % 256 + b1 * 2 ^ 8 + b2 * 2 ^ 16) b3 (omega arith) ∙ omega arith)

length2_big-header2_big : (l : ℕ) → l < 2 ^ 16 → length2_big (header2_big l) ≡ l
unfolding length2_big header2_big
length2_big-header2_big l h =
    or_disjoint_above 8 (l % 256) (l / 2 ^ 8 % 256) (omega arith) ∙ omega arith

length2_little-header2_little : (l : ℕ) → l < 2 ^ 16 → length2_little (header2_little l) ≡ l
unfolding length2_little header2_little
length2_little-header2_little l h =
    or_disjoint 8 (l % 256) (l / 2 ^ 8 % 256) (omega arith) ∙ omega arith

-- The payloads that a framer delivers as they are, by `max_packet_len` and `fixed_packet_len`.
unfoldable pub deliverable : FramerType → ℕ → ℕ → List ℕ → Bool
deliverable header4_big_endian max fixed bytes =
    leb (length bytes) max && ltb (length bytes) (2 ^ 32)
deliverable header4_little_endian max fixed bytes =
    leb (length bytes) max && ltb (length bytes) (2 ^ 32)
deliverable header2_big_endian max fixed bytes = leb (length bytes) max && leb (length bytes) 65535
deliverable header2_little_endian max fixed bytes =
    leb (length bytes) max && leb (length bytes) 65535
deliverable line_delimiter max fixed bytes =
    leb (length bytes) max && (is_line bytes && not (ends_in_return bytes))
deliverable fixed_length max fixed bytes = leb fixed max && (length bytes == fixed && ltb 0 fixed)
deliverable _ max fixed bytes = false

module _ (queue : ByteQueue) where
  open queue use {Q, capacity, size, peek, read, skip, Valid, contents}
  open queue use {size_law, peek_law, read_law, skip_law}

  abbrev Takes : Parsed × Q → List ℕ → List ℕ → Type 0
  Takes result payload rest =
      (result.0 ≡ packet payload) × Valid result.1 × (contents result.1 ≡ rest)

  module _ (cfg : NetConfig queue) (q : Q) (header bytes rest : List ℕ) (valid : Valid q)
      (holds : contents q ≡ header ++ (bytes ++ rest)) (within : length bytes ≤ cfg.max_packet_len)
      (counted : length bytes < 2 ^ 32) where
    whole_size : size q ≡ length header + (length bytes + length rest)
    whole_size =
        (size_law q valid).0
        ∙ ap length holds
        ∙ length-append header (bytes ++ rest)
        ∙ ap (λ (n : ℕ). length header + n) (length-append bytes rest)

    payload_taken : Takes (take_payload queue cfg (length bytes) (length header) q) bytes rest
    unfolding take_payload
    payload_taken =
        let (_, room) = size_law q valid in
        let not_over : ltb cfg.max_packet_len (length bytes) ≡ false = ground (arith, within) in
        let fits : ltb (capacity q) (length header + length bytes) ≡ false =
          ground (arith, room, whole_size) in
        let there : ltb (size q) (length header + length bytes) ≡ false =
          ground (arith, whole_size) in
        let (well, _, left, _) = skip_law q (length header) valid in
        let after : contents (skip q (length header)).1 ≡ bytes ++ rest =
          left ∙ ap (drop (length header)) holds ∙ drop-length-append header (bytes ++ rest) in
        let (well', _, got, left') = read_law (skip q (length header)).1 (length bytes) well in
        let payload : (read (skip q (length header)).1 (length bytes)).0 ≡ bytes =
          got ∙ ap (take (length bytes)) after ∙ take-length-append bytes rest in
        rw (not_over, fits, there)
          (
            ap packet (
                take_all (length bytes % 2 ^ 32) _ (omega (arith, ap length payload, counted))
                ∙ payload),
            well',
            left' ∙ ap (drop (length bytes)) after ∙ drop-length-append bytes rest,
          )

    header_parsed :
        (payload_length : List ℕ → ℕ)
        → payload_length header ≡ length bytes
        → Takes (parse_header queue cfg (length header) payload_length q) bytes rest
    unfolding parse_header
    header_parsed payload_length reads =
        let there : ltb (size q) (length header) ≡ false = ground (arith, whole_size) in
        let front : peek q (length header) ≡ header =
          peek_law q (length header) valid
          ∙ ap (take (length header)) holds
          ∙ take-length-append header (bytes ++ rest) in
        rw (there, front, reads) payload_taken

  fixed_parsed :
      (cfg : NetConfig queue) (q : Q) (bytes rest : List ℕ)
      → Valid q
      → contents q ≡ bytes ++ rest
      → length bytes ≡ cfg.fixed_packet_len
      → 0 < cfg.fixed_packet_len
      → cfg.fixed_packet_len ≤ cfg.max_packet_len
      → Takes (parse_fixed queue cfg q) bytes rest
  unfolding parse_fixed
  fixed_parsed cfg q bytes rest valid holds exact positive within =
      let long : size q ≡ length bytes + length rest =
        (size_law q valid).0 ∙ ap length holds ∙ length-append bytes rest in
      let (_, room) = size_law q valid in
      let some_length : (cfg.fixed_packet_len == 0) ≡ false = ground arith in
      let allowed : (ltb (capacity q) cfg.fixed_packet_len
            || (ltb 0 cfg.max_packet_len && ltb cfg.max_packet_len cfg.fixed_packet_len))
          ≡ false =
        ground (arith, long, room, exact, within) in
      let there : ltb (size q) cfg.fixed_packet_len ≡ false = ground (arith, long, exact) in
      let (well, _, got, left) = read_law q cfg.fixed_packet_len valid in
      rw (some_length, allowed, there)
        (
          ap packet (
              got
              ∙ ap (take cfg.fixed_packet_len) holds
              ∙ ap (λ n. take n (bytes ++ rest)) (sym exact)
              ∙ take-length-append bytes rest),
          well,
          left
              ∙ ap (drop cfg.fixed_packet_len) holds
              ∙ ap (λ n. drop n (bytes ++ rest)) (sym exact)
              ∙ drop-length-append bytes rest,
        )

  fixed_exact :
      (fixed : ℕ) (bytes : List ℕ)
      → length bytes ≡ fixed
      → packet_bytes fixed_length fixed bytes ≡ bytes
  unfolding packet_bytes
  fixed_exact zero bytes h = refl
  fixed_exact (suc fixed) bytes h =
      let no_pad : suc fixed - length bytes ≡ 0 = omega (arith, h) in
      rw (no_pad, take_all (suc fixed) bytes (omega (arith, h))) (append-nil bytes)

  framed_parsed :
      (cfg : NetConfig queue) (q : Q) (f : FramerType) (bytes rest : List ℕ)
      → Valid q
      → deliverable f cfg.max_packet_len cfg.fixed_packet_len bytes ≡ true
      → contents q ≡ packet_bytes f cfg.fixed_packet_len bytes ++ rest
      → Takes (parse_framed queue cfg f q) bytes rest
  unfolding parse_framed packet_bytes deliverable header4_big header4_little header2_big
      header2_little
  framed_parsed cfg q header4_big_endian bytes rest valid sound holds =
      let small : length bytes % 2 ^ 32 ≡ length bytes = ground (arith, sound) in
      header_parsed cfg q (header4_big (length bytes % 2 ^ 32)) bytes rest valid holds
        (ground (arith, sound)) (ground (arith, sound)) length4_big
        (length4_big-header4_big (length bytes % 2 ^ 32) (omega arith) ∙ small)
  framed_parsed cfg q header4_little_endian bytes rest valid sound holds =
      let small : length bytes % 2 ^ 32 ≡ length bytes = ground (arith, sound) in
      header_parsed cfg q (header4_little (length bytes % 2 ^ 32)) bytes rest valid holds
        (ground (arith, sound)) (ground (arith, sound)) length4_little
        (length4_little-header4_little (length bytes % 2 ^ 32) (omega arith) ∙ small)
  framed_parsed cfg q header2_big_endian bytes rest valid sound holds =
      let small : length bytes % 2 ^ 16 ≡ length bytes = ground (arith, sound) in
      header_parsed cfg q (header2_big (length bytes % 2 ^ 16)) bytes rest valid holds
        (ground (arith, sound)) (ground (arith, sound)) length2_big
        (length2_big-header2_big (length bytes % 2 ^ 16) (omega arith) ∙ small)
  framed_parsed cfg q header2_little_endian bytes rest valid sound holds =
      let small : length bytes % 2 ^ 16 ≡ length bytes = ground (arith, sound) in
      header_parsed cfg q (header2_little (length bytes % 2 ^ 16)) bytes rest valid holds
        (ground (arith, sound)) (ground (arith, sound)) length2_little
        (length2_little-header2_little (length bytes % 2 ^ 16) (omega arith) ∙ small)
  framed_parsed cfg q line_delimiter bytes rest valid sound holds =
      line_parsed queue cfg q bytes rest valid (holds ∙ append_assoc bytes (10 ∷ []) rest)
        (ground (arith, sound)) (ground (arith, sound)) (ground (arith, sound))
  framed_parsed cfg q fixed_length bytes rest valid sound holds =
      let exact : length bytes ≡ cfg.fixed_packet_len = ground (arith, sound) in
      fixed_parsed cfg q bytes rest valid
        (holds ∙ ap (λ xs. xs ++ rest) (fixed_exact cfg.fixed_packet_len bytes exact)) exact
        (ground (arith, sound)) (ground (arith, sound))
  framed_parsed cfg q raw_stream bytes rest valid sound holds = absurd (ground (arith, sound))
  framed_parsed cfg q custom bytes rest valid sound holds = absurd (ground (arith, sound))
  framed_parsed cfg q web_socket bytes rest valid sound holds = absurd (ground (arith, sound))

  -- Without a custom parser, and with a payload that the framer delivers as it is: a queue that begins
  -- with its packet gives the payload, and keeps what follows the packet.
  pub try_parse_packet-packet_bytes :
      (cfg : NetConfig queue) (q : Q) (bytes rest : List ℕ)
      → Valid q
      → cfg.custom_parser_fn ≡ none
      → deliverable cfg.framer cfg.max_packet_len cfg.fixed_packet_len bytes ≡ true
      → contents q ≡ packet_bytes cfg.framer cfg.fixed_packet_len bytes ++ rest
      → Takes (try_parse_packet queue cfg q) bytes rest
  unfolding try_parse_packet
  try_parse_packet-packet_bytes cfg q bytes rest valid no_parser sound holds =
      rw no_parser (framed_parsed cfg q cfg.framer bytes rest valid sound holds)
