-- ===== src/Net/Framer.antt =====
-- `WritePacket` and `TryParsePacket` of src/native/net/net_buffer.cpp. The lengths of the
-- configuration, `int` in the source, are not negative.
pub mod Bytes
pub mod Write
pub mod Line
pub mod Parse
use fakelua.Base.{
  ℕ, ◌+◌, ◌-◌, ◌*◌, ◌/◌, ◌%◌, ◌^◌, bit_or, bit_and, min, Bool, true, false, ◌&&◌, ◌||◌,
}
use fakelua.Base.{List, [], ◌∷◌, ◌++◌, ltb, leb, ◌==◌, if◌then◌else◌, length, take, get_or}
use fakelua.Base.{replicate, Option, none, some}
use fakelua.Net.Queue.{ByteQueue}

pub data FramerType : Type 0 where
  header4_big_endian header4_little_endian header2_big_endian header2_little_endian : FramerType
  line_delimiter fixed_length raw_stream custom web_socket : FramerType

-- What `TryParsePacket` returns: a payload, false, or false with `out_error`.
pub data Parsed : Type 0 where
  packet : List ℕ → Parsed
  waiting bad : Parsed

unfoldable pub header4_big : ℕ → List ℕ
header4_big l = l / 2 ^ 24 % 256 ∷ l / 2 ^ 16 % 256 ∷ l / 2 ^ 8 % 256 ∷ l % 256 ∷ []

unfoldable pub header4_little : ℕ → List ℕ
header4_little l = l % 256 ∷ l / 2 ^ 8 % 256 ∷ l / 2 ^ 16 % 256 ∷ l / 2 ^ 24 % 256 ∷ []

unfoldable pub header2_big : ℕ → List ℕ
header2_big l = l / 2 ^ 8 % 256 ∷ l % 256 ∷ []

unfoldable pub header2_little : ℕ → List ℕ
header2_little l = l % 256 ∷ l / 2 ^ 8 % 256 ∷ []

-- The lengths read back. A header of another size is not read.
unfoldable pub length4_big : List ℕ → ℕ
length4_big (b0 ∷ b1 ∷ b2 ∷ b3 ∷ _) =
    bit_or (bit_or (bit_or (b0 * 2 ^ 24) (b1 * 2 ^ 16)) (b2 * 2 ^ 8)) b3
length4_big _ = 0

unfoldable pub length4_little : List ℕ → ℕ
length4_little (b0 ∷ b1 ∷ b2 ∷ b3 ∷ _) =
    bit_or (bit_or (bit_or b0 (b1 * 2 ^ 8)) (b2 * 2 ^ 16)) (b3 * 2 ^ 24)
length4_little _ = 0

unfoldable pub length2_big : List ℕ → ℕ
length2_big (b0 ∷ b1 ∷ _) = bit_or (b0 * 2 ^ 8) b1
length2_big _ = 0

unfoldable pub length2_little : List ℕ → ℕ
length2_little (b0 ∷ b1 ∷ _) = bit_or b0 (b1 * 2 ^ 8)
length2_little _ = 0

-- The place of the first '\n'.
pub one_further : Option ℕ → Option ℕ
one_further none = none
one_further (some i) = some (i + 1)

unfoldable pub find_newline : List ℕ → Option ℕ
unfolding one_further
find_newline [] = none
find_newline (b ∷ bytes) = if b == 10 then some 0 else one_further (find_newline bytes)

-- The line without its '\n' and without a '\r' before it.
unfoldable pub line_payload : ℕ → List ℕ → List ℕ
line_payload line_end bytes =
    if ltb 0 line_end && get_or bytes (line_end - 1) 0 == 13
    then take (line_end - 1) bytes
    else take line_end bytes

-- `EncodedPacketSize` by its cases.
unfoldable pub framed_size : FramerType → ℕ → ℕ → ℕ
framed_size header4_big_endian fixed len = 4 + len
framed_size header4_little_endian fixed len = 4 + len
framed_size header2_big_endian fixed len = 2 + len
framed_size header2_little_endian fixed len = 2 + len
framed_size line_delimiter fixed len = len + 1
framed_size fixed_length fixed len = if ltb 0 fixed then fixed else len
framed_size _ fixed len = len

module _ (queue : ByteQueue) where
  open queue use {Q, init, capacity, size, write, peek, read, skip}

  pub record NetConfig : Type 0 where
    pub framer : FramerType
    pub max_packet_len : ℕ
    pub fixed_packet_len : ℕ
    pub custom_encoder_fn : Option (Q → List ℕ → Q)
    pub custom_parser_fn : Option (Q → Bool × List ℕ × Q)

  unfoldable pub encoded_packet_size : NetConfig → ℕ → ℕ
  unfolding framed_size
  encoded_packet_size cfg len = framed_size cfg.framer cfg.fixed_packet_len len

  -- Two calls of `Write`.
  unfoldable pub write_two : Q → List ℕ → List ℕ → Q
  write_two q front back = (write (write q front).1 back).1

  unfoldable pub write_fixed : ℕ → Q → List ℕ → Q
  unfolding write_two
  write_fixed fixed q bytes =
      let len = length bytes in
      let target : ℕ = if ltb 0 fixed then fixed else len in
      if leb target len
      then (write q (take target bytes)).1
      else write_two q bytes (replicate (target - len) 0)

  -- `switch (cfg.framer)`.
  unfoldable pub write_framed : FramerType → ℕ → Q → List ℕ → Bool × Q
  unfolding header4_big header4_little header2_big header2_little write_two write_fixed
  write_framed header4_big_endian fixed q bytes =
      (true, write_two q (header4_big (length bytes % 2 ^ 32)) bytes)
  write_framed header4_little_endian fixed q bytes =
      (true, write_two q (header4_little (length bytes % 2 ^ 32)) bytes)
  write_framed header2_big_endian fixed q bytes =
      if ltb 65535 (length bytes)
      then (false, q)
      else (true, write_two q (header2_big (length bytes % 2 ^ 16)) bytes)
  write_framed header2_little_endian fixed q bytes =
      if ltb 65535 (length bytes)
      then (false, q)
      else (true, write_two q (header2_little (length bytes % 2 ^ 16)) bytes)
  write_framed line_delimiter fixed q bytes = (true, write_two q bytes (10 ∷ []))
  write_framed fixed_length fixed q bytes = (true, write_fixed fixed q bytes)
  write_framed _ fixed q bytes = (true, (write q bytes).1)

  unfoldable pub write_custom : Q → Q → Bool × Q
  write_custom q tmp =
      if ltb (capacity q - size q) (size tmp)
      then (false, q)
      else (true, if ltb 0 (size tmp) then (write q (read tmp (size tmp)).0).1 else q)

  unfoldable pub write_packet : NetConfig → Q → List ℕ → Bool × Q
  unfolding encoded_packet_size write_framed write_custom
  write_packet cfg q bytes = encoder cfg.custom_encoder_fn
    where
      encoder : Option (Q → List ℕ → Q) → Bool × Q
      encoder (some encode) = write_custom q (encode (init (capacity q - size q + 1)) bytes)
      encoder none =
          if ltb (capacity q - size q) (encoded_packet_size cfg (length bytes))
          then (false, q)
          else write_framed cfg.framer cfg.fixed_packet_len q bytes

  -- `ValidatePayloadLen`, and the payload taken when it returns true.
  unfoldable pub take_payload : NetConfig → ℕ → ℕ → Q → Parsed × Q
  take_payload cfg payload_len header_size q =
      if ltb cfg.max_packet_len payload_len
      then (bad, q)
      else if ltb (capacity q) (header_size + payload_len)
      then (bad, q)
      else if ltb (size q) (header_size + payload_len)
      then (waiting, q)
      else (let (payload, rest) = read (skip q header_size).1 payload_len in
          (packet (take (payload_len % 2 ^ 32) payload), rest))

  unfoldable pub parse_header : NetConfig → ℕ → (List ℕ → ℕ) → Q → Parsed × Q
  unfolding take_payload
  parse_header cfg header_size payload_length q =
      if ltb (size q) header_size
      then (waiting, q)
      else take_payload cfg (payload_length (peek q header_size)) header_size q

  unfoldable pub take_line : NetConfig → Option ℕ → Q → Parsed × Q
  unfolding line_payload
  take_line cfg none q =
      (if ltb 0 cfg.max_packet_len && ltb cfg.max_packet_len (size q) then bad else waiting, q)
  take_line cfg (some line_end) q =
      if ltb 0 cfg.max_packet_len && ltb cfg.max_packet_len line_end
      then (bad, q)
      else (let (bytes, rest) = read q (line_end + 1) in
          (packet (line_payload line_end bytes), rest))

  -- How far to look: a short line may stand before more than `max_packet_len` bytes.
  abbrev pub scan_bytes : NetConfig → Q → ℕ
  scan_bytes cfg q =
      if ltb 0 cfg.max_packet_len then min (size q) (cfg.max_packet_len + 1) else size q

  unfoldable pub parse_line : NetConfig → Q → Parsed × Q
  unfolding take_line find_newline
  parse_line cfg q =
      if size q == 0
      then (waiting, q)
      else take_line cfg (find_newline (peek q (scan_bytes cfg q))) q

  unfoldable pub parse_fixed : NetConfig → Q → Parsed × Q
  parse_fixed cfg q =
      let fixed_len = cfg.fixed_packet_len in
      if fixed_len == 0
      then (waiting, q)
      else if ltb (capacity q) fixed_len
          || (ltb 0 cfg.max_packet_len && ltb cfg.max_packet_len fixed_len)
      then (bad, q)
      else if ltb (size q) fixed_len
      then (waiting, q)
      else (let (bytes, rest) = read q fixed_len in (packet bytes, rest))

  unfoldable pub parse_raw : NetConfig → Q → Parsed × Q
  parse_raw cfg q =
      if size q == 0
      then (waiting, q)
      else (let (bytes, rest) = read q (min (size q) cfg.max_packet_len) in (packet bytes, rest))

  unfoldable pub parse_framed : NetConfig → FramerType → Q → Parsed × Q
  unfolding parse_header length4_big length4_little length2_big length2_little parse_line
      parse_fixed parse_raw
  parse_framed cfg header4_big_endian q = parse_header cfg 4 length4_big q
  parse_framed cfg header4_little_endian q = parse_header cfg 4 length4_little q
  parse_framed cfg header2_big_endian q = parse_header cfg 2 length2_big q
  parse_framed cfg header2_little_endian q = parse_header cfg 2 length2_little q
  parse_framed cfg line_delimiter q = parse_line cfg q
  parse_framed cfg fixed_length q = parse_fixed cfg q
  parse_framed cfg raw_stream q = parse_raw cfg q
  parse_framed cfg _ q = (waiting, q)

  -- A custom parser that claims a packet has to have consumed something.
  unfoldable pub parse_custom : ℕ → Bool × List ℕ × Q → Parsed × Q
  parse_custom before (true, payload, q) =
      if leb before (size q) then (bad, q) else (packet payload, q)
  parse_custom before (false, payload, q) = (waiting, q)

  unfoldable pub try_parse_packet : NetConfig → Q → Parsed × Q
  unfolding parse_framed parse_custom
  try_parse_packet cfg q = parser cfg.custom_parser_fn
    where
      parser : Option (Q → Bool × List ℕ × Q) → Parsed × Q
      parser (some parse) = parse_custom (size q) (parse q)
      parser none = parse_framed cfg cfg.framer q
