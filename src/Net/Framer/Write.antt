-- ===== src/Net/Framer/Write.antt =====
-- `WritePacket` writes a packet whole or not at all.
use fakelua.Base.{ℕ, ◌-◌, ◌≡◌, arith, true, false}
use fakelua.Base.{List, ◌++◌, ltb, leb, length, ◌&&◌}
use fakelua.Base.{refl, Bool-cases, inl, inr, none}
use fakelua.Net.Queue.{ByteQueue}
use fakelua.Net.Framer.{FramerType, header4_big_endian, header4_little_endian, header2_big_endian}
use fakelua.Net.Framer.{header2_little_endian, line_delimiter, fixed_length, raw_stream, custom}
use fakelua.Net.Framer.{web_socket}
use fakelua.Net.Framer.{NetConfig, encoded_packet_size, write_framed}
use fakelua.Net.Framer.{write_packet}
use fakelua.Net.Framer.Bytes.{packet_bytes, is_length_allowed, framed_size-packet_bytes}

module _ (queue : ByteQueue) where
  open queue use {Q, capacity, size, write, Valid, contents, size_law, write_law}

  abbrev Appends : Q → List ℕ → Q → Type 0
  Appends q bytes q' = Valid q' × (capacity q' ≡ capacity q) × (contents q' ≡ contents q ++ bytes)

  size-packet_bytes :
      (cfg : NetConfig queue) (bytes : List ℕ)
      → encoded_packet_size queue cfg (length bytes)
        ≡ length (packet_bytes cfg.framer cfg.fixed_packet_len bytes)
  unfolding encoded_packet_size
  size-packet_bytes cfg bytes = framed_size-packet_bytes cfg.framer cfg.fixed_packet_len bytes

  write_framed-refuses :
      (f : FramerType) (fixed : ℕ) (q : Q) (bytes : List ℕ)
      → is_length_allowed f bytes ≡ false
      → write_framed queue f fixed q bytes ≡ (false, q)
  unfolding write_framed is_length_allowed
  write_framed-refuses header2_big_endian fixed q bytes h =
      let long : ltb 65535 (length bytes) ≡ true = ground (arith, h) in rw long refl
  write_framed-refuses header2_little_endian fixed q bytes h =
      let long : ltb 65535 (length bytes) ≡ true = ground (arith, h) in rw long refl
  write_framed-refuses header4_big_endian fixed q bytes h = absurd (ground (arith, h))
  write_framed-refuses header4_little_endian fixed q bytes h = absurd (ground (arith, h))
  write_framed-refuses line_delimiter fixed q bytes h = absurd (ground (arith, h))
  write_framed-refuses fixed_length fixed q bytes h = absurd (ground (arith, h))
  write_framed-refuses raw_stream fixed q bytes h = absurd (ground (arith, h))
  write_framed-refuses custom fixed q bytes h = absurd (ground (arith, h))
  write_framed-refuses web_socket fixed q bytes h = absurd (ground (arith, h))

  -- Without a custom encoder, a payload of more than 65535 bytes behind a header of two, or whose packet
  -- there is no room for, is refused, and the queue stays as it was.
  pub write_packet-refuses :
      (cfg : NetConfig queue) (q : Q) (bytes : List ℕ)
      → Valid q
      → cfg.custom_encoder_fn ≡ none
      → (is_length_allowed cfg.framer bytes
          && leb
              (length (packet_bytes cfg.framer cfg.fixed_packet_len bytes))
              (capacity q - size q))
        ≡ false
      → write_packet queue cfg q bytes ≡ (false, q)
  unfolding write_packet
  write_packet-refuses cfg q bytes valid no_encoder unfit =
      elim (Bool-cases (ltb (capacity q - size q) (encoded_packet_size queue cfg (length bytes)))) [
        | inl full ↦ rw (no_encoder, full) refl
        | inr room ↦
            rw (no_encoder, room)
              (write_framed-refuses cfg.framer cfg.fixed_packet_len q bytes
                (ground (arith, unfit, room, size-packet_bytes cfg bytes)))
      ]
