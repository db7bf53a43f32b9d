-- ===== src/Net/Tests.antt =====
-- Runs of the ring and of the framers, and the theorems about them at concrete inputs.
use fakelua.Base.{◌≡◌, arith, refl, min, false}
use fakelua.Base.{[], ◌∷◌, ◌++◌, length, take, drop, none}
use fakelua.Base.Slices.{write_at}
use fakelua.Net.Ring.{Ring, capacity, write, peek, read, skip, readable_region, commit_read}
use fakelua.Net.Ring.{writable_region, commit_write}
use fakelua.Net.Ring.Fifo.{IsValid, contents}
use fakelua.Net.Ring.Write.{write_lem, commit_write-writable_region}
use fakelua.Net.Ring.Read.{peek_lem, read_lem, skip_lem, commit_read-readable_region}
use fakelua.Net.Ring.Queue.{ring_queue}
use fakelua.Net.Framer.{NetConfig, FramerType, header4_big_endian}
use fakelua.Net.Framer.{header4_big, packet, write_packet, try_parse_packet}
use fakelua.Net.Framer.Bytes.{packet_bytes, is_length_allowed}
use fakelua.Net.Framer.Write.{write_packet-refuses}
use fakelua.Net.Framer.Parse.{deliverable, try_parse_packet-packet_bytes}

-- Eight places, with four bytes from place 6 on: 7, 8, 1, 2.
abbrev around : Ring
around = record { buf = 1 ∷ 2 ∷ 3 ∷ 4 ∷ 5 ∷ 6 ∷ 7 ∷ 8 ∷ []; head = 6; tail = 2; size = 4 }

around-IsValid : IsValid around
around-IsValid = record {
  some_room = omega arith;
  head_inside = omega arith;
  no_more = omega arith;
  tail_after = refl;
}

write_lem_example :
    IsValid (write around (9 ∷ 10 ∷ [])).1
    × (length (write around (9 ∷ 10 ∷ [])).1.buf ≡ 8)
    × (contents (write around (9 ∷ 10 ∷ [])).1 ≡ contents around ++ 9 ∷ 10 ∷ [])
    × ((write around (9 ∷ 10 ∷ [])).0 ≡ 2)
write_lem_example = write_lem around (9 ∷ 10 ∷ []) around-IsValid

commit_write-writable_region_example :
    IsValid (commit_write (record around { buf = write_at around.buf 2 (9 ∷ 10 ∷ []) }) 2)
    × (contents (commit_write (record around { buf = write_at around.buf 2 (9 ∷ 10 ∷ []) }) 2)
        ≡ contents around ++ 9 ∷ 10 ∷ [])
unfolding writable_region
commit_write-writable_region_example =
    commit_write-writable_region around (9 ∷ 10 ∷ []) 2 4 around-IsValid refl (omega arith)

peek_lem_example : peek around 3 ≡ take 3 (contents around)
peek_lem_example = peek_lem around 3 around-IsValid

read_lem_example :
    IsValid (read around 3).1
    × ((read around 3).1.buf ≡ around.buf)
    × ((read around 3).0 ≡ take 3 (contents around))
    × (contents (read around 3).1 ≡ drop 3 (contents around))
read_lem_example = read_lem around 3 around-IsValid

skip_lem_example :
    IsValid (skip around 3).1
    × ((skip around 3).1.buf ≡ around.buf)
    × (contents (skip around 3).1 ≡ drop 3 (contents around))
    × ((skip around 3).0 ≡ min 3 (length (contents around)))
skip_lem_example = skip_lem around 3 around-IsValid

commit_read-readable_region_example :
    (take 1 (drop 6 around.buf) ≡ take 1 (contents around))
    × (contents (commit_read around 1) ≡ drop 1 (contents around))
    × IsValid (commit_read around 1)
unfolding readable_region
commit_read-readable_region_example =
    commit_read-readable_region around 6 2 1 around-IsValid refl (omega arith)

abbrev with_framer : FramerType → NetConfig ring_queue
with_framer f = record {
  framer = f;
  max_packet_len = 100;
  fixed_packet_len = 0;
  custom_encoder_fn = none;
  custom_parser_fn = none;
}

write_packet-refuses_example :
    write_packet ring_queue (with_framer header4_big_endian) around (9 ∷ []) ≡ (false, around)
unfolding is_length_allowed packet_bytes header4_big capacity
write_packet-refuses_example =
    write_packet-refuses ring_queue (with_framer header4_big_endian) around (9 ∷ []) around-IsValid
      refl refl

-- Two bytes of payload, behind a length around the end of the ring, and one byte more.
abbrev received : Ring
received = record { buf = 0 ∷ 2 ∷ 70 ∷ 71 ∷ 5 ∷ 6 ∷ 0 ∷ 0 ∷ []; head = 6; tail = 5; size = 7 }

try_parse_packet-packet_bytes_example :
    ((try_parse_packet ring_queue (with_framer header4_big_endian) received).0
      ≡ packet (70 ∷ 71 ∷ []))
    × IsValid (try_parse_packet ring_queue (with_framer header4_big_endian) received).1
    × (contents (try_parse_packet ring_queue (with_framer header4_big_endian) received).1 ≡ 5 ∷ [])
unfolding deliverable packet_bytes contents header4_big
try_parse_packet-packet_bytes_example =
    try_parse_packet-packet_bytes ring_queue (with_framer header4_big_endian) received
      (70 ∷ 71 ∷ []) (5 ∷ [])
      (record {
        some_room = omega arith;
        head_inside = omega arith;
        no_more = omega arith;
        tail_after = refl;
      })
      refl refl refl
