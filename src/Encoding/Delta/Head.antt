-- ===== src/Encoding/Delta/Head.antt =====
-- The four numbers before the differences.
use lindb.Base.{
  ℕ, ◌+◌, ◌-◌, ◌%◌, ◌^◌, ◌≡◌, ap, ◌∙◌, arith, List, [], ◌∷◌, ◌++◌, append_assoc, length, drop,
  drop-append, length-append, none,
}
use lindb.Base.Words.{IsWord32, IsWord64, to_int64, to_word32, to_int64-lt, to_word32-to_int64}
use lindb.Stream.Writer.{put_varint32, put_varint64, put_byte, put_bytes}
use lindb.Stream.Reader
use lindb.Stream.Reader.{read_varint32, read_varint64, position}
use lindb.Stream.Varint.{varint32, varint64, read_varint32_lem, read_varint64_lem}
use lindb.Bit.{reset_reader, set_buf}
use lindb.Encoding.Delta.{
  DeltaEncoder, DeltaDecoder, head_bytes, width_of, max_delta, zig_zag_encode, reset_delta_decoder,
  read_head,
}
use lindb.Encoding.Delta.Zigzag.{zig_zag_decode-zig_zag_encode}

pub head : ℕ → ℕ → ℕ → ℕ → List ℕ
head n width min first =
    varint32 n ++ (width ∷ (varint64 (zig_zag_encode (to_int64 min)) ++ varint32 first))

pub head_bytes_lem :
    (p : DeltaEncoder)
    → head_bytes p
      ≡ head
          (to_word32 (length p.deltas))
          (width_of (max_delta p.min_delta p.deltas 0) % 256)
          p.min_delta
          p.first
unfolding head_bytes head put_byte put_varint32 put_varint64 put_bytes
head_bytes_lem p = simp append_assoc

drop_front :
    (front rest : List ℕ) → drop (length (front ++ rest) - length rest) (front ++ rest) ≡ rest
drop_front front rest =
    let e : length (front ++ rest) - length rest ≡ length front =
      omega (arith, length-append front rest) in
    rw e (drop-append front rest)

abbrev pub at : List ℕ → List ℕ → Reader.Reader
at original rest = record { original = original; rest = rest; err = none }

read_head_lem :
    (n width z first : ℕ) (original rest : List ℕ)
    → IsWord32 n
    → IsWord64 z
    → IsWord32 first
    → read_head (at original (varint32 n ++ (width ∷ (varint64 z ++ (varint32 first ++ rest)))))
      ≡ ((n, width, z, first), at original rest)
unfolding read_head Reader.read_byte
read_head_lem n width z first original rest hn hz hf = simp (
  read_varint32_lem n (at original []) (width ∷ (varint64 z ++ (varint32 first ++ rest))) hn,
  read_varint64_lem z (at original []) (varint32 first ++ rest) hz,
  read_varint32_lem first (at original []) rest hf,
)

-- A decoder that is set on bytes with such a head has its numbers, and the bytes behind it.
pub reset_lem :
    (n width min first : ℕ) (rest : List ℕ) (d : DeltaDecoder)
    → IsWord32 n
    → IsWord32 min
    → IsWord32 first
    → reset_delta_decoder (head n width min first ++ rest) d ≡ record {
      sr = at (head n width min first ++ rest) rest;
      br = reset_reader (record d.br { buf = set_buf rest d.br.buf });
      count = (n + 1) % 2 ^ 32;
      pos = (n + 1) % 2 ^ 32;
      width = width;
      previous = first;
      min_delta = min;
    }
unfolding reset_delta_decoder head Reader.reset position
reset_lem n width min first rest d hn hm hf =
    let z = zig_zag_encode (to_int64 min) in
    let (back, fits) = zig_zag_decode-zig_zag_encode (to_int64 min) (to_int64-lt min hm) in
    let bytes = head n width min first ++ rest in
    let split : bytes ≡ varint32 n ++ (width ∷ (varint64 z ++ (varint32 first ++ rest))) =
      simp append_assoc in
    let r : read_head (at bytes bytes) ≡ ((n, width, z, first), at bytes rest) =
      ap (λ t. read_head (at bytes t)) split
      ∙ read_head_lem n width z first bytes rest hn fits hf in
    rw (r, drop_front (head n width min first) rest)
      (ap
        (λ m. record {
          sr = at bytes rest;
          br = reset_reader (record d.br { buf = set_buf rest d.br.buf });
          count = (n + 1) % 2 ^ 32;
          pos = (n + 1) % 2 ^ 32;
          width = width;
          previous = first;
          min_delta = m;
        })
        (ap to_word32 back ∙ to_word32-to_int64 min hm))
