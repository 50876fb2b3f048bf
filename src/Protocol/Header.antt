-- ===== src/Protocol/Header.antt =====
-- `FrameHeader` of shinvpn/protocol/frames.py: the format "!4sBBIQH", 20 bytes.
use mathlib.Core.List.{append_assoc}
use shin_vpn.Prelude.{
  ℕ, ◌-◌, ◌≤◌, ◌<◌, ◌^◌, Bytes, ◌++◌, not, false, ◌≡◌, refl, true, sym, ◌∙◌, ap, arith, ltb, ◌==◌,
  if◌then◌else◌, length, take, drop, bytes_eq, bytes_eq→eq, Result, ok, err, value_error,
  struct_error, ◌>>=◌, length-append, take-append, drop-append, le→ltb, take-append-drop, All-take,
  All-drop, length-take_of_le, length-drop, drop-drop,
}
use shin_vpn.Prelude.Struct.{
  be, value_be, pack_be, length-be, value_be-be, pack_be-ok, IsBytes, be-value_be, value_be-lt,
}
use shin_vpn.Protocol.Constants.{magic_bytes, protocol_version}

abbrev pub header_len : ℕ
header_len = 20

pub record FrameHeader : Type 0 where
  pub version : ℕ
  pub msg_type : ℕ
  pub session_id : ℕ
  pub seq_num : ℕ
  pub payload_len : ℕ

unfoldable pub pack : FrameHeader → Result Bytes
pack h = do
  version ← pack_be 1 h.version
  msg_type ← pack_be 1 h.msg_type
  session_id ← pack_be 4 h.session_id
  seq_num ← pack_be 8 h.seq_num
  payload_len ← pack_be 2 h.payload_len
  ok (magic_bytes ++ (version ++ (msg_type ++ (session_id ++ (seq_num ++ payload_len)))))

-- struct.unpack raises unless data[:20] has 20 bytes; then the fields are read from left to right.
unfoldable pub unpack : Bytes → Result FrameHeader
unpack data_ =
    if ltb (length data_) header_len
    then err value_error
    else if not (length (take header_len data_) == header_len)
    then err struct_error
    else let after_magic = drop 4 data_ in
      let after_version = drop 1 after_magic in
      let after_type = drop 1 after_version in
      let after_session = drop 4 after_type in
      let after_seq = drop 8 after_session in
      if not (bytes_eq (take 4 data_) magic_bytes)
      then err value_error
      else if not (value_be (take 1 after_magic) == protocol_version)
      then err value_error
      else ok (record {
        version = value_be (take 1 after_magic);
        msg_type = value_be (take 1 after_version);
        session_id = value_be (take 4 after_type);
        seq_num = value_be (take 8 after_session);
        payload_len = value_be (take 2 after_seq);
      })

-- Every field fits its width in the format.
pub record Fits (h : FrameHeader) : Type 0 where
  pub version : h.version < 256
  pub msg_type : h.msg_type < 256
  pub session_id : h.session_id < 2 ^ 32
  pub seq_num : h.seq_num < 2 ^ 64
  pub payload_len : h.payload_len < 2 ^ 16

-- The bytes of a header whose fields fit.
abbrev pub layout : FrameHeader → Bytes
layout h =
    magic_bytes
    ++ (be 1 h.version
        ++ (be 1 h.msg_type ++ (be 4 h.session_id ++ (be 8 h.seq_num ++ be 2 h.payload_len))))

pub pack-layout : (h : FrameHeader) → Fits h → pack h ≡ ok (layout h)
unfolding pack
pack-layout h f = rw (
  pack_be-ok 1 h.version (omega arith),
  pack_be-ok 1 h.msg_type (omega arith),
  pack_be-ok 4 h.session_id (omega arith),
  pack_be-ok 8 h.seq_num (omega arith),
  pack_be-ok 2 h.payload_len (omega arith),
)

pub pack_inv : (h : FrameHeader) (raw : Bytes) → pack h ≡ ok raw → Fits h × (raw ≡ layout h)
unfolding pack pack_be
pack_inv h raw e = ground arith

pub length-layout : (h : FrameHeader) → length (layout h) ≡ 20
length-layout h =
    let a = be 1 h.version in
    let b = be 1 h.msg_type in
    let c = be 4 h.session_id in
    let d = be 8 h.seq_num in
    let e = be 2 h.payload_len in
    omega (
      arith,
      length-append a (b ++ (c ++ (d ++ e))),
      length-append b (c ++ (d ++ e)),
      length-append c (d ++ e),
      length-append d e,
      length-be 1 h.version,
      length-be 1 h.msg_type,
      length-be 4 h.session_id,
      length-be 8 h.seq_num,
      length-be 2 h.payload_len,
    )

module _ (n : ℕ) (xs ys rest : Bytes) (e : length xs ≡ n) where
  take-front : take n ((xs ++ ys) ++ rest) ≡ xs
  take-front = rw append_assoc (take-append n xs (ys ++ rest) e)

  drop-front : drop n ((xs ++ ys) ++ rest) ≡ ys ++ rest
  drop-front = rw append_assoc (drop-append n xs (ys ++ rest) e)

-- What struct.unpack gets has the right size as soon as the buffer is long enough.
pub exact_length : (d : Bytes) → 20 ≤ length d → (length (take header_len d) == header_len) ≡ true
exact_length d h = rw (length-take_of_le header_len d h) refl

pub unpack-layout :
    (h : FrameHeader) (rest : Bytes)
    → Fits h
    → h.version ≡ protocol_version
    → unpack (layout h ++ rest) ≡ ok h
unfolding unpack
unpack-layout h rest f v =
    let a = be 1 h.version in
    let b = be 1 h.msg_type in
    let c = be 4 h.session_id in
    let d = be 8 h.seq_num in
    let e = be 2 h.payload_len in
    let enough : 20 ≤ length (layout h ++ rest) =
      omega (arith, length-append (layout h) rest, length-layout h) in
    let long : ltb (length (layout h ++ rest)) header_len ≡ false = le→ltb _ _ enough in
    let whole : (length (take header_len (layout h ++ rest)) == header_len) ≡ true =
      exact_length (layout h ++ rest) enough in
    rw
      (
        long,
        whole,
        take-front 1 a (b ++ (c ++ (d ++ e))) rest (length-be 1 h.version),
        drop-front 1 a (b ++ (c ++ (d ++ e))) rest (length-be 1 h.version),
        take-front 1 b (c ++ (d ++ e)) rest (length-be 1 h.msg_type),
        drop-front 1 b (c ++ (d ++ e)) rest (length-be 1 h.msg_type),
        take-front 4 c (d ++ e) rest (length-be 4 h.session_id),
        drop-front 4 c (d ++ e) rest (length-be 4 h.session_id),
        take-front 8 d e rest (length-be 8 h.seq_num),
        drop-front 8 d e rest (length-be 8 h.seq_num),
        take-append 2 e rest (length-be 2 h.payload_len),
      )
      (ground (
        arith,
        value_be-be 1 h.version (omega arith),
        value_be-be 1 h.msg_type (omega arith),
        value_be-be 4 h.session_id (omega arith),
        value_be-be 8 h.seq_num (omega arith),
        value_be-be 2 h.payload_len (omega arith),
      ))

-- Cutting `n` bytes off the front: the field and its value, and what is left.
record Cut (n : ℕ) (d : Bytes) : Type 0 where
  fits : value_be (take n d) < 256 ^ n
  whole : be n (value_be (take n d)) ++ drop n d ≡ d
  left : IsBytes (drop n d)
  size : length (drop n d) ≡ length d - n

cut : (n : ℕ) (d : Bytes) → IsBytes d → n ≤ length d → Cut n d
cut n d b h =
    let short : IsBytes (take n d) = All-take (λ (x : ℕ). x < 256) n d b in
    record {
      fits = value_be-lt n (take n d) short (length-take_of_le n d h);
      whole = rw (be-value_be n (take n d) short (length-take_of_le n d h)) (take-append-drop n d);
      left = All-drop (λ (x : ℕ). x < 256) n d b;
      size = length-drop n d;
    }

-- The header that the first 20 bytes say, where the magic and the version are in place.
unpack-cases :
    (d : Bytes) (h : FrameHeader)
    → unpack d ≡ ok h
    → (20 ≤ length d)
      × (take 4 d ≡ magic_bytes)
      × (h.version ≡ protocol_version)
      × (h ≡ record {
        version = value_be (take 1 (drop 4 d));
        msg_type = value_be (take 1 (drop 1 (drop 4 d)));
        session_id = value_be (take 4 (drop 1 (drop 1 (drop 4 d))));
        seq_num = value_be (take 8 (drop 4 (drop 1 (drop 1 (drop 4 d)))));
        payload_len = value_be (take 2 (drop 8 (drop 4 (drop 1 (drop 1 (drop 4 d))))));
      })
unfolding unpack
unpack-cases d h e = ground (arith, bytes_eq→eq (take 4 d) magic_bytes)

-- Where all fields have been cut off, the header and the rest make up the whole.
layout-whole :
    (d d1 d2 d3 d4 d5 : Bytes) (h : FrameHeader)
    → magic_bytes ++ d1 ≡ d
    → be 1 h.version ++ d2 ≡ d1
    → be 1 h.msg_type ++ d3 ≡ d2
    → be 4 h.session_id ++ d4 ≡ d3
    → be 8 h.seq_num ++ d5 ≡ d4
    → be 2 h.payload_len ++ drop 20 d ≡ d5
    → layout h ++ drop 20 d ≡ d
layout-whole d d1 d2 d3 d4 d5 h e0 e1 e2 e3 e4 e5 = simp append_assoc (rw (e5, e4, e3, e2, e1) e0)

drop-twenty : (d : Bytes) → drop 2 (drop 8 (drop 4 (drop 1 (drop 1 (drop 4 d))))) ≡ drop 20 d
drop-twenty d =
    rw (drop-drop 4 1 d, drop-drop 5 1 d, drop-drop 6 4 d, drop-drop 10 8 d, drop-drop 18 2 d)

-- A buffer that is read as a header is the layout of that header, and what follows.
pub unpack_inv :
    (d : Bytes) (h : FrameHeader)
    → IsBytes d
    → unpack d ≡ ok h
    → Fits h × (h.version ≡ protocol_version) × (20 ≤ length d) × (layout h ++ drop 20 d ≡ d)
unpack_inv d h b e =
    let (long, magic, version, fields) = unpack-cases d h e in
    let d1 = drop 4 d in
    let d2 = drop 1 d1 in
    let d3 = drop 1 d2 in
    let d4 = drop 4 d3 in
    let d5 = drop 8 d4 in
    let c0 = cut 4 d b (omega arith) in
    let c1 = cut 1 d1 c0.left (omega (arith, c0.size)) in
    let c2 = cut 1 d2 c1.left (omega (arith, c0.size, c1.size)) in
    let c3 = cut 4 d3 c2.left (omega (arith, c0.size, c1.size, c2.size)) in
    let c4 = cut 8 d4 c3.left (omega (arith, c0.size, c1.size, c2.size, c3.size)) in
    let c5 = cut 2 d5 c4.left (omega (arith, c0.size, c1.size, c2.size, c3.size, c4.size)) in
    (
      rw fields (record {
        version = c1.fits;
        msg_type = c2.fits;
        session_id = c3.fits;
        seq_num = c4.fits;
        payload_len = c5.fits;
      }),
      version,
      long,
      rw fields (
          layout-whole d d1 d2 d3 d4 d5 _
            (ap (λ (m : Bytes). m ++ drop 4 d) (sym magic) ∙ take-append-drop 4 d) c1.whole c2.whole
            c3.whole c4.whole (rw (← drop-twenty d) c5.whole)),
    )
