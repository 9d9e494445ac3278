-- ===== src/Protocol/Packet/RoundTrip.antt =====
-- `encode_packet` against `parse_header`, on every branch of both.
use lite_im.Prelude.{
  ◌%◌, ◌^◌, ◌≤◌, ◌≡◌, ◌⊎◌, inl, inr, true, false, [], ◌++◌, arith, length, length-append, take,
  drop, ltb, ltb-false→le, le→ltb-false, Bool-cases,
}
use lite_im.Status.{success, is_ok, ok}
use lite_im.Protocol.Bytes.{Bytes, bytes, AreBytes}
use lite_im.Protocol.Packet.{
  PacketHeader, Packet, encode_packet, read_header, parse_header, validate_header, packet_magic,
  packet_version, packet_flags_none, packet_header_size, max_packet_body_length,
}
use lite_im.Protocol.Packet.Header.{
  FitsWords, IsValid, validate_header-IsValid, IsValid-validate_header, header_bytes,
  append_header_lem, length-header_bytes, read_header-header_bytes, header_bytes-read_header,
  drop-header_bytes,
}

-- The packet that goes on the wire: `body_len` is computed, whatever the caller left there.
abbrev pub framed : Packet → Packet
framed p = record p { header = record (p.header) { body_len = length p.body } }

-- What `encode_packet` accepts.
pub record IsEncodable (p : Packet) : Type 0 where
  pub magic_known : p.header.magic ≡ packet_magic
  pub version_known : p.header.version ≡ packet_version
  pub flags_known : p.header.flags ≡ packet_flags_none
  pub body_bounded : length p.body ≤ max_packet_body_length

-- A frame: the header and the body behind it.
abbrev pub frame_bytes : Packet → Bytes
frame_bytes p = header_bytes (framed p).header ++ p.body

pub framed-IsValid : (p : Packet) → IsEncodable p → IsValid (framed p).header
framed-IsValid p e = record {
  magic_known = e.magic_known;
  version_known = e.version_known;
  flags_known = e.flags_known;
  body_bounded = e.body_bounded;
}

pub framed-FitsWords :
    (p : Packet) → IsEncodable p → FitsWords p.header → FitsWords (framed p).header
framed-FitsWords p e f = record {
  magic_fits = f.magic_fits;
  version_fits = f.version_fits;
  flags_fits = f.flags_fits;
  msg_type_fits = f.msg_type_fits;
  seq_id_fits = f.seq_id_fits;
  body_len_fits = omega (arith, e.body_bounded);
}

-- On an encodable packet the output is the frame, and the status is ok.
pub encode_packet-IsEncodable :
    (p : Packet) → IsEncodable p → encode_packet p ≡ (frame_bytes p, success)
unfolding encode_packet
encode_packet-IsEncodable p e =
    let small : ltb max_packet_body_length (length p.body) ≡ false =
      le→ltb-false _ _ e.body_bounded in
    let len : length p.body % 2 ^ 32 ≡ length p.body = omega (arith, e.body_bounded) in
    rw (
      small,
      len,
      validate_header-IsValid (framed p).header (framed-IsValid p e),
      append_header_lem [] (framed p).header,
    )

refused_empty : (p : Packet) → is_ok (encode_packet p).1 ≡ false → (encode_packet p).0 ≡ []
unfolding encode_packet
refused_empty p e = ground arith

accepted-IsEncodable : (p : Packet) → is_ok (encode_packet p).1 ≡ true → IsEncodable p
unfolding encode_packet validate_header
accepted-IsEncodable p e = ground arith

-- `encode_packet` succeeds on the encodable packets, where it writes the frame, and on no other, where
-- it leaves the output empty and returns an error.
pub encode_packet_cases :
    (p : Packet)
    → (IsEncodable p × (encode_packet p ≡ (frame_bytes p, success)))
      ⊎ ((¬ IsEncodable p) × ((encode_packet p).0 ≡ []) × (is_ok (encode_packet p).1 ≡ false))
encode_packet_cases p = elim (Bool-cases (is_ok (encode_packet p).1)) [
  | inl e ↦ let v = accepted-IsEncodable p e in inl (v, encode_packet-IsEncodable p v)
  | inr e ↦ inr ((λ v. cc (encode_packet-IsEncodable p v)), refused_empty p e, e)
]

-- A parsed header is valid, its fields fit their types, and it is laid out in the first 20 bytes.
pub parse_header_sound :
    (bs : Bytes) (h : PacketHeader)
    → AreBytes (take 20 bs)
    → parse_header (bytes bs) ≡ ok h
    → IsValid h × FitsWords h × (header_bytes h ≡ take 20 bs) × (20 ≤ length bs)
unfolding parse_header
parse_header_sound bs h b e = elim (Bool-cases (ltb (length bs) 20)) [
  | inl short ↦ cc
  | inr long ↦ elim (Bool-cases (is_ok (validate_header (read_header bs)))) [
    | inl good ↦
        let same : read_header bs ≡ h = ground arith in
        let size : 20 ≤ length bs = ltb-false→le _ _ long in
        let (layout, fits) = header_bytes-read_header bs b size in
        rw (← same) (IsValid-validate_header (read_header bs) good, fits, layout, size)
    | inr bad ↦ cc
  ]
]

pub parse_header-frame :
    (h : PacketHeader) (rest : Bytes)
    → IsValid h
    → FitsWords h
    → parse_header (bytes (header_bytes h ++ rest)) ≡ ok h
unfolding parse_header
parse_header-frame h rest v f =
    let long : ltb (length (header_bytes h ++ rest)) packet_header_size ≡ false =
      le→ltb-false _ _
        (omega (arith, length-append (header_bytes h) rest, length-header_bytes h)) in
    rw (long, read_header-header_bytes h rest f, validate_header-IsValid h v)

-- What was encoded is parsed back, field for field, and the body is what follows the header.
pub parse_header-encode_packet :
    (p : Packet)
    → IsEncodable p
    → FitsWords p.header
    → (parse_header (bytes (encode_packet p).0) ≡ ok (framed p).header)
      × (drop packet_header_size (encode_packet p).0 ≡ p.body)
parse_header-encode_packet p e f = rw (encode_packet-IsEncodable p e) (
  parse_header-frame (framed p).header p.body (framed-IsValid p e) (framed-FitsWords p e f),
  drop-header_bytes (framed p).header p.body,
)
