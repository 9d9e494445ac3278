-- ===== src/Protocol/Packet/Header.antt =====
-- The 20 bytes of a header and the fields they stand for.
use lite_im.Prelude.{
  ◌^◌, ◌<◌, ◌≤◌, ◌≡◌, true, refl, ◌∷◌, ◌++◌, append_assoc, arith, length, take, drop,
}
use lite_im.Status.{success, is_ok}
use lite_im.Protocol.Bytes.{Bytes, AreBytes}
use lite_im.Protocol.ByteOrder.{read_uint16_be, read_uint32_be, read_uint64_be}
use lite_im.Protocol.ByteOrder.Values.{be}
use lite_im.Protocol.ByteOrder.Laws.{
  append_uint16_be_lem, append_uint32_be_lem, append_uint64_be_lem,
}
use lite_im.Protocol.ByteOrder.RoundTrip.{
  read_uint16_be-be, read_uint32_be-be, read_uint64_be-be, be-read_uint16_be, be-read_uint32_be,
  be-read_uint64_be,
}
use lite_im.Protocol.Packet.{
  PacketHeader, append_header, read_header, validate_header, packet_magic, packet_version,
  packet_flags_none, max_packet_body_length,
}

-- Each field is a value of its C++ type.
pub record FitsWords (h : PacketHeader) : Type 0 where
  pub magic_fits : h.magic < 2 ^ 32
  pub version_fits : h.version < 256
  pub flags_fits : h.flags < 256
  pub msg_type_fits : h.msg_type < 2 ^ 16
  pub seq_id_fits : h.seq_id < 2 ^ 64
  pub body_len_fits : h.body_len < 2 ^ 32

-- What `validate_header` asks for.
pub record IsValid (h : PacketHeader) : Type 0 where
  pub magic_known : h.magic ≡ packet_magic
  pub version_known : h.version ≡ packet_version
  pub flags_known : h.flags ≡ packet_flags_none
  pub body_bounded : h.body_len ≤ max_packet_body_length

pub validate_header-IsValid : (h : PacketHeader) → IsValid h → validate_header h ≡ success
unfolding validate_header
validate_header-IsValid h v = ground arith

pub IsValid-validate_header : (h : PacketHeader) → is_ok (validate_header h) ≡ true → IsValid h
unfolding validate_header
IsValid-validate_header h e = ground arith

-- The layout of a header on the wire.
unfoldable pub header_bytes : PacketHeader → Bytes
header_bytes h =
    be 4 h.magic ++ (h.version ∷ h.flags ∷ (be 2 h.msg_type ++ (be 8 h.seq_id ++ be 4 h.body_len)))

pub append_header_lem :
    (output : Bytes) (h : PacketHeader) → append_header output h ≡ output ++ header_bytes h
unfolding append_header header_bytes
append_header_lem output h =
    simp (append_uint16_be_lem, append_uint32_be_lem, append_uint64_be_lem, append_assoc)

pub length-header_bytes : (h : PacketHeader) → length (header_bytes h) ≡ 20
unfolding header_bytes be
length-header_bytes h = refl

-- Cutting a frame at the end of its header.
pub drop-header_bytes : (h : PacketHeader) (rest : Bytes) → drop 20 (header_bytes h ++ rest) ≡ rest
unfolding header_bytes be
drop-header_bytes h rest = refl

pub take-header_bytes :
    (h : PacketHeader) (rest : Bytes) → take 20 (header_bytes h ++ rest) ≡ header_bytes h
unfolding header_bytes be
take-header_bytes h rest = refl

pub read_header-header_bytes :
    (h : PacketHeader) (rest : Bytes) → FitsWords h → read_header (header_bytes h ++ rest) ≡ h
unfolding read_header header_bytes be
read_header-header_bytes h rest f =
    let behind : Bytes = be 4 h.body_len ++ rest in
    let seq : Bytes = be 8 h.seq_id ++ behind in
    let m : read_uint32_be (header_bytes h ++ rest) ≡ h.magic =
      read_uint32_be-be h.magic (h.version ∷ h.flags ∷ (be 2 h.msg_type ++ seq)) f.magic_fits in
    let t : read_uint16_be (be 2 h.msg_type ++ seq) ≡ h.msg_type =
      read_uint16_be-be h.msg_type seq f.msg_type_fits in
    let s : read_uint64_be seq ≡ h.seq_id = read_uint64_be-be h.seq_id behind f.seq_id_fits in
    let l : read_uint32_be behind ≡ h.body_len =
      read_uint32_be-be h.body_len rest f.body_len_fits in
    λ i. record {
      magic = m i;
      version = h.version;
      flags = h.flags;
      msg_type = t i;
      seq_id = s i;
      body_len = l i;
    }

-- The first 20 bytes of an input are the layout of the header that is read from it, whose fields
-- fit.
pub header_bytes-read_header :
    (bs : Bytes)
    → AreBytes (take 20 bs)
    → 20 ≤ length bs
    → (header_bytes (read_header bs) ≡ take 20 bs) × FitsWords (read_header bs)
unfolding read_header header_bytes
header_bytes-read_header
      (b0 ∷ b1 ∷ b2 ∷ b3 ∷ b4 ∷ b5 ∷ b6 ∷ b7 ∷ b8 ∷ b9 ∷ b10 ∷ b11 ∷ b12 ∷ b13 ∷ b14 ∷ b15 ∷ b16
        ∷ b17 ∷ b18 ∷ b19 ∷ rest)
      h e =
    let m = be-read_uint32_be b0 b1 b2 b3 _ (h.0, (h.1.0, (h.1.1.0, (h.1.1.1.0, tt)))) in
    let t = be-read_uint16_be b6 b7 _ (h.1.1.1.1.1.1.0, (h.1.1.1.1.1.1.1.0, tt)) in
    let s = be-read_uint64_be b8 b9 b10 b11 b12 b13 b14 b15 _ (
      h.1.1.1.1.1.1.1.1.0,
      (
        h.1.1.1.1.1.1.1.1.1.0,
        (
          h.1.1.1.1.1.1.1.1.1.1.0,
          (
            h.1.1.1.1.1.1.1.1.1.1.1.0,
            (
              h.1.1.1.1.1.1.1.1.1.1.1.1.0,
              (
                h.1.1.1.1.1.1.1.1.1.1.1.1.1.0,
                (h.1.1.1.1.1.1.1.1.1.1.1.1.1.1.0, (h.1.1.1.1.1.1.1.1.1.1.1.1.1.1.1.0, tt)),
              ),
            ),
          ),
        ),
      ),
    ) in
    let l = be-read_uint32_be b16 b17 b18 b19 _ (
      h.1.1.1.1.1.1.1.1.1.1.1.1.1.1.1.1.0,
      (
        h.1.1.1.1.1.1.1.1.1.1.1.1.1.1.1.1.1.0,
        (h.1.1.1.1.1.1.1.1.1.1.1.1.1.1.1.1.1.1.0, (h.1.1.1.1.1.1.1.1.1.1.1.1.1.1.1.1.1.1.1.0, tt)),
      ),
    ) in
    (
      rw (m.0, t.0, s.0, l.0),
      record {
        magic_fits = m.1;
        version_fits = h.1.1.1.1.0;
        flags_fits = h.1.1.1.1.1.0;
        msg_type_fits = t.1;
        seq_id_fits = s.1;
        body_len_fits = l.1;
      },
    )
header_bytes-read_header bs h e = absurd (omega arith)
