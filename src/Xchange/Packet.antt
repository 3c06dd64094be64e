-- ===== src/Xchange/Packet.antt =====
-- native/src/mvrxchange/mvr_xchange_packet.h and .cpp: the TCP packages, as lists of bytes.
pub mod RoundTrip
use peraviz.Prelude.{
  ℕ, zero, suc, ◌+◌, ◌*◌, ◌/◌, ◌%◌, ◌^◌, Bool, true, false, ◌&&◌, List, [], ◌∷◌, ◌++◌, ltb, leb,
  ◌==◌, if◌then◌else◌, length, get_or, take, drop,
}

abbrev pub mvr_package_header : ℕ
mvr_package_header = 778682

abbrev pub mvr_package_version : ℕ
mvr_package_version = 1

pub record MvrXchangePacket : Type 0 where
  pub package_number : ℕ
  pub package_count : ℕ
  pub package_type : ℕ
  pub payload : List ℕ

-- `append_u32` and `append_u64` on an empty buffer.
abbrev pub u32_bytes : ℕ → List ℕ
u32_bytes v = v / 2 ^ 24 % 256 ∷ v / 2 ^ 16 % 256 ∷ v / 2 ^ 8 % 256 ∷ v % 256 ∷ []

abbrev pub u64_bytes : ℕ → List ℕ
u64_bytes v = u32_bytes (v / 2 ^ 32) ++ u32_bytes v

-- The bytes lie in disjoint bits, so `|` is a sum.
unfoldable pub read_u32 : List ℕ → ℕ → ℕ
read_u32 bytes i =
    get_or bytes i 0 * 2 ^ 24
    + get_or bytes (i + 1) 0 * 2 ^ 16
    + get_or bytes (i + 2) 0 * 2 ^ 8
    + get_or bytes (i + 3) 0

-- The loop of `read_u64`; the value stays below 2 ^ 64 for eight bytes.
abbrev pub read_bytes : ℕ → List ℕ → ℕ → ℕ → ℕ
read_bytes zero bytes i value = value
read_bytes (suc n) bytes i value = read_bytes n bytes (i + 1) (value * 2 ^ 8 + get_or bytes i 0)

unfoldable pub read_u64 : List ℕ → ℕ → ℕ
read_u64 bytes i = read_bytes 8 bytes i 0

unfoldable pub build_mvr_package : ℕ → List ℕ → List ℕ
build_mvr_package package_type payload =
    u32_bytes mvr_package_header
    ++ (u32_bytes mvr_package_version
        ++ (u32_bytes 0
            ++ (u32_bytes 1
                ++ (u32_bytes package_type ++ (u64_bytes (length payload) ++ payload)))))

unfoldable pub packet_at : List ℕ → MvrXchangePacket
packet_at bytes = record {
  package_number = read_u32 bytes 8;
  package_count = read_u32 bytes 12;
  package_type = read_u32 bytes 16;
  payload = take (read_u64 bytes 20) (drop 28 bytes);
}

-- The loop of `parse_mvr_packages`, on the bytes from `offset` on. A round takes 28 bytes at
-- least, so fuel of the number of bytes is enough.
unfoldable pub parse_from : ℕ → List ℕ → List MvrXchangePacket
parse_from zero bytes = []
parse_from (suc fuel) bytes =
    let rest = parse_from fuel (drop (read_u64 bytes 20) (drop 28 bytes)) in
    if leb 28 (length bytes)
      && (read_u32 bytes 0 == mvr_package_header
          && (read_u32 bytes 4 == mvr_package_version
              && leb (read_u64 bytes 20) (length (drop 28 bytes))))
    then packet_at bytes ∷ rest
    else []

unfoldable pub parse_mvr_packages : List ℕ → List MvrXchangePacket
parse_mvr_packages bytes = parse_from (length bytes) bytes
