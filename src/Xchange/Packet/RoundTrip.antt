-- ===== src/Xchange/Packet/RoundTrip.antt =====
-- What native/src/mvrxchange/mvr_xchange_packet.cpp parses of what it builds.
use peraviz.Prelude.{
  ℕ, zero, suc, ◌^◌, ◌≤◌, ◌<◌, ◌≡◌, refl, ap, ◌∙◌, true, List, [], ◌∷◌, ◌++◌, arith, leb, length,
  take, drop, length-append, length-drop, All, Bool-cases, inl, inr,
}
use peraviz.Xchange.Packet.{
  MvrXchangePacket, u64_bytes, read_u32, read_u64, build_mvr_package, packet_at, parse_from,
  parse_mvr_packages,
}

-- Fuel beyond the number of bytes makes no difference.
parse_from-fuel :
    (f g : ℕ) (bytes : List ℕ)
    → length bytes ≤ f
    → length bytes ≤ g
    → parse_from f bytes ≡ parse_from g bytes
unfolding parse_from
parse_from-fuel zero zero bytes h k = refl
parse_from-fuel zero (suc g) bytes h k = ground arith
parse_from-fuel (suc f) zero bytes h k = ground arith
parse_from-fuel (suc f) (suc g) bytes h k = elim (Bool-cases (leb 28 (length bytes))) [
  | inr short ↦ rw short
  | inl long ↦
      let bound = length-drop (read_u64 bytes 20) (drop 28 bytes) in
      let header = length-drop 28 bytes in
      rw (
        parse_from-fuel f g (drop (read_u64 bytes 20) (drop 28 bytes))
          (ground (arith, bound, header)) (ground (arith, bound, header)))
]

take-append : (xs ys : List ℕ) → take (length xs) (xs ++ ys) ≡ xs
take-append [] ys = refl
take-append (x ∷ xs) ys = ap (λ l. x ∷ l) (take-append xs ys)

drop-append : (xs ys : List ℕ) → drop (length xs) (xs ++ ys) ≡ ys
drop-append [] ys = refl
drop-append (x ∷ xs) ys = drop-append xs ys

-- The packet that `build_mvr_package` stands for: number 0 of 1.
abbrev pub packet_of : ℕ → List ℕ → MvrXchangePacket
packet_of package_type payload = record {
  package_number = 0;
  package_count = 1;
  package_type = package_type;
  payload = payload;
}

-- A package that may be built: its type and its size fit their fields.
abbrev pub IsPackage : ℕ × List ℕ → Type 0
IsPackage (package_type, payload) = (package_type < 2 ^ 32) × (length payload < 2 ^ 64)

u64-fields : (v : ℕ) → v < 2 ^ 64 → (rest : List ℕ) → read_u64 (u64_bytes v ++ rest) 0 ≡ v
unfolding read_u64
u64-fields v h rest = omega arith

build-fields :
    (t : ℕ) (payload rest : List ℕ)
    → IsPackage (t, payload)
    → let bytes = build_mvr_package t payload ++ rest in
      (read_u32 bytes 0 ≡ 778682)
      × (read_u32 bytes 4 ≡ 1)
      × (read_u32 bytes 8 ≡ 0)
      × (read_u32 bytes 12 ≡ 1)
      × (read_u32 bytes 16 ≡ t)
      × (read_u64 bytes 20 ≡ length payload)
      × (drop 28 bytes ≡ payload ++ rest)
      × (28 ≤ length bytes)
unfolding build_mvr_package read_u32 read_u64
build-fields t payload rest h =
    (refl, refl, refl, refl, omega arith, omega arith, refl, omega arith)

-- A round of the loop whose header is right and whose payload is there.
parse_from-fields :
    (fuel : ℕ) (bytes payload rest : List ℕ)
    → 28 ≤ length bytes
    → read_u32 bytes 0 ≡ 778682
    → read_u32 bytes 4 ≡ 1
    → read_u64 bytes 20 ≡ length payload
    → drop 28 bytes ≡ payload ++ rest
    → parse_from (suc fuel) bytes
      ≡ record {
        package_number = read_u32 bytes 8;
        package_count = read_u32 bytes 12;
        package_type = read_u32 bytes 16;
        payload = payload;
      }
        ∷ parse_from fuel rest
unfolding parse_from packet_at
parse_from-fields fuel bytes payload rest long magic version size body =
    let long' : leb 28 (length bytes) ≡ true = ground arith in
    let fits : leb (length payload) (length (payload ++ rest)) ≡ true =
      ground (arith, length-append payload rest) in
    rw (size, body, take-append payload rest, drop-append payload rest, long', magic, version, fits)

-- One package and what follows it.
parse_from-build :
    (fuel t : ℕ) (payload rest : List ℕ)
    → IsPackage (t, payload)
    → parse_from (suc fuel) (build_mvr_package t payload ++ rest)
      ≡ packet_of t payload ∷ parse_from fuel rest
parse_from-build fuel t payload rest h =
    let f = build-fields t payload rest h in
    parse_from-fields fuel _ payload rest f.7 f.0 f.1 f.5 f.6 ∙ rw (f.2, f.3, f.4)

-- The packages of a stream, one after the other.
unfoldable pub build_all : List (ℕ × List ℕ) → List ℕ → List ℕ
build_all [] rest = rest
build_all ((t, payload) ∷ ps) rest = build_mvr_package t payload ++ build_all ps rest

abbrev pub packets_of : List (ℕ × List ℕ) → List MvrXchangePacket → List MvrXchangePacket
packets_of [] rest = rest
packets_of ((t, payload) ∷ ps) rest = packet_of t payload ∷ packets_of ps rest

parse-build :
    (t : ℕ) (payload rest : List ℕ)
    → IsPackage (t, payload)
    → parse_mvr_packages (build_mvr_package t payload ++ rest)
      ≡ packet_of t payload ∷ parse_mvr_packages rest
unfolding parse_mvr_packages
parse-build t payload rest h =
    let bytes = build_mvr_package t payload ++ rest in
    let f = build-fields t payload rest h in
    let size = length-append payload rest in
    let body = length-drop 28 bytes in
    parse_from-fuel (length bytes) (suc (length bytes)) bytes (omega arith) (omega arith)
    ∙ parse_from-build (length bytes) t payload rest h
    ∙ ap (λ l. packet_of t payload ∷ l)
        (parse_from-fuel (length bytes) (length rest) rest
          (omega (arith, size, body, ap length f.6)) (omega arith))

-- Whatever follows them in the buffer, packages of a type below 2 ^ 32 and a payload below 2 ^ 64
-- bytes that are built one after the other are parsed back in order, each with number 0 of 1, its
-- type and its payload, and then what follows is parsed.
pub parse-build_all :
    (ps : List (ℕ × List ℕ)) (rest : List ℕ)
    → All IsPackage ps
    → parse_mvr_packages (build_all ps rest) ≡ packets_of ps (parse_mvr_packages rest)
unfolding build_all
parse-build_all [] rest h = refl
parse-build_all ((t, payload) ∷ ps) rest h =
    parse-build t payload (build_all ps rest) h.0
    ∙ ap (λ l. packet_of t payload ∷ l) (parse-build_all ps rest h.1)
