-- ===== src/Gendb/Png.antt =====
-- gendb/ProvisioningClient.cpp: the PNG of a QR code. The code itself comes from a library: its
-- width and, for each module, a byte whose lowest bit says dark. An `int` here stays far below
-- 2 ^ 31.
pub mod Stored
pub mod Pixels
mod Tests
use signal2sip.Base.{
  ℕ, zero, suc, ◌+◌, ◌-◌, ◌*◌, ◌/◌, ◌%◌, ◌^◌, ◌≤◌, ◌<◌, ◌≡◌, refl, sym, ap, ap₂, subst, ◌∙◌, ◌≢◌,
  ◌↔◌, ◌⊎◌, inl, inr, Bool, true, false, not, ◌&&◌, ◌||◌, Option, none, some, List, [], ◌∷◌, ◌++◌,
  map, arith, ltb, leb, ◌==◌, if◌then◌else◌, ==_iff, Bool-cases, Option-cases, is_some, length,
  get_or, set, take, drop, replicate, is_empty, All, length-append, length-replicate, length-set,
  length-take-le, get_or-set_self, get_or-set_ne, take-append_left, drop-append_left, All-append,
  length-take, is_empty→nil, take-all, drop-all, get_or-append_right, suc-add, get_or-replicate,
  Bytes, IsByte, codes, eqb, eqb_refl, eqb→eq, eqb_iff, Result, ok, err, ◌>>=◌, ok_or, Result-cases,
}
use signal2sip.Base.Bits.{passes_below, passes_below→test, bit_or-shl}
use mathlib.Core.List.{append-nil, append_assoc}
use Prim.Native.Nat.{bit_or, bit_and, bit_xor}
use mathlib.Core.List.{foldl}

-- A round of the table's inner loop.
unfoldable pub crc_round : ℕ → ℕ
crc_round c = if c % 2 == 1 then bit_xor 0xEDB88320 (c / 2) else c / 2

unfoldable pub crc_entry : ℕ → ℕ
crc_entry n =
    crc_round (crc_round (crc_round (crc_round (crc_round (crc_round (crc_round (crc_round n)))))))

-- `table[(crc ^ data[i]) & 0xFF] ^ (crc >> 8)`; the table's entry is computed where it is read.
unfoldable pub crc_step : ℕ → ℕ → ℕ
crc_step crc b = bit_xor (crc_entry (bit_xor crc b % 256)) (crc / 256)

unfoldable pub crc_loop : ℕ → Bytes → ℕ
crc_loop crc [] = crc
crc_loop crc (b ∷ bs) = crc_loop (crc_step crc b) bs

unfoldable pub crc32_of : Bytes → ℕ
crc32_of data_bytes = bit_xor (crc_loop 0xFFFFFFFF data_bytes) 0xFFFFFFFF

unfoldable pub put_be32 : ℕ → Bytes
put_be32 v = (v / 2 ^ 24 % 256) ∷ (v / 2 ^ 16 % 256) ∷ (v / 2 ^ 8 % 256) ∷ (v % 256) ∷ []

unfoldable pub write_png_chunk : Bytes → Bytes → Bytes
write_png_chunk type data_bytes =
    put_be32 (length data_bytes % 2 ^ 32)
    ++ (type ++ data_bytes)
    ++ put_be32 (crc32_of (type ++ data_bytes))

-- A stored block: its flag, its length and the length's complement, least significant byte first.
unfoldable pub stored_block : Bool → Bytes → Bytes
stored_block is_last chunk =
    let len = length chunk % 2 ^ 16 in
    let nlen = 65535 - len in
    (if is_last then 1 else 0) ∷ (len % 256) ∷ (len / 256) ∷ (nlen % 256) ∷ (nlen / 256) ∷ chunk

unfoldable pub max_chunk : ℕ
max_chunk = 65535

-- The do-while loop, on what is left of the data; the fuel bounds the number of blocks.
unfoldable pub stored_blocks : ℕ → Bytes → Bytes
stored_blocks zero rest = []
stored_blocks (suc fuel) rest =
    let chunk = take max_chunk rest in
    let others = stored_blocks fuel (drop max_chunk rest) in
    if leb (length rest) max_chunk
    then stored_block true chunk
    else stored_block false chunk ++ others

-- The Adler-32 loop.
unfoldable pub adler_loop : ℕ → ℕ → Bytes → ℕ × ℕ
adler_loop a b [] = (a, b)
adler_loop a b (c ∷ cs) = let next = (a + c) % 65521 in adler_loop next ((b + next) % 65521) cs

unfoldable pub adler : Bytes → ℕ
adler data_bytes = let sums = adler_loop 1 0 data_bytes in bit_or (sums.1 * 2 ^ 16) (sums.0)

unfoldable pub zlib_store_uncompressed : Bytes → Bytes
zlib_store_uncompressed data_bytes =
    0x78
    ∷ 0x01
    ∷ (stored_blocks (suc (length data_bytes)) data_bytes ++ put_be32 (adler data_bytes))

-- What the QR library returns.
pub record QrCode : Type 0 where
  pub width : ℕ
  pub data_bytes : Bytes

-- Whether the module is dark; `kQuietModules` of 4 around the code are not. A coordinate is
-- shifted by the quiet modules, so that it is not negative.
unfoldable pub is_dark : QrCode → ℕ → ℕ → Bool
is_dark qr qx qy =
    (leb 4 qx && ltb qx (qr.width + 4))
    && ((leb 4 qy && ltb qy (qr.width + 4))
        && (get_or qr.data_bytes ((qy - 4) * qr.width + (qx - 4)) 0 % 2 == 1))

-- `row[x / 8] &= ~(0x80 >> (x % 8))` for every dark pixel; `n` counts the pixels left.
unfoldable pub clear_pixel : ℕ → Bytes → Bytes
clear_pixel x row = set row (x / 8) (bit_and (get_or row (x / 8) 0) (255 - 128 / 2 ^ (x % 8)))

unfoldable pub fill_row : (ℕ → Bool) → ℕ → ℕ → Bytes → Bytes
fill_row dark x zero row = row
fill_row dark x (suc n) row = fill_row dark (x + 1) n (if dark x then clear_pixel x row else row)

unfoldable pub png_row : QrCode → ℕ → ℕ → ℕ → Bytes
png_row qr scale size y =
    0 ∷ fill_row (λ x. is_dark qr (x / scale) (y / scale)) 0 size (replicate ((size + 7) / 8) 0xFF)

unfoldable pub png_rows : QrCode → ℕ → ℕ → ℕ → ℕ → Bytes
png_rows qr scale size y zero = []
png_rows qr scale size y (suc n) = png_row qr scale size y ++ png_rows qr scale size (y + 1) n

-- `writeQrPng`, up to the file.
unfoldable pub qr_png : QrCode → ℕ → Bytes
qr_png qr scale =
    let size = (qr.width + 8) * scale in
    let ihdr = put_be32 size ++ put_be32 size ++ (1 ∷ 0 ∷ 0 ∷ 0 ∷ 0 ∷ []) in
    (0x89 ∷ 0x50 ∷ 0x4E ∷ 0x47 ∷ 0x0D ∷ 0x0A ∷ 0x1A ∷ 0x0A ∷ [])
    ++ write_png_chunk (codes "IHDR") ihdr
    ++ write_png_chunk (codes "IDAT") (zlib_store_uncompressed (png_rows qr scale size 0 size))
    ++ write_png_chunk (codes "IEND") []
