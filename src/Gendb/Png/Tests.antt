-- ===== src/Gendb/Png/Tests.antt =====
-- The parts of the PNG at concrete input.
use signal2sip.Base.{
  ◌+◌, ◌*◌, ◌/◌, ◌%◌, ◌^◌, ◌≡◌, refl, some, [], ◌∷◌, arith, if◌then◌else◌, drop, codes,
}
use signal2sip.Gendb.Png.{
  crc_round, crc_entry, crc_step, crc_loop, crc32_of, put_be32, write_png_chunk, stored_block,
  stored_blocks, max_chunk, adler_loop, adler, zlib_store_uncompressed, QrCode, is_dark,
  clear_pixel, fill_row, png_row, png_rows,
}
use signal2sip.Gendb.Png.Stored.{inflate, inflate-zlib_store, running_sum, sum_of_sums, adler_lem}
use signal2sip.Gendb.Png.Pixels.{pixel, png_row-pixel}

-- The check value of the CRC-32 catalogue.
check_value : crc32_of (codes "123456789") ≡ 0xCBF43926
unfolding crc32_of crc_loop crc_step crc_entry crc_round
check_value = refl

end_chunk :
    write_png_chunk (codes "IEND") []
    ≡ 0 ∷ 0 ∷ 0 ∷ 0 ∷ 0x49 ∷ 0x45 ∷ 0x4E ∷ 0x44 ∷ 0xAE ∷ 0x42 ∷ 0x60 ∷ 0x82 ∷ []
unfolding write_png_chunk put_be32 crc32_of crc_loop crc_step crc_entry crc_round
end_chunk = refl

adler_value : adler (codes "Wikipedia") ≡ 0x11E60398
unfolding adler adler_loop
adler_value = refl

-- Nothing is one empty final block.
empty_stream :
    zlib_store_uncompressed [] ≡ 0x78 ∷ 0x01 ∷ 1 ∷ 0 ∷ 0 ∷ 0xFF ∷ 0xFF ∷ 0 ∷ 0 ∷ 0 ∷ 1 ∷ []
unfolding zlib_store_uncompressed stored_blocks stored_block max_chunk adler adler_loop put_be32
empty_stream = refl

-- One dark module: after four quiet pixels, one pixel is cleared.
one_module : QrCode
one_module = record { width = 1; data_bytes = 1 ∷ [] }

dark_row : png_row one_module 1 9 4 ≡ 0 ∷ 0xF7 ∷ 0xFF ∷ []
unfolding png_row fill_row clear_pixel is_dark one_module
dark_row = refl

inflate-zlib_store_example :
    inflate (zlib_store_uncompressed (png_rows one_module 1 9 0 9))
    ≡ some (png_rows one_module 1 9 0 9)
inflate-zlib_store_example = inflate-zlib_store (png_rows one_module 1 9 0 9)

png_row-pixel_example :
    pixel (drop 1 (png_row one_module 2 18 9)) 8
    ≡ (if is_dark one_module (8 / 2) (9 / 2) then 0 else 1)
png_row-pixel_example = png_row-pixel one_module 2 18 8 9 (omega arith)

adler_lem_example :
    adler (codes "abc")
    ≡ sum_of_sums 1 0 (codes "abc") % 65521 * 2 ^ 16 + running_sum 1 (codes "abc") % 65521
adler_lem_example = adler_lem (codes "abc")
