-- ===== src/Canonical.antt =====
-- blender/canonicalize.py: a .blend file is unwrapped, and where the environment asks for it the
-- heap address in each block's header is zeroed. Zstandard, which may not be installed, and gzip
-- are parameters, and so is the environment variable. The count of zeroed blocks, which no caller
-- reads, is left out.
pub mod Block
pub mod Zeroed
use zeno_plugin.Prelude.{
  ℕ, zero, suc, ◌+◌, ◌*◌, Bool, true, false, not, ◌&&◌, ◌||◌, Option, none, some, List, [], ◌∷◌,
  ◌++◌, leb, ltb, ◌==◌, if◌then◌else◌, length, take, drop, slice, replicate, get_or, any,
}
use zeno_plugin.Prelude.Text.{Text, codes, text_eq, strip, lower}
use zeno_plugin.Prelude.Result.{Result, ok, err, ◌>>=◌}
use zeno_plugin.Chunking.{Bytes}

pub record BlendAbi : Type 0 where
  pub ptr_size : ℕ
  pub little_endian : Bool
  pub header_end : ℕ

pub data CanonicalError : Type 0 where
  not_a_blend_file zstandard_required : CanonicalError
  external : Text → CanonicalError

abbrev pub Unpack : Type 0
Unpack = Bytes → Result CanonicalError Bytes

abbrev pub zstd_magic : Bytes
zstd_magic = 40 ∷ 181 ∷ 47 ∷ 253 ∷ []

abbrev pub gzip_magic : Bytes
gzip_magic = 31 ∷ 139 ∷ []

-- the call of zstandard, which may be missing
abbrev pub unzstd : Option Unpack → Unpack
unzstd none content = err zstandard_required
unzstd (some f) content = f content

unfoldable pub decompress : Option Unpack → Unpack → Unpack
decompress zstd gunzip content =
    let body = drop 12 content in
    if text_eq (take 4 content) zstd_magic
    then unzstd zstd content
    else if ltb (length content) 13
    then ok content
    else if text_eq (take 4 body) zstd_magic
    then (do out ← unzstd zstd body; ok (take 12 content ++ out))
    else if text_eq (take 2 body) gzip_magic
    then (do out ← gunzip body; ok (take 12 content ++ out))
    else ok content

-- `data[i] == ord(c)`
abbrev pub byte_is : Bytes → ℕ → Text → Bool
byte_is content i c = text_eq (slice content i (i + 1)) c

unfoldable pub parse_abi : Bytes → Result CanonicalError BlendAbi
parse_abi content =
    if ltb (length content) 12 || not (text_eq (take 7 content) (codes "BLENDER"))
    then err not_a_blend_file
    else if leb 17 (length content) && text_eq (slice content 7 9) (codes "17")
    then ok record { ptr_size = 8; little_endian = byte_is content 12 (codes "v"); header_end = 17 }
    else ok record {
      ptr_size = if byte_is content 7 (codes "-") then 8 else 4;
      little_endian = byte_is content 8 (codes "v");
      header_end = 12;
    }

-- `struct.unpack_from("<I" or ">I", ...)`
abbrev pub unpack_u32 : Bool → Bytes → ℕ
unpack_u32 little (a ∷ b ∷ c ∷ d ∷ []) =
    if little then a + 256 * (b + 256 * (c + 256 * d)) else d + 256 * (c + 256 * (b + 256 * a))
unpack_u32 little _ = 0

abbrev pub fixed_hdr : BlendAbi → ℕ
fixed_hdr abi = 8 + abi.ptr_size + 8

abbrev pub is_end : Bytes → Bool
is_end rest = text_eq (take 4 rest) (codes "ENDB")

abbrev pub block_total : BlendAbi → Bytes → ℕ
block_total abi rest = fixed_hdr abi + unpack_u32 abi.little_endian (take 4 (drop 4 rest))

-- One block with its pointer zeroed, then `tail`.
abbrev pub zero_block : BlendAbi → Bytes → Bytes → Bytes
zero_block abi rest tail =
    take 8 rest
    ++ (replicate abi.ptr_size 0 ++ (slice rest (8 + abi.ptr_size) (block_total abi rest) ++ tail))

-- The loop, on what is left of the file behind `offset`. A block takes at least 16 bytes.
unfoldable pub zero_loop : ℕ → BlendAbi → Bytes → Bytes
zero_loop zero abi rest = []
zero_loop (suc fuel) abi rest =
    let tail = zero_loop fuel abi (drop (block_total abi rest) rest) in
    if ltb (length rest) (fixed_hdr abi)
    then []
    else if is_end rest
    then rest
    else if ltb (length rest) (block_total abi rest)
    then rest
    else zero_block abi rest tail

-- The blocks of a file, from the first.
unfoldable pub zero_blocks : BlendAbi → Bytes → Bytes
zero_blocks abi rest = zero_loop (suc (length rest)) abi rest

unfoldable pub zero_pointers : Bytes → BlendAbi → Bytes
unfolding zero_blocks
zero_pointers content abi =
    take abi.header_end content ++ zero_blocks abi (drop abi.header_end content)

-- `str(...).strip().lower() in ("1", "true", "yes", "on")`
abbrev pub is_on : Text → Bool
is_on v = any (text_eq (lower (strip v))) (codes "1" ∷ codes "true" ∷ codes "yes" ∷ codes "on" ∷ [])

unfoldable pub canonicalize : Option Unpack → Unpack → Text → Bytes → Result CanonicalError Bytes
canonicalize zstd gunzip zero_old_ptr raw_data = do
  content ← decompress zstd gunzip raw_data
  abi ← parse_abi content
  ok (if is_on zero_old_ptr then zero_pointers content abi else content)
