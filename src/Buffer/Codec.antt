-- ===== src/Buffer/Codec.antt =====
-- src/include/buffer/page_codec.h: the compression of a column in a page.
use chicken_db.Base.{
  ℕ, zero, suc, ◌≡◌, refl, sym, true, false, Option, none, some, List, arith, nat_beq, length,
}

pub data CompressionType : Type 0 where
  none_codec : CompressionType
  zstd : CompressionType

abbrev pub code : CompressionType → ℕ
code none_codec = 0
code zstd = 1

-- The cast of a byte to the enum; none where no enumerator has that value, for which both switches
-- fail.
abbrev pub codec_of : ℕ → Option CompressionType
codec_of zero = some none_codec
codec_of (suc zero) = some zstd
codec_of (suc (suc n)) = none

-- The library zstd: none where it reports an error. What fits the buffer of `raw_size` bytes comes
-- out of `decompress raw_size`.
pub record Zstd : Type 0 where
  pub zstd_compress : List ℕ → Option (List ℕ)
  pub zstd_decompress : ℕ → List ℕ → Option (List ℕ)

-- What the codec relies on: decompression into a buffer of the original size undoes compression.
abbrev pub IsLossless : Zstd → Type 0
IsLossless z = (s c : List ℕ) → z.zstd_compress s ≡ some c → z.zstd_decompress (length s) c ≡ some s

-- `PageCodec::Compress`; none where it throws.
abbrev pub compress : Zstd → CompressionType → List ℕ → Option (List ℕ)
compress z none_codec src = some src
compress z zstd src = z.zstd_compress src

-- `PageCodec::Decompress`; none where it throws.
abbrev pub decompress : Zstd → Option CompressionType → List ℕ → ℕ → Option (List ℕ)
decompress z none src raw_size = none
decompress z (some none_codec) src raw_size = some src
decompress z (some zstd) src raw_size = elim (z.zstd_decompress raw_size src) [
  | none ↦ none
  | some got ↦ elim (nat_beq (length got) raw_size) [ true ↦ some got | false ↦ none ]
]

pub codec_of-code : (k : CompressionType) → codec_of (code k) ≡ some k
codec_of-code none_codec = refl
codec_of-code zstd = refl

pub decompress-compress :
    (z : Zstd) (k : CompressionType) (src c : List ℕ)
    → IsLossless z
    → compress z k src ≡ some c
    → decompress z (some k) c (length src) ≡ some src
decompress-compress z none_codec src c l h = sym h
decompress-compress z zstd src c l h = ground (arith, l src c h)
