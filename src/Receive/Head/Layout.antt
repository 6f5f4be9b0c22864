-- ===== src/Receive/Head/Layout.antt =====
-- The words of the header: memcpy of one, two and four bytes at an offset, in the host's order.
use others.Base.{ℕ, ◌+◌, ◌*◌, ◌/◌, ◌%◌, Bytes, get_or, set}

pub data Endian : Type 0 where
  big little : Endian

abbrev pub get16 : Endian → Bytes → ℕ → ℕ
get16 big p o = get_or p o 0 * 256 + get_or p (o + 1) 0
get16 little p o = get_or p (o + 1) 0 * 256 + get_or p o 0

abbrev pub get32 : Endian → Bytes → ℕ → ℕ
get32 big p o = get16 big p o * 65536 + get16 big p (o + 2)
get32 little p o = get16 little p (o + 2) * 65536 + get16 little p o

abbrev pub put8 : Bytes → ℕ → ℕ → Bytes
put8 p o v = set p o v

abbrev pub put16 : Endian → Bytes → ℕ → ℕ → Bytes
put16 big p o v = set (set p o (v / 256 % 256)) (o + 1) (v % 256)
put16 little p o v = set (set p o (v % 256)) (o + 1) (v / 256 % 256)

abbrev pub put32 : Endian → Bytes → ℕ → ℕ → Bytes
put32 big p o v = put16 big (put16 big p o (v / 65536 % 65536)) (o + 2) (v % 65536)
put32 little p o v = put16 little (put16 little p o (v % 65536)) (o + 2) (v / 65536 % 65536)
