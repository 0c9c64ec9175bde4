-- ===== src/Serialize/Tests.antt =====
-- Numbers written and read, and the theorems at concrete inputs.
use tetra.Prelude.{◌≡◌, ◌++◌, refl, [], ◌∷◌, some, arith, ◌>>=◌}
use tetra.Serialize.Compact.{
  write_compact_size, read_compact_size, read_compact_size-write_compact_size,
}
use tetra.Serialize.VarInt.{write_var_int, put_digits, read_var_int, read_var_int-write_var_int}

-- Numbers of the comment in serialize.h: it lists other bytes for the last two.
var_int_16384 : write_var_int 16384 ≡ some (0xff ∷ 0x00 ∷ [])
unfolding write_var_int put_digits
var_int_16384 = refl

var_int_16511 : write_var_int 16511 ≡ some (0xff ∷ 0x7f ∷ [])
unfolding write_var_int put_digits
var_int_16511 = refl

var_int_65535 : write_var_int 65535 ≡ some (0x82 ∷ 0xfe ∷ 0x7f ∷ [])
unfolding write_var_int put_digits
var_int_65535 = refl

read_compact_size-write_compact_size_example :
    read_compact_size (write_compact_size 70000 ++ 9 ∷ []) ≡ some (70000, 9 ∷ [])
read_compact_size-write_compact_size_example =
    read_compact_size-write_compact_size 70000 (9 ∷ []) (omega arith)

read_var_int-write_var_int_example :
    (write_var_int 16511 >>= λ w. read_var_int (w ++ 7 ∷ [])) ≡ some (16511, 7 ∷ [])
read_var_int-write_var_int_example = read_var_int-write_var_int 16511 (7 ∷ []) (omega arith)
