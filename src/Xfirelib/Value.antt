-- ===== src/Xfirelib/Value.antt =====
-- xfirelib/src/variablevalue.cpp: an attribute's name and value, and how they are read from a packet.
-- A `long` of 64 bits holds a number of up to seven bytes; one of more is not cut here.
pub mod Places
use xfire.Prelude.{
  ℕ, zero, suc, ◌+◌, ◌*◌, Bool, false, [], ◌∷◌, Option, none, some, get_elem?, length, leb,
  if◌then◌else◌,
}
use xfire.Prelude.Int.{ℤ, div_256, to_byte}
use xfire.Partial.{◌>>=◌}
use xfire.Buffer.{Bytes, read_at}
use xfire.Create.{c_string}

-- `value` is an array, or NULL before one is set; `value_length` is what the object says of its size.
pub record VariableValue : Type 0 where
  pub name : Bytes
  pub value : Option Bytes
  pub value_length : ℕ

-- A new object. Its length is not initialised, and nothing reads it before it is set.
abbrev pub no_value : VariableValue
no_value = record { name = []; value = none; value_length = 0 }

unfoldable pub set_value : Bytes → VariableValue → VariableValue
set_value bytes v = record v { value = some bytes; value_length = length bytes }

-- The bytes that the loop of `setValueFromLong` stores, with the lowest first.
unfoldable pub bytes_of_long : ℤ → ℕ → Bytes
bytes_of_long value zero = []
bytes_of_long value (suc bytes) = to_byte value ∷ bytes_of_long (div_256 value) bytes

unfoldable pub set_value_from_long : ℤ → ℕ → VariableValue → VariableValue
unfolding bytes_of_long
set_value_from_long value bytes v = record v {
  value = some (bytes_of_long value bytes);
  value_length = bytes;
}

unfoldable pub get_value : VariableValue → Option Bytes
get_value v = elim v.value [ none ↦ none | some bytes ↦ read_at bytes 0 v.value_length ]

-- The sum that the loop of `getValueAsLong` computes; `power` is `myPow(256, i)`.
unfoldable pub long_of_bytes : ℕ → Bytes → ℕ
long_of_bytes power [] = 0
long_of_bytes power (b ∷ bytes) = b * power + long_of_bytes (power * 256) bytes

unfoldable pub get_value_as_long : VariableValue → Option ℕ
unfolding get_value long_of_bytes
get_value_as_long v = elim (get_value v) [ none ↦ none | some bytes ↦ some (long_of_bytes 1 bytes) ]

-- What was read is counted, and the object is returned. The length is a `char`: from 128 on it is
-- negative, and the local array for the name has no size.
unfoldable pub read_name : Bytes → ℕ → VariableValue → Option (ℕ × VariableValue)
unfolding ◌>>=◌
read_name packet index v = get_elem? packet index >>= λ name_length.
    if leb 128 name_length
    then none
    else (read_at packet (index + 1) name_length >>= λ bytes.
        some (1 + name_length, record v { name = c_string bytes }))

unfoldable pub read_bytes : Bytes → ℕ → ℕ → ℕ → VariableValue → Option (ℕ × VariableValue)
unfolding ◌>>=◌ set_value
read_bytes packet index read length v =
    read_at packet (index + read) length >>= λ bytes. some (read + length, set_value bytes v)

-- `readValue(packet, index, length)`
unfoldable pub read_value : Bytes → ℕ → ℕ → VariableValue → Option (ℕ × VariableValue)
unfolding read_bytes
read_value packet index length v = read_bytes packet index 0 length v

-- `readValue(packet, index, -1, ignoreZeroAfterLength)`: the length stands in front of the value.
unfoldable pub read_counted_value : Bytes → ℕ → Bool → VariableValue → Option (ℕ × VariableValue)
unfolding ◌>>=◌ read_bytes
read_counted_value packet index ignore_zero v = get_elem? packet index >>= λ length.
    read_bytes packet index (if ignore_zero then 2 else 1) length v

-- The place behind the attribute and the object. The length in front of the value is a number here; the
-- source keeps it as a long and gives it on as an int, which differ from 2 ^ 31 on.
unfoldable pub read_variable_value : Bytes → ℕ → VariableValue → Option (ℕ × VariableValue)
unfolding ◌>>=◌ read_name read_counted_value read_value get_value_as_long
read_variable_value packet index v = read_name packet index v >>= λ (named : ℕ × VariableValue).
    let index = index + named.0 in
    read_counted_value packet index false named.1 >>= λ (counted : ℕ × VariableValue).
    let index = index + counted.0 in
    get_value_as_long counted.1 >>= λ length.
    read_value packet (index + 1) length counted.1 >>= λ (read : ℕ × VariableValue).
    some (index + 1 + read.0, read.1)
