-- ===== src/Xfirelib/Writing.antt =====
-- xfirelib/src/variablevalue.cpp and xfireutils.cpp: how an attribute is written to a packet.
pub mod Pieces
use xfire.Prelude.{ℕ, ◌+◌, ◌%◌, none, some}
use xfire.Buffer.{Bytes, Op, ◌>>◌, pure, fault, put, memcpy}
use xfire.Create.{strlen}
use xfire.Xfirelib.Value.{VariableValue}

-- A name is a `string`; `length` and `strlen` agree on it where it has no 0.
unfoldable pub write_name : VariableValue → ℕ → Op ℕ
write_name v index = do
  put index (strlen v.name % 256)
  memcpy (index + 1) v.name (strlen v.name)
  pure (strlen v.name + 1)

unfoldable pub write_value : VariableValue → ℕ → Op ℕ
write_value v index = elim v.value [
  | none ↦ fault
  | some value ↦ memcpy index value v.value_length >> pure v.value_length
]

-- `XFireUtils::addAttributName`, which returns the place behind the name.
unfoldable pub add_attribut_name : ℕ → Bytes → Op ℕ
add_attribut_name packet_length att = do
  put packet_length (strlen att % 256)
  memcpy (packet_length + 1) att (strlen att)
  pure (packet_length + 1 + strlen att)
