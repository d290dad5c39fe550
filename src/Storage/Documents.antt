-- ===== src/Storage/Documents.antt =====
-- JSON documents as Python holds them after `json.loads`; a float is kept as its text. A dict that
-- `json.loads` returns has each key once.
use ps4_uk_stream.Prelude.Integers.{ℤ, pos}
use ps4_uk_stream.Prelude.{
  String, Bool, true, false, Option, none, some, if◌then◌else◌, ◌==◌, nat_eq, string_eq,
}

mutual
  pub data Json : Type 0 where
    null : Json
    bool : Bool → Json
    int : ℤ → Json
    float : String → Json
    str : String → Json
    arr : Items → Json
    obj : Fields → Json

  pub data Items : Type 0 where
    nil : Items
    cons : Json → Items → Items

  pub data Fields : Type 0 where
    end : Fields
    field : String → Json → Fields → Fields

-- `doc.get(key)`
unfoldable pub field_of : String → Fields → Option Json
field_of key end = none
field_of key (field k v fs) = if k == key then some v else field_of key fs

abbrev pub or_null : Option Json → Json
or_null none = Json.null
or_null (some v) = v

-- `isinstance(value, int)`: a bool is an int in Python.
unfoldable pub as_int : Option Json → Option ℤ
as_int (some (Json.bool true)) = some (pos 1)
as_int (some (Json.bool false)) = some (pos 0)
as_int (some (Json.int z)) = some z
as_int _ = none
