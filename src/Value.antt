-- ===== src/Value.antt =====
-- The values that commands take and return: what JSON can carry.
use test_frerfhrebfd.Common.{ℕ, String, Bool, Option, none, some, str_eq, if◌then◌else◌}

mutual
  pub data Value : Type 0 where
    null : Value
    flag : Bool → Value
    number : ℕ → Value
    text : String → Value
    list : Values → Value
    dict : Fields → Value

  pub data Values : Type 0 where
    nil : Values
    cons : Value → Values → Values

  pub data Fields : Type 0 where
    end : Fields
    field : String → Value → Fields → Fields

-- `d[key]` and `key in d` of a dictionary
abbrev pub lookup : String → Fields → Option Value
lookup key Fields.end = none
lookup key (Fields.field k v fields) = if str_eq k key then some v else lookup key fields
