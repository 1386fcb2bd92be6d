-- ===== src/Json.antt =====
-- jsonSerializable of json.go. encoding/json is not ksql's: its two functions are parameters.
use ksql.Prelude.{String, ◌≡◌, refl, Bool-cases, inl, inr, Option, ◌==◌, if◌then◌else◌}
use ksql.Prelude.Result.{Result, ok, err, Error, msg}
use ksql.Reflect.{GoType, Value}
use ksql.Db.Scanning.{zero_value}

-- What a driver stores or hands back for a column.
pub data DriverValue : Type 0 where
  nil : DriverValue
  string bytes : String → DriverValue
  other : DriverValue

-- json.Unmarshal into a value, and json.Marshal with its error.
abbrev pub Unmarshal : Type 0
Unmarshal = String → Value → Result Value

abbrev pub Marshal : Type 0
Marshal = Value → String × Option Error

pub record JsonSerializable : Type 0 where
  pub driver_name : String
  -- the type of what Attr points to, and what stands there
  pub type : GoType
  pub attr : Value

-- What stands behind Attr after Scan.
pub scan : Unmarshal → JsonSerializable → DriverValue → Result Value
scan unmarshal j nil = ok (zero_value j.type)
scan unmarshal j (string raw) = unmarshal raw j.attr
scan unmarshal j (bytes raw) = unmarshal raw j.attr
scan unmarshal j other = err (msg "unexpected type received to Scan")

pub value : Marshal → JsonSerializable → DriverValue × Option Error
value marshal j =
    let (b, failure) = marshal j.attr in
    if j.driver_name == "sqlserver" then (string b, failure) else (bytes b, failure)

-- If json.Unmarshal reads what json.Marshal writes of an attribute, Scan of the value that Value
-- sends, as a string to sqlserver and as bytes to the others, restores the attribute, and Value
-- returns the error of json.Marshal.
pub scan-value :
    (unmarshal : Unmarshal) (marshal : Marshal) (j k : JsonSerializable)
    → unmarshal (marshal j.attr).0 k.attr ≡ ok j.attr
    → (scan unmarshal k (value marshal j).0 ≡ ok j.attr)
      × ((value marshal j).1 ≡ (marshal j.attr).1)
unfolding scan value
scan-value unmarshal marshal j k decodes = elim (Bool-cases (j.driver_name == "sqlserver")) [
  | inl same ↦ rw same (decodes, refl)
  | inr different ↦ rw different (decodes, refl)
]
