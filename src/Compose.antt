-- ===== src/Compose.antt =====
-- api/internal/compose/preflight.go: the lint that every compose document passes before a deploy. Here
-- is the document as yaml.v3 decodes it into `any`. A map is the list of its fields, with distinct
-- keys in the order of the keys, which is the order in which fmt prints them.
pub mod Strings
pub mod Views
pub mod Tables
pub mod Preflight
pub mod Spelled
pub mod Host
pub mod Escapes
pub mod Samples
mod Tests
use vac.Prelude.{ℤ, Text, Bool}

mutual
  pub data Value : Type 0 where
    null : Value
    text : Text → Value
    int : ℤ → Value
    -- int(t) of a float64, and how fmt prints it.
    float : ℤ → Text → Value
    bool : Bool → Value
    -- A value of another Go type, by how fmt prints it.
    go_value : Text → Value
    seq : Items → Value
    mapping : Fields → Value

  pub data Items : Type 0 where
    nil : Items
    item : Value → Items → Items

  pub data Fields : Type 0 where
    no_field : Fields
    field : Text → Value → Fields → Fields
