-- ===== src/Json.antt =====
-- JSON values, as `JSON.parse` returns them: the `unknown` of payloads and metadata. A number is
-- kept as its text. An object that the program itself reads is an association list (`Object`).
use bfrost.Prelude.{String, Bool, List}

mutual
  pub data Json : Type 0 where
    null : Json
    boolean : Bool → Json
    number : String → Json
    text : String → Json
    array : Items → Json
    object : Fields → Json

  pub data Items : Type 0 where
    nil : Items
    item : Json → Items → Items

  pub data Fields : Type 0 where
    done : Fields
    field : String → Json → Fields → Fields

-- `Record<string, unknown>`.
abbrev pub Object : Type 0
Object = List (String × Json)

-- `Record<string, Record<string, unknown>>`: a namespace for each consumer.
abbrev pub Namespaces : Type 0
Namespaces = List (String × Object)
