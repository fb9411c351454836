-- ===== src/Taint.antt =====
-- internal/cpg_engine/taint.go: the taint taxonomy of each language. The tables are in the children
-- named for the languages, the functions over them in Lookup and Majority.
pub mod Java
pub mod Python
pub mod Js
pub mod Go
pub mod Lookup
pub mod Majority
pub mod Shadow
use zero_trust_sh.Prelude.{List}
use zero_trust_sh.Prelude.Text.{Bytes}

-- The four constants, and any other text.
pub data Language : Type 0 where
  java python js go unsupported : Language

-- The constants of SinkKind in internal/cpg_engine/interface.go.
pub data SinkKind : Type 0 where
  sql command deserialization file_write template redirect eval unknown : SinkKind

pub record SourceDef : Type 0 where
  pub name : Bytes
  pub kind : Bytes

pub record SinkDef : Type 0 where
  pub name : Bytes
  pub kind : SinkKind
  pub cwe : Bytes

pub record SanitizerDef : Type 0 where
  pub name : Bytes

abbrev pub source : Bytes → Bytes → SourceDef
source name kind = record { name = name; kind = kind }

abbrev pub sink : Bytes → SinkKind → Bytes → SinkDef
sink name kind cwe = record { name = name; kind = kind; cwe = cwe }

abbrev pub sanitizer : Bytes → SanitizerDef
sanitizer name = record { name = name }

pub record TaintConfig : Type 0 where
  pub language : Language
  pub sources : List SourceDef
  pub sinks : List SinkDef
  pub constructor_sinks : List SinkDef
  pub sanitizers : List SanitizerDef
