-- ===== src/Codegen.antt =====
-- codegen/src: the interface description language and what is generated from it.
pub mod Strings
pub mod Parse
pub mod Types
use deravel_os.Prelude.{List, Option}
use deravel_os.Codegen.Strings.{Text}

-- `Type`
mutual
  pub data DrvliType : Type 0 where
    array : DrvliType → DrvliType
    bytes : DrvliType
    const_array : DrvliType → DrvliType
    const_ptr : DrvliType → DrvliType
    i8 : DrvliType
    i16 : DrvliType
    i32 : DrvliType
    i64 : DrvliType
    isize : DrvliType
    never : DrvliType
    option : DrvliType → DrvliType
    process_id : DrvliType
    process_spawner : Text → DrvliType
    ptr : DrvliType → DrvliType
    shared_memory : DrvliType
    struct : Text → DrvliType
    text : DrvliType
    tuple : DrvliTypes → DrvliType
    typed_capability : Text → DrvliType
    u8 : DrvliType
    u16 : DrvliType
    u32 : DrvliType
    u64 : DrvliType
    unknown : Text → DrvliType
    untyped_capability : DrvliType
    untyped_pointer : DrvliType
    usize : DrvliType

  pub data DrvliTypes : Type 0 where
    nil : DrvliTypes
    cons : DrvliType → DrvliTypes → DrvliTypes

abbrev pub Named : Type 0
Named = Text × DrvliType

pub record Struct : Type 0 where
  pub name : Text
  pub members : List Named

pub record Method : Type 0 where
  pub name : Text
  pub args : List Named
  pub return_type : Option DrvliType

pub record Stream : Type 0 where
  pub name : Text
  pub type_ : DrvliType

pub data InterfaceDetails : Type 0 where
  app : List Named → Option Text → InterfaceDetails
  interface : InterfaceDetails

pub record Interface : Type 0 where
  pub name : Text
  pub methods : List Method
  pub streams : List Stream
  pub details : InterfaceDetails

pub record Syscall : Type 0 where
  pub name : Text
  pub args : List Named
  pub return_type : Option DrvliType

pub record Drvli : Type 0 where
  pub interfaces : List Interface
  pub structs : List Struct
  pub syscalls : List Syscall
