-- ===== src/Codegen/Parse/Printing.antt =====
-- The texts that codegen/src/parse.rs is given, printed from what it should make of them.
use deravel_os.Prelude.{◌≡◌, List, [], ◌∷◌, ◌++◌, false, Option, none, some}
use deravel_os.Codegen.{
  DrvliType, array, bytes, const_array, const_ptr, i8, i16, i32, i64, isize, never, option,
  process_id, process_spawner, ptr, shared_memory, struct, text, tuple, typed_capability, u8, u16,
  u32, u64, unknown, untyped_capability, untyped_pointer, usize, Named,
}
use deravel_os.Codegen.Strings.{Text, codes, contains}
use deravel_os.Codegen.Parse.{word_type}

abbrev pub print : DrvliType → Text
print (array t) = codes "array " ++ print t
print bytes = codes "bytes"
print (const_array t) = codes "const_array " ++ print t
print (const_ptr t) = codes "const_ptr " ++ print t
print i8 = codes "i8"
print i16 = codes "i16"
print i32 = codes "i32"
print i64 = codes "i64"
print isize = codes "isize"
print never = codes "never"
print (option t) = codes "option " ++ print t
print process_id = codes "pid"
print (process_spawner name) = codes "process_spawner " ++ name
print (ptr t) = codes "ptr " ++ print t
print shared_memory = codes "shared_memory"
print (struct name) = name
print text = codes "text"
print (tuple ts) = []
print (typed_capability name) = name
print u8 = codes "u8"
print u16 = codes "u16"
print u32 = codes "u32"
print u64 = codes "u64"
print (unknown name) = name
print untyped_capability = codes "capability"
print untyped_pointer = codes "ptr"
print usize = codes "usize"

-- A name has neither a comma nor a closing parenthesis.
abbrev pub IsName : Text → Type 0
IsName name = (contains b',' name ≡ false) × (contains b')' name ≡ false)

-- A type as it is written, but for tuples; a name that it ends in is one word and no keyword.
abbrev pub IsPlain : DrvliType → Type 0
IsPlain (array t) = IsPlain t
IsPlain (const_array t) = IsPlain t
IsPlain (const_ptr t) = IsPlain t
IsPlain (option t) = IsPlain t
IsPlain (process_spawner name) = IsName name
IsPlain (ptr t) = IsPlain t
IsPlain (struct name) = ⊥
IsPlain (tuple ts) = ⊥
IsPlain (typed_capability name) = ⊥
IsPlain (unknown name) =
    IsName name × (contains b' ' name ≡ false) × (word_type name ≡ unknown name)
IsPlain t = Unit

abbrev pub print_named : Named → Text
print_named (name, t) = name ++ b' ' ∷ print t

-- With `, ` between them.
abbrev pub join : List Text → Text
join [] = []
join (p ∷ []) = p
join (p ∷ q ∷ ps) = p ++ b',' ∷ b' ' ∷ join (q ∷ ps)

abbrev pub print_each : List Named → List Text
print_each [] = []
print_each (a ∷ rest) = print_named a ∷ print_each rest

abbrev pub print_return : Option DrvliType → Text
print_return none = []
print_return (some t) = b' ' ∷ print t

-- `name(argument type, argument type) type`
abbrev pub print_function : Text → List Named → Option DrvliType → Text
print_function name args return_type =
    name ++ b'(' ∷ (join (print_each args) ++ b')' ∷ print_return return_type)

abbrev pub IsPlainNamed : Named → Type 0
IsPlainNamed (name, t) = IsName name × (contains b' ' name ≡ false) × IsPlain t

abbrev pub AllPlain : List Named → Type 0
AllPlain [] = Unit
AllPlain (a ∷ rest) = IsPlainNamed a × AllPlain rest

abbrev pub IsPlainReturn : Option DrvliType → Type 0
IsPlainReturn none = Unit
IsPlainReturn (some t) = IsPlain t
