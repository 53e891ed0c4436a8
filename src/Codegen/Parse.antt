-- ===== src/Codegen/Parse.antt =====
-- codegen/src/parse.rs
pub mod Commas
pub mod Ends
pub mod Printing
pub mod RoundTrip
use deravel_os.Prelude.{
  ℕ, zero, suc, ◌+◌, ◌==◌, if◌then◌else◌, Bool, true, false, List, [], ◌∷◌, ◌++◌, map, length,
  Option, none, some, Exec, done, panic, diverge, ◌>>=◌, unwrap,
}
use deravel_os.Codegen.Strings.{
  Text, codes, text_eq, is_empty, strip_prefix, contains, split_once, split_commas, lines,
  split_name, trim,
}
use deravel_os.Codegen.{
  DrvliType, DrvliTypes, array, bytes, const_array, const_ptr, i8, i16, i32, i64, isize, never,
  option, process_id, process_spawner, ptr, shared_memory, text, tuple, u8, u16, u32, u64, unknown,
  untyped_capability, untyped_pointer, usize, nil, cons, Named, Struct, Method, Stream,
  InterfaceDetails, app, interface, Interface, Syscall, Drvli,
}
use deravel_os.Codegen.Types.{fix_drvli}

-- The types that are one word.
abbrev pub word_type : Text → DrvliType
word_type src =
    if text_eq src (codes "bytes")
    then bytes
    else if text_eq src (codes "capability")
    then untyped_capability
    else if text_eq src (codes "i8")
    then i8
    else if text_eq src (codes "i16")
    then i16
    else if text_eq src (codes "i32")
    then i32
    else if text_eq src (codes "i64")
    then i64
    else if text_eq src (codes "isize")
    then isize
    else if text_eq src (codes "never")
    then never
    else if text_eq src (codes "pid")
    then process_id
    else if text_eq src (codes "ptr")
    then untyped_pointer
    else if text_eq src (codes "shared_memory")
    then shared_memory
    else if text_eq src (codes "text")
    then text
    else if text_eq src (codes "u8")
    then u8
    else if text_eq src (codes "u16")
    then u16
    else if text_eq src (codes "u32")
    then u32
    else if text_eq src (codes "u64")
    then u64
    else if text_eq src (codes "usize")
    then usize
    else unknown src

-- The types that begin with a keyword; `parse` is the call of `parse_type` on what follows it.
abbrev pub prefixed_type : (Text → Exec DrvliType) → Text → Exec DrvliType
prefixed_type parse src = elim (strip_prefix (codes "array ") src) [
  | some inner ↦ parse inner >>= λ t. done (array t)
  | none ↦ elim (strip_prefix (codes "const_array ") src) [
    | some inner ↦ parse inner >>= λ t. done (const_array t)
    | none ↦ elim (strip_prefix (codes "const_ptr ") src) [
      | some inner ↦ parse inner >>= λ t. done (const_ptr t)
      | none ↦ elim (strip_prefix (codes "option ") src) [
        | some inner ↦ parse inner >>= λ t. done (option t)
        | none ↦ elim (strip_prefix (codes "process_spawner ") src) [
          | some name ↦ done (process_spawner name)
          | none ↦ elim (strip_prefix (codes "ptr ") src) [
            | some inner ↦ parse inner >>= λ t. done (ptr t)
            | none ↦ done (word_type src)
          ]
        ]
      ]
    ]
  ]
]

abbrev pub parse_types : (Text → Exec DrvliType) → List Text → Exec DrvliTypes
parse_types parse [] = done nil
parse_types parse (s ∷ rest) = do t ← parse s; ts ← parse_types parse rest; done (cons t ts)

-- `parse_type` with a bound on the depth of its recursion.
unfoldable pub parse_type_within : ℕ → Text → Exec DrvliType
parse_type_within zero src = diverge
parse_type_within (suc depth) src = elim (contains b',' src) [
  | true ↦ do ts ← parse_types (parse_type_within depth) (split_commas src); done (tuple ts)
  | false ↦ prefixed_type (parse_type_within depth) src
]

-- No call goes deeper than the text is long, if it ends at all.
unfoldable pub parse_type : Text → Exec DrvliType
unfolding parse_type_within
parse_type src = parse_type_within (suc (length src)) src

unfoldable pub parse_named : Text → Exec Named
unfolding parse_type
parse_named arg = do
  words ← unwrap (split_once b' ' arg)
  type_ ← parse_type words.1
  done (words.0, type_)

-- The arguments that are not empty.
unfoldable pub parse_each : List Text → Exec (List Named)
unfolding parse_named
parse_each [] = done []
parse_each (arg ∷ rest) =
    let others = parse_each rest in
    if is_empty arg then others else do first ← parse_named arg; more ← others; done (first ∷ more)

unfoldable pub parse_args : Text → Exec (List Named)
unfolding parse_each
parse_args src = parse_each (split_commas src)

unfoldable pub parse_return : Text → Exec (Option DrvliType)
unfolding parse_type
parse_return line = elim (strip_prefix (codes " ") line) [
  | none ↦ done none
  | some src ↦ do type_ ← parse_type src; done (some type_)
]

unfoldable pub parse_method : Text → Exec Method
unfolding parse_args parse_return
parse_method line = do
  head ← unwrap (split_once b'(' line)
  tail ← unwrap (split_once b')' head.1)
  args ← parse_args tail.0
  return_type ← parse_return tail.1
  done (record { name = head.0; args = args; return_type = return_type })

unfoldable pub parse_stream : Text → Exec Stream
unfolding parse_type
parse_stream line = do
  words ← unwrap (split_once b' ' line)
  type_ ← parse_type words.1
  done (record { name = words.0; type_ = type_ })

unfoldable pub parse_syscall : Text → Exec Syscall
unfolding parse_args parse_return
parse_syscall line = do
  head ← unwrap (split_once b'(' line)
  tail ← unwrap (split_once b')' head.1)
  args ← parse_args tail.0
  return_type ← parse_return tail.1
  done (record { name = head.0; args = args; return_type = return_type })

-- The lines of an interface from the front of the rest, and what is left: the line that ends the
-- interface is taken too.
unfoldable pub interface_body :
    List Text → List Method → List Stream → Exec (List Method × List Stream × List Text)
unfolding parse_method parse_stream
interface_body [] methods streams = done (methods, streams, [])
interface_body (line ∷ rest) methods streams = elim (strip_prefix (codes "    ") line) [
  | none ↦ done (methods, streams, rest)
  | some body ↦ elim (strip_prefix (codes "func ") body) [
    | some func ↦ do m ← parse_method func; interface_body rest (methods ++ m ∷ []) streams
    | none ↦ elim (strip_prefix (codes "stream ") body) [
      | some src ↦ do s ← parse_stream src; interface_body rest methods (streams ++ s ∷ [])
      | none ↦ interface_body rest methods streams
    ]
  ]
]

unfoldable pub parse_interface : Text → List Text → InterfaceDetails → Exec (Interface × List Text)
unfolding interface_body
parse_interface name rest details = do
  body ← interface_body rest [] []
  done (record { name = name; methods = body.0; streams = body.1; details = details }, body.2)

-- The members of a structure; the line that ends it is left.
unfoldable pub struct_members : List Text → List Named → Exec (List Named × List Text)
unfolding parse_named
struct_members [] members = done (members, [])
struct_members (line ∷ rest) members = elim (strip_prefix (codes "    ") line) [
  | none ↦ done (members, line ∷ rest)
  | some src ↦ do m ← parse_named src; struct_members rest (members ++ m ∷ [])
]

-- The arguments of an `app`, if there are any, and what follows them.
unfoldable pub app_args : Text → Exec (List Named × Text)
unfolding parse_args
app_args line = elim (strip_prefix (codes "(") line) [
  | none ↦ done ([], line)
  | some src ↦ do
    parts ← unwrap (split_once b')' src)
    args ← parse_args parts.0
    done (args, parts.1)
]

-- The heading of an `app`, after the keyword.
unfoldable pub parse_app : Text → Exec (Text × InterfaceDetails)
unfolding app_args
parse_app line = do
  let heading = split_name line
  split ← app_args heading.1
  done (heading.0, app split.0 (strip_prefix (codes "implements ") (trim split.1)))

-- Every round takes a line, so that there are at most as many as lines.
unfoldable pub parse_items : ℕ → List Text → Drvli → Exec Drvli
unfolding struct_members parse_app parse_interface parse_syscall
parse_items rounds [] d = done d
parse_items zero (line ∷ rest) d = diverge
parse_items (suc rounds) (line ∷ rest) d = elim (strip_prefix (codes "struct ") line) [
  | some name ↦ do
    s ← struct_members rest []
    parse_items rounds s.1
        (record d { structs = d.structs ++ record { name = name; members = s.0 } ∷ [] })
  | none ↦ elim (strip_prefix (codes "app ") line) [
    | some heading ↦ do
      a ← parse_app heading
      i ← parse_interface a.0 rest a.1
      parse_items rounds i.1 (record d { interfaces = d.interfaces ++ i.0 ∷ [] })
    | none ↦ elim (strip_prefix (codes "interface ") line) [
      | some name ↦ do
        i ← parse_interface name rest interface
        parse_items rounds i.1 (record d { interfaces = d.interfaces ++ i.0 ∷ [] })
      | none ↦ elim (strip_prefix (codes "syscall ") line) [
        | some src ↦ do
          s ← parse_syscall src
          parse_items rounds rest (record d { syscalls = d.syscalls ++ s ∷ [] })
        | none ↦ parse_items rounds rest d
      ]
    ]
  ]
]

unfoldable pub parse_drvli : Text → Exec Drvli
unfolding parse_items fix_drvli
parse_drvli src = do
  d ←
      parse_items (length (lines src)) (lines src)
        (record { interfaces = []; structs = []; syscalls = [] })
  fix_drvli (map (λ i. i.name) d.interfaces) (map (λ s. s.name) d.structs) d
