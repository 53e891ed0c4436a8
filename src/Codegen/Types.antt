-- ===== src/Codegen/Types.antt =====
-- codegen/src/lib.rs: what becomes of a type.
pub mod Fixed
use deravel_os.Prelude.{
  ℕ, ◌-◌, ◌==◌, leb, if◌then◌else◌, ◌&&◌, ◌||◌, Bool, true, false, List, [], ◌∷◌, ◌++◌, map, Option,
  none, some, Exec, done, panic, ◌>>=◌,
}
use deravel_os.Codegen.Strings.{Text, codes, text_eq, push_first}
use deravel_os.Codegen.{
  DrvliType, DrvliTypes, array, bytes, const_array, const_ptr, i8, i16, i32, i64, isize, never,
  option, process_id, process_spawner, ptr, shared_memory, struct, text, tuple, typed_capability,
  u8, u16, u32, u64, unknown, untyped_capability, untyped_pointer, usize, nil, cons, Named, Struct,
  Method, Stream, InterfaceDetails, app, interface, Interface, Syscall, Drvli,
}

abbrev pub names_contain : List Text → Text → Bool
names_contain [] name = false
names_contain (n ∷ ns) name = text_eq n name || names_contain ns name

-- `fix_types`, which makes every name that is not known yet a structure's or an interface's.
unfoldable mutual
  pub fix_type : List Text → List Text → DrvliType → Exec DrvliType
  fix_type interfaces structs (array t) = fix_type interfaces structs t >>= λ u. done (array u)
  fix_type interfaces structs bytes = done bytes
  fix_type interfaces structs (const_array t) =
      fix_type interfaces structs t >>= λ u. done (const_array u)
  fix_type interfaces structs (const_ptr t) =
      fix_type interfaces structs t >>= λ u. done (const_ptr u)
  fix_type interfaces structs (option t) = fix_type interfaces structs t >>= λ u. done (option u)
  fix_type interfaces structs (ptr t) = fix_type interfaces structs t >>= λ u. done (ptr u)
  fix_type interfaces structs (tuple ts) = fix_each interfaces structs ts >>= λ us. done (tuple us)
  fix_type interfaces structs (unknown name) =
      if names_contain structs name
      then done (struct name)
      else if names_contain interfaces name
      then done (typed_capability name)
      else panic
  fix_type interfaces structs t = done t

  pub fix_each : List Text → List Text → DrvliTypes → Exec DrvliTypes
  fix_each interfaces structs nil = done nil
  fix_each interfaces structs (cons t ts) = fix_type interfaces structs t >>= λ u.
      fix_each interfaces structs ts >>= λ us. done (cons u us)

-- A `for` loop that changes every element.
abbrev pub for_each {ℓ} : {A : Type ℓ} → (A → Exec A) → List A → Exec (List A)
for_each f [] = done []
for_each f (x ∷ xs) = do y ← f x; ys ← for_each f xs; done (y ∷ ys)

-- The types of named things, of what may be there, of methods and so on.
module _ (interfaces structs : List Text) where
  unfoldable pub fix_named : Named → Exec Named
  unfolding fix_type
  fix_named (name, t) = do u ← fix_type interfaces structs t; done (name, u)

  unfoldable pub fix_return : Option DrvliType → Exec (Option DrvliType)
  unfolding fix_type
  fix_return none = done none
  fix_return (some t) = do u ← fix_type interfaces structs t; done (some u)

  unfoldable pub fix_method : Method → Exec Method
  unfolding fix_named fix_return
  fix_method m = do
    args ← for_each fix_named m.args
    return_type ← fix_return m.return_type
    done (record m { args = args; return_type = return_type })

  unfoldable pub fix_stream : Stream → Exec Stream
  unfolding fix_type
  fix_stream s = do t ← fix_type interfaces structs s.type_; done (record s { type_ = t })

  unfoldable pub fix_details : InterfaceDetails → Exec InterfaceDetails
  unfolding fix_named
  fix_details (app args implements) = do
    fixed ← for_each fix_named args
    done (app fixed implements)
  fix_details interface = done interface

  unfoldable pub fix_interface : Interface → Exec Interface
  unfolding fix_method fix_stream fix_details
  fix_interface i = do
    methods ← for_each fix_method i.methods
    streams ← for_each fix_stream i.streams
    details ← fix_details i.details
    done (record i { methods = methods; streams = streams; details = details })

  unfoldable pub fix_struct : Struct → Exec Struct
  unfolding fix_named
  fix_struct s = do members ← for_each fix_named s.members; done (record s { members = members })

  unfoldable pub fix_syscall : Syscall → Exec Syscall
  unfolding fix_named fix_return
  fix_syscall s = do
    args ← for_each fix_named s.args
    return_type ← fix_return s.return_type
    done (record s { args = args; return_type = return_type })

unfoldable pub fix_drvli : List Text → List Text → Drvli → Exec Drvli
unfolding fix_interface fix_struct fix_syscall
fix_drvli interfaces structs d = do
  is ← for_each (fix_interface interfaces structs) d.interfaces
  ss ← for_each (fix_struct interfaces structs) d.structs
  cs ← for_each (fix_syscall interfaces structs) d.syscalls
  done (record { interfaces = is; structs = ss; syscalls = cs })

unfoldable pub rust_escape_name : Text → Text
rust_escape_name name =
    if text_eq name (codes "type")
    then codes "type_"
    else if text_eq name (codes "yield")
    then codes "yield_"
    else name

-- `split` at a character.
abbrev pub split_at : ℕ → Text → List Text
split_at c [] = [] ∷ []
split_at c (d ∷ s) = let rest = split_at c s in if d == c then [] ∷ rest else push_first d rest

to_ascii_uppercase : ℕ → ℕ
to_ascii_uppercase c = if leb b'a' c && leb c b'z' then c - 32 else c

-- An empty segment is out of bounds.
camel_segments : List Text → Exec Text
unfolding to_ascii_uppercase
camel_segments [] = done []
camel_segments ([] ∷ segments) = panic
camel_segments ((c ∷ s) ∷ segments) = do
  rest ← camel_segments segments
  done (to_ascii_uppercase c ∷ s ++ rest)

unfoldable pub camel_case : Text → Exec Text
unfolding camel_segments
camel_case name = camel_segments (split_at b'_' name)

unfoldable pub split_syscall_arg : DrvliType → List Named
split_syscall_arg (array inner) = (codes "_ptr", ptr inner) ∷ (codes "_size", usize) ∷ []
split_syscall_arg (const_array inner) =
    (codes "_ptr", const_ptr inner) ∷ (codes "_size", usize) ∷ []
split_syscall_arg t = ([], t) ∷ []

unfoldable pub split_syscall_ret : DrvliType → DrvliTypes
split_syscall_ret (tuple inner) = inner
split_syscall_ret t = cons t nil

pub data RustTypeCtx : Type 0 where
  arg : RustTypeCtx
  member : RustTypeCtx
  normal_ret : RustTypeCtx
  grantable_ret : RustTypeCtx
  syscall_arg : RustTypeCtx
  syscall_kernel_arg : RustTypeCtx
  syscall_ret : RustTypeCtx
  stream : RustTypeCtx

abbrev surround : Text → Text → Exec Text → Exec Text
surround before after inner = do t ← inner; done (before ++ t ++ after)

-- `Type::rust`; the combinations left out are unimplemented.
unfoldable pub rust : DrvliType → RustTypeCtx → Exec Text
unfolding camel_case
rust (array inner) syscall_kernel_arg =
    surround (codes "UserPtr<[") (codes "]>") (rust inner syscall_kernel_arg)
rust (const_array inner) syscall_kernel_arg =
    surround (codes "UserPtr<[") (codes "]>") (rust inner syscall_kernel_arg)
rust bytes arg = done (codes "&[u8]")
rust bytes normal_ret = done (codes "Vec<u8>")
rust bytes grantable_ret = done (codes "Vec<u8>")
rust (const_ptr inner) ctx = surround (codes "*const ") [] (rust inner ctx)
rust i8 ctx = done (codes "i8")
rust i16 ctx = done (codes "i16")
rust i32 ctx = done (codes "i32")
rust i64 ctx = done (codes "i64")
rust isize ctx = done (codes "isize")
rust never ctx = done (codes "!")
rust (option inner) ctx = surround (codes "Option<") (codes ">") (rust inner ctx)
rust (ptr inner) syscall_kernel_arg =
    surround (codes "UserPtr<") (codes ">") (rust inner syscall_kernel_arg)
rust (ptr inner) ctx = surround (codes "*mut ") [] (rust inner ctx)
rust process_id syscall_ret = done (codes "ProcessId")
rust (process_spawner name) ctx =
    surround (codes "Capability<") (codes "Spawner>") (camel_case name)
rust shared_memory ctx = done (codes "Capability<SharedMemory>")
rust (struct name) ctx = camel_case name
rust (typed_capability name) ctx = surround (codes "Capability<") (codes ">") (camel_case name)
rust text arg = done (codes "&str")
rust text normal_ret = done (codes "String")
rust text grantable_ret = done (codes "String")
rust u8 ctx = done (codes "u8")
rust u16 ctx = done (codes "u16")
rust u32 ctx = done (codes "u32")
rust u64 ctx = done (codes "u64")
rust untyped_capability ctx = done (codes "RawCapability")
rust untyped_pointer ctx = done (codes "*mut ()")
rust usize ctx = done (codes "usize")
rust t ctx = panic

unfoldable pub rust_borrow_or_copy : DrvliType → Text
rust_borrow_or_copy text = codes "&"
rust_borrow_or_copy bytes = codes "&"
rust_borrow_or_copy t = []
