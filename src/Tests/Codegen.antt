-- ===== src/Tests/Codegen.antt =====
-- The theorems on codegen/src, at declarations as its users write them.
use deravel_os.Prelude.{ℕ, ◌≡◌, refl, ◌⊎◌, true, false, [], ◌∷◌, none, some, done, diverge}
use deravel_os.Codegen.{DrvliType, const_array, option, u8, u32, usize, unknown, interface}
use deravel_os.Codegen.Strings.{codes}
use deravel_os.Codegen.Parse.{
  parse_type, parse_type_within, parse_syscall, parse_method, parse_drvli,
}
use deravel_os.Codegen.Parse.Commas.{spaced}
use deravel_os.Codegen.Parse.Ends.{parse_type_lem}
use deravel_os.Codegen.Parse.Printing.{print_function}
use deravel_os.Codegen.Parse.RoundTrip.{parse_function-print}

parse_type_lem_example :
    ((spaced (codes "u8,u16") ≡ true) × ((t : DrvliType) × (parse_type (codes "u8,u16") ≡ done t)))
    ⊎ ((spaced (codes "u8,u16") ≡ false)
        × ((depth : ℕ) → parse_type_within depth (codes "u8,u16") ≡ diverge))
parse_type_lem_example = parse_type_lem (codes "u8,u16")

parse_function-print_example :
    (parse_syscall (
        print_function
          (codes "ipc_call")
          ((codes "cap", unknown (codes "window")) ∷ (codes "args", const_array u8) ∷ [])
          (some (option usize)))
      ≡ done (record {
        name = codes "ipc_call";
        args = (codes "cap", unknown (codes "window")) ∷ (codes "args", const_array u8) ∷ [];
        return_type = some (option usize);
      }))
    × (parse_method (
          print_function
            (codes "ipc_call")
            ((codes "cap", unknown (codes "window")) ∷ (codes "args", const_array u8) ∷ [])
            (some (option usize)))
        ≡ done (record {
          name = codes "ipc_call";
          args = (codes "cap", unknown (codes "window")) ∷ (codes "args", const_array u8) ∷ [];
          return_type = some (option usize);
        }))
parse_function-print_example =
    parse_function-print (codes "ipc_call")
      ((codes "cap", unknown (codes "window")) ∷ (codes "args", const_array u8) ∷ [])
      (some (option usize)) refl
      ((((refl, refl), refl, ((refl, refl), refl, refl))), (((refl, refl), refl, tt), tt)) tt

-- The structure that follows the interface without an empty line between is lost.
swallowed :
    parse_drvli (
      codes
        "interface window\n    func draw()\nstruct event\n    code u16\n\nstruct info\n    min u32\n")
    ≡ done (record {
      interfaces =
          record {
            name = codes "window";
            methods = record { name = codes "draw"; args = []; return_type = none } ∷ [];
            streams = [];
            details = interface;
          }
          ∷ [];
      structs = record { name = codes "info"; members = (codes "min", u32) ∷ [] } ∷ [];
      syscalls = [];
    })
unfolding parse_drvli
swallowed = refl
