-- ===== src/Env/Examples.antt =====
-- Each property of environments on one input.
use jennifer.Env.Kept.{KeptAll, assign_root-KeptAll}
use jennifer.Env.Write.{assign_root}
use jennifer.Value.Types.{runtime_typing}
use jennifer.Common.{
  text_eq, ◌≢◌, ◌⊎◌, List, [], ◌∷◌, codes, refl, ok, ℕ, pos, negsuc, some, true, false,
  if◌then◌else◌, ◌≡◌,
}
use jennifer.Ast.{type_int, DeclType}
use jennifer.Value.{Value, int, bool, null}
use jennifer.Env.{Typing, Binding, get, slot_binding, get_at, get_binding, exists_in_chain}
use jennifer.Env.Write.{Definition, assign, define, assign_at}
use jennifer.Env.Lookup.{get-assign, get-define, assign-refusal, error_of, refusal}
use jennifer.Env.Slots.{get_at-assign_at}
use jennifer.IntFast.{Env}
use jennifer.Examples.{x, x_binding, one_frame, x_stepped}

-- Every value fits every type.
abbrev untyped : Typing Value DeclType
untyped = record { zero_value = null; zero_type = type_int; matches_declared = λ v t. true }

abbrev y : List ℕ
y = codes "y"

-- One name in a map, under a frame with one in a slot.
abbrev y_binding : Binding Value DeclType
y_binding = record {
  value = int (pos 5);
  decl_type = type_int;
  is_const = false;
  slot = negsuc 0;
  name = [];
}

abbrev two_frames : Env
two_frames =
    record { slots = x_binding ∷ []; vars = [] }
    ∷ record { slots = []; vars = (y, y_binding) ∷ [] }
    ∷ []

abbrev y_written : Env
y_written =
    record { slots = x_binding ∷ []; vars = [] }
    ∷ record { slots = []; vars = (y, record y_binding { value = int (pos 6) }) ∷ [] }
    ∷ []

write_y : assign untyped two_frames y (int (pos 6)) ≡ ok y_written
unfolding assign
write_y = refl

get-assign_example : get y_written x ≡ (if text_eq y x then ok (int (pos 6)) else get two_frames x)
get-assign_example = get-assign untyped two_frames y_written y (int (pos 6)) write_y x

assign-refusal_example :
    error_of (assign untyped two_frames (codes "z") (int (pos 6)))
    ≡ refusal untyped (get_binding two_frames (codes "z")) (codes "z") (int (pos 6))
assign-refusal_example = assign-refusal untyped two_frames (codes "z") (int (pos 6))

abbrev z_definition : Definition untyped
z_definition = record { value = int (pos 7); decl_type = type_int; is_const = true }

abbrev z_binding : Binding Value DeclType
z_binding = record {
  value = int (pos 7);
  decl_type = type_int;
  is_const = true;
  slot = negsuc 0;
  name = [];
}

abbrev with_z : Env
with_z =
    record { slots = x_binding ∷ []; vars = (codes "z", z_binding) ∷ [] }
    ∷ record { slots = []; vars = (y, y_binding) ∷ [] }
    ∷ []

define_z : define untyped two_frames (codes "z") z_definition ≡ ok with_z
unfolding define
define_z = refl

get-define_example :
    (exists_in_chain two_frames (codes "z") ≡ false)
    × ((n : List ℕ)
        → get with_z n ≡ (if text_eq (codes "z") n then ok (int (pos 7)) else get two_frames n))
get-define_example = get-define untyped two_frames with_z (codes "z") z_definition define_z

abbrev x_written : Env
x_written =
    record { slots = record x_binding { value = int (pos 1) } ∷ []; vars = [] }
    ∷ record { slots = []; vars = (y, y_binding) ∷ [] }
    ∷ []

x_slot : slot_binding two_frames (pos 0) (pos 0) ≡ some x_binding
unfolding slot_binding
x_slot = refl

write_x : assign_at untyped two_frames (pos 0) (pos 0) x (int (pos 1)) ≡ ok x_written
unfolding assign_at
write_x = refl

get_at-assign_at_example :
    (false ≡ false)
    × (true ≡ true)
    × (get_at x_written (pos 0) (pos 0) x ≡ ok (int (pos 1)))
    × ((e t : ℕ)
        → (0 ≢ e) ⊎ (0 ≢ t)
        → slot_binding x_written (pos e) (pos t) ≡ slot_binding two_frames (pos e) (pos t))
get_at-assign_at_example =
    get_at-assign_at untyped two_frames x_written 0 0 x (int (pos 1)) x_binding x_slot write_x

write_x_root : assign_root runtime_typing one_frame x (pos 0) (pos 0) (int (pos 42)) ≡ ok x_stepped
unfolding assign_root jennifer.Value.Types.matches_declared
write_x_root = refl

assign_root-KeptAll_example : KeptAll runtime_typing one_frame x_stepped
assign_root-KeptAll_example =
    assign_root-KeptAll runtime_typing one_frame x_stepped x (pos 0) (pos 0) (int (pos 42))
      write_x_root
