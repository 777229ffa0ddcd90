-- ===== src/Common/Dtb.antt =====
-- What the boot stages use of the crate dtb-walker, which hands them the objects of the device tree, and the
-- callback of `parse_memory_size` in common/src/memory.rs. The crate is a parameter: `from_raw` finds a tree at
-- an address, with the errors of its head that the caller lets pass.
use rustsbi_d.Base.{
  ℕ, ◌-◌, ◌≡◌, Bool, true, false, ◌&&◌, Option, none, some, List, [], ◌∷◌, ◌==◌, if◌then◌else◌,
  ◌>>=◌,
}

-- What the walker finds: a node below the path, the model, a `reg` with its ranges, or another property.
-- The flag says whether the path is the root; the names are bytes.
pub data DtbObj : Type 0 where
  sub_node : Bool → List ℕ → DtbObj
  model_property : Bool → List ℕ → DtbObj
  reg_property : List ℕ → List (ℕ × ℕ) → DtbObj
  property : DtbObj

pub data WalkOperation : Type 0 where
  step_into step_over step_out terminate : WalkOperation

abbrev pub starts_with : List ℕ → List ℕ → Bool
starts_with [] name = true
starts_with (p ∷ ps) [] = false
starts_with (p ∷ ps) (c ∷ cs) = (p == c) && starts_with ps cs

abbrev pub memory_name : List ℕ
memory_name = b'm' ∷ b'e' ∷ b'm' ∷ b'o' ∷ b'r' ∷ b'y' ∷ []

-- The closure of `parse_memory_size`: the size is the length of the first range of the memory; `none` is the
-- panic of an empty `reg`.
unfoldable pub visit_size : DtbObj → ℕ → Option (WalkOperation × ℕ)
visit_size (sub_node root name) ans =
    some (if root && starts_with memory_name name then step_into else step_over, ans)
visit_size (reg_property name []) ans =
    if starts_with memory_name name then none else some (step_over, ans)
visit_size (reg_property name (range ∷ ranges)) ans =
    if starts_with memory_name name
    then some (terminate, range.1 - range.0)
    else some (step_over, ans)
visit_size (model_property root bytes) ans = some (step_over, ans)
visit_size property ans = some (step_over, ans)

-- What can be wrong with the head of a tree; the sources name one of the errors.
pub data HeaderError : Type 0 where
  last_comp_version : ℕ → HeaderError
  other_error : ℕ → HeaderError

-- `matches!(e, LastCompVersion(16))`
abbrev pub is_version_16 : HeaderError → Bool
is_version_16 (last_comp_version n) = n == 16
is_version_16 (other_error n) = false

-- A tree: its size, and the walk with a callback on a state of the caller's; `none` is a panic of the callback.
pub record Dtb : Type 1 where
  pub total_size : ℕ
  pub walk : {S : Type 0} → (DtbObj → S → Option (WalkOperation × S)) → S → Option S

-- The walk does nothing to the state but call the callback: what every call keeps, the walk keeps.
abbrev pub OnlyCalls : Dtb → Type 1
OnlyCalls t =
    (S : Type 0) (visit : DtbObj → S → Option (WalkOperation × S)) (P : S → Type 0)
    → ((obj : DtbObj) (op : WalkOperation) (s s' : S) → P s → visit obj s ≡ some (op, s') → P s')
    → (s s' : S) → P s
    → t.walk visit s ≡ some s'
    → P s'

-- `none` is the `unwrap` of a tree that is not found, or a panic of the walk.
unfoldable pub parse_memory_size : (ℕ → (HeaderError → Bool) → Option Dtb) → ℕ → Option ℕ
parse_memory_size from_raw ptr = do t ← from_raw ptr is_version_16; t.walk visit_size 0
