-- ===== src/See/Board.antt =====
-- see/src/main.rs, `parse_board_info`: what the SEE reads in the device tree. The crate that walks the tree
-- hands its objects to the callback `visit`.
use rustsbi_d.Base.{
  ℕ, ◌+◌, ◌≤◌, ◌≡◌, refl, sym, ap, ◌∙◌, inl, inr, Bool, true, false, ◌&&◌, Option, none, some, List,
  [], ◌∷◌, arith, leb, if◌then◌else◌, Bool-cases, Option-cases, length, u64, ◌>>=◌,
}
use rustsbi_d.Base.{le→leb, leb→le}
use rustsbi_d.Common.Dtb.{
  DtbObj, sub_node, model_property, reg_property, property, WalkOperation, step_into, step_over,
  step_out, terminate, starts_with, memory_name, HeaderError, is_version_16, Dtb, OnlyCalls,
}

-- With the local variable `any`; the text `model` stands in a buffer of 128 bytes.
pub record BoardInfo : Type 0 where
  pub any : Bool
  pub dtb : ℕ × ℕ
  pub model : List ℕ
  pub mem : ℕ × ℕ

-- The closure given to `walk`; `none` is the panic of a model longer than the buffer, or of an empty `reg`.
unfoldable pub visit : DtbObj → BoardInfo → Option (WalkOperation × BoardInfo)
visit (sub_node root name) b =
    some (if root && starts_with memory_name name then step_into else step_over, b)
visit (model_property true bytes) b =
    if leb (length bytes) 128
    then some (if b.any then terminate else step_over, record b { any = true; model = bytes })
    else none
visit (model_property false bytes) b = some (step_over, b)
visit (reg_property name []) b = if starts_with memory_name name then none else some (step_over, b)
visit (reg_property name (range ∷ ranges)) b =
    if starts_with memory_name name
    then some (if b.any then terminate else step_out, record b { any = true; mem = range })
    else some (step_over, b)
visit property b = some (step_over, b)

-- The model and the memory are found in whichever order the tree has them: the walk goes on after the
-- first and ends at the second, with the same information, for a model of at most 128 bytes.
pub visit-either_order :
    (bytes name : List ℕ) (range : ℕ × ℕ) (ranges : List (ℕ × ℕ)) (b : BoardInfo)
    → length bytes ≤ 128
    → starts_with memory_name name ≡ true
    → b.any ≡ false
    → let found : BoardInfo = record { any = true; dtb = b.dtb; model = bytes; mem = range } in
      let m = model_property true bytes in
      let r = reg_property name (range ∷ ranges) in
      (b1 : BoardInfo) × (b2 : BoardInfo) × (visit m b ≡ some (step_over, b1))
      × (visit r b1 ≡ some (terminate, found))
      × (visit r b ≡ some (step_out, b2))
      × (visit m b2 ≡ some (terminate, found))
unfolding visit
visit-either_order bytes name range ranges b short named fresh =
    let l = le→leb (length bytes) 128 short in
    rw (l, named, fresh)
      (
        record b { any = true; model = bytes },
        record b { any = true; mem = range },
        refl,
        refl,
        refl,
        refl,
      )

-- Before the walk.
abbrev pub blank : ℕ → Dtb → BoardInfo
blank addr t = record {
  any = false;
  dtb = (addr, u64 (addr + t.total_size));
  model = [];
  mem = (0, 0);
}

abbrev pub board_of : ℕ → Option Dtb → Option (Option BoardInfo)
board_of addr none = some none
board_of addr (some t) = do i ← t.walk visit (blank addr t); some (some i)

-- The inner `none` is a head that is refused, the outer one a panic of the walk.
unfoldable pub parse_board_info :
    (ℕ → (HeaderError → Bool) → Option Dtb) → ℕ → Option (Option BoardInfo)
parse_board_info from_raw addr = board_of addr (from_raw addr is_version_16)

-- The range of the tree is not changed, and the model fits its buffer.
abbrev pub Fits : ℕ × ℕ → BoardInfo → Type 0
Fits range i = (i.dtb ≡ range) × (length i.model ≤ 128)

-- What a call that returns leaves behind.
left_behind : BoardInfo → Option (WalkOperation × BoardInfo) → BoardInfo
left_behind b none = b
left_behind b (some r) = r.1

abbrev returned : WalkOperation → BoardInfo → Option (WalkOperation × BoardInfo)
returned op b = some (op, b)

Fits-of :
    (range : ℕ × ℕ) (op op' : WalkOperation) (b b' : BoardInfo)
    → Fits range b
    → returned op' b ≡ returned op b'
    → Fits range b'
unfolding left_behind
Fits-of range op op' b b' fits e =
    let same : b ≡ b' = ap (left_behind b) e in
    (ap (λ x. x.dtb) (sym same) ∙ fits.0, rw (← same) fits.1)

visit-Fits :
    (range : ℕ × ℕ) (obj : DtbObj) (op : WalkOperation) (b b' : BoardInfo)
    → Fits range b
    → visit obj b ≡ some (op, b')
    → Fits range b'
unfolding visit
visit-Fits range (sub_node root name) op b b' fits e =
    Fits-of range op (if root && starts_with memory_name name then step_into else step_over) b b'
      fits e
visit-Fits range (model_property true bytes) op b b' fits e =
    elim (Bool-cases (leb (length bytes) 128)) [
      | inl l ↦
          Fits-of range op (if b.any then terminate else step_over)
            (record b { any = true; model = bytes }) b' (fits.0, leb→le (length bytes) 128 l)
            (rw l at e)
      | inr l ↦ absurd (cc (rw l at e))
    ]
visit-Fits range (model_property false bytes) op b b' fits e =
    Fits-of range op step_over b b' fits e
visit-Fits range (reg_property name []) op b b' fits e =
    elim (Bool-cases (starts_with memory_name name)) [
      | inl l ↦ absurd (cc (rw l at e))
      | inr l ↦ Fits-of range op step_over b b' fits (rw l at e)
    ]
visit-Fits range (reg_property name (r ∷ rs)) op b b' fits e =
    elim (Bool-cases (starts_with memory_name name)) [
      | inl l ↦
          Fits-of range op (if b.any then terminate else step_out)
            (record b { any = true; mem = r }) b' fits (rw l at e)
      | inr l ↦ Fits-of range op step_over b b' fits (rw l at e)
    ]
visit-Fits range property op b b' fits e = Fits-of range op step_over b b' fits e

found_or : BoardInfo → Option (Option BoardInfo) → BoardInfo
found_or b none = b
found_or b (some none) = b
found_or b (some (some i)) = i

-- Over a tree whose walk only calls its callback, what `parse_board_info` finds has the range of the tree, from
-- the address that it was given, and a model of at most 128 bytes.
pub parse_board_info-Fits :
    (from_raw : ℕ → (HeaderError → Bool) → Option Dtb) (addr : ℕ) (t : Dtb) (i : BoardInfo)
    → OnlyCalls t
    → from_raw addr is_version_16 ≡ some t
    → parse_board_info from_raw addr ≡ some (some i)
    → Fits (addr, u64 (addr + t.total_size)) i
unfolding parse_board_info found_or
parse_board_info-Fits from_raw addr t i only found e =
    let range : ℕ × ℕ = (addr, u64 (addr + t.total_size)) in
    elim (Option-cases (t.walk visit (blank addr t))) [
      | inl w ↦ absurd (cc (rw (found, w) at e))
      | inr (j, w) ↦
          let same : j ≡ i = ap (found_or j) (rw (found, w) at e) in
          only BoardInfo visit (Fits range) (λ obj op b b'. visit-Fits range obj op b b')
            (blank addr t) i (refl, omega arith) (w ∙ ap some same)
    ]
