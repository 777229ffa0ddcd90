-- ===== src/Spl/Flash/Over.antt =====
-- The flash driver over two buses of which one simulates the other.
use rustsbi_d.Base.{
  ℕ, zero, suc, ◌+◌, ◌-◌, ◌≤◌, min, bit_and, ◌≡◌, refl, ap, inl, inr, some, List, [], ◌∷◌, ◌++◌,
  arith, ◌==◌, Bool-cases, length, u32, ◌>>=◌,
}
use rustsbi_d.Base.Both.{Both, neither, both, Both-bind}
use mathlib.Core.Path.{ap₂}
use rustsbi_d.Spl.Flash.{
  read_id, cmd_read_id, first_or, get_feature, wait, read_part, copy_into, page_command,
  cache_command, cmd_get_feature, feat_status, len_page, len_page_mask,
}

module _ {D C : Type 0} (t : List ℕ → ℕ → ℕ → D → List ℕ × D) (u : List ℕ → ℕ → ℕ → C → List ℕ × C)
    (R : D → C → Type 0) where
  -- The same bytes, and related states.
  unfoldable pub Same : {A : Type 0} → A × D → A × C → Type 0
  Same p q = (p.0 ≡ q.0) × R p.1 q.1

  -- Every transfer that the driver makes gives the same on both buses.
  unfoldable pub Simulates : Type 0
  Simulates =
      (x : List ℕ) (dummy count : ℕ) (d : D) (c : C)
      → length x ≤ 4
      → dummy ≤ 1
      → count ≤ len_page
      → R d c
      → Same (t x dummy count d) (u x dummy count c)

  module _ (sim : Simulates) where
    status-Same :
        (d : D) (c : C) → R d c → Same (get_feature t feat_status d) (get_feature u feat_status c)
    unfolding get_feature Simulates Same
    status-Same d c r =
        let (e, r') =
          sim (cmd_get_feature ∷ feat_status ∷ []) 0 1 d c (omega arith) (omega arith) (omega arith)
            r in
        (ap (first_or 0) e, r')

    pub wait-Both : (polls : ℕ) (d : D) (c : C) → R d c → Both R (wait t polls d) (wait u polls c)
    unfolding wait Same
    wait-Both zero d c r = neither
    wait-Both (suc polls) d c r =
        let (same, r') = status-Same d c r in
        elim (Bool-cases (bit_and (get_feature u feat_status c).0 1 == 1)) [
          | inl e ↦
              rw (same, e)
                (wait-Both polls (get_feature t feat_status d).1 (get_feature u feat_status c).1 r')
          | inr e ↦
              rw (same, e) (both (get_feature t feat_status d).1 (get_feature u feat_status c).1 r')
        ]

    read_part-Both :
        (polls base count : ℕ) (d : D) (c : C)
        → count ≤ len_page
        → R d c
        → Both Same (read_part t polls base count d) (read_part u polls base count c)
    unfolding read_part Simulates Same
    read_part-Both polls base count d c few r =
        Both-bind R Same
          (λ d1. do
            d2 ← wait t polls (t (page_command base) 0 0 d1).1
            some (t (cache_command base) 1 count d2))
          (λ c1. do
            c2 ← wait u polls (u (page_command base) 0 0 c1).1
            some (u (cache_command base) 1 count c2))
          (wait t polls d) (wait u polls c) (wait-Both polls d c r)
          (λ d1 c1 r1.
            Both-bind R Same (λ d2. some (t (cache_command base) 1 count d2))
              (λ c2. some (u (cache_command base) 1 count c2))
              (wait t polls (t (page_command base) 0 0 d1).1)
              (wait u polls (u (page_command base) 0 0 c1).1)
              (wait-Both polls (t (page_command base) 0 0 d1).1 (u (page_command base) 0 0 c1).1
                (sim (page_command base) 0 0 d1 c1 (omega arith) (omega arith) (omega arith) r1).1)
              (λ d2 c2 r2.
                both (t (cache_command base) 1 count d2) (u (cache_command base) 1 count c2)
                  (sim (cache_command base) 1 count d2 c2 (omega arith) (omega arith) few r2)))

    pub copy_into-Both :
        (polls rounds base size : ℕ) (d : D) (c : C)
        → R d c
        → Both Same (copy_into t polls rounds base size d) (copy_into u polls rounds base size c)
    unfolding copy_into Same
    copy_into-Both polls rounds base zero d c r = both ([], d) ([], c) (refl, r)
    copy_into-Both polls zero base (suc left) d c r = neither
    copy_into-Both polls (suc rounds) base (suc left) d c r =
        let count = min (suc left) (len_page - bit_and base len_page_mask) in
        Both-bind Same Same
          (λ part. do
            rest ← copy_into t polls rounds (u32 (base + count)) (suc left - count) part.1
            some (part.0 ++ rest.0, rest.1))
          (λ part. do
            rest ← copy_into u polls rounds (u32 (base + count)) (suc left - count) part.1
            some (part.0 ++ rest.0, rest.1))
          (read_part t polls base count d) (read_part u polls base count c)
          (read_part-Both polls base count d c (omega arith) r)
          (λ p q s.
            Both-bind Same Same (λ rest. some (p.0 ++ rest.0, rest.1))
              (λ rest. some (q.0 ++ rest.0, rest.1))
              (copy_into t polls rounds (u32 (base + count)) (suc left - count) p.1)
              (copy_into u polls rounds (u32 (base + count)) (suc left - count) q.1)
              (copy_into-Both polls rounds (u32 (base + count)) (suc left - count) p.1 q.1 s.1)
              (λ v w z. both (p.0 ++ v.0, v.1) (q.0 ++ w.0, w.1) (ap₂ ◌++◌ s.0 z.0, z.1)))

    pub read_id-Both :
        (polls : ℕ) (d : D) (c : C) → R d c → Both Same (read_id t polls d) (read_id u polls c)
    unfolding read_id Simulates
    read_id-Both polls d c r =
        Both-bind R Same (λ d1. some (t (cmd_read_id ∷ []) 1 3 d1))
          (λ c1. some (u (cmd_read_id ∷ []) 1 3 c1)) (wait t polls d) (wait u polls c)
          (wait-Both polls d c r)
          (λ d1 c1 r1.
            both (t (cmd_read_id ∷ []) 1 3 d1) (u (cmd_read_id ∷ []) 1 3 c1)
              (sim (cmd_read_id ∷ []) 1 3 d1 c1 (omega arith) (omega arith) (omega arith) r1))
