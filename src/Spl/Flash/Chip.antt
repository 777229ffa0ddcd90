-- ===== src/Spl/Flash/Chip.antt =====
-- What the loader relies on of the chip and the bus: a status bit, a command that loads a
-- page into the cache, and one that reads the cache. The chip's own page of 2048 bytes is the parameter
-- `page`.
use rustsbi_d.Base.{ℕ, zero, suc, ◌+◌, ◌-◌, ◌*◌, ◌/◌, ◌%◌, ◌^◌, ◌≤◌, ◌<◌, min, ◌≡◌, List, [], ◌∷◌}
use rustsbi_d.Spl.Flash.{
  cmd_get_feature, cmd_read_page, cmd_read_cache, feat_status, len_page, first_or,
}

-- The `n` bytes from `a` on.
abbrev pub image : (ℕ → ℕ) → ℕ → ℕ → List ℕ
image f a zero = []
image f a (suc n) = f a ∷ image f (a + 1) n

-- The flash as one run of bytes.
abbrev pub flash : (ℕ → ℕ → ℕ) → ℕ → ℕ
flash page a = page (a / len_page) (a % len_page)

module _ {D : Type 0} (transfer : List ℕ → ℕ → ℕ → D → List ℕ × D) where
  -- `busy` counts the polls until the chip is ready, at most `latency`; `loaded` is the page in its cache.
  pub record IsNand (page : ℕ → ℕ → ℕ) (busy loaded : D → ℕ) (latency : ℕ) : Type 0 where
    pub prompt : (d : D) → busy d ≤ latency
    pub status :
        (d : D)
        → let (got, d') = transfer (cmd_get_feature ∷ feat_status ∷ []) 0 1 d in
          (first_or 0 got % 2 ≡ min 1 (busy d)) × (busy d' ≡ busy d - 1) × (loaded d' ≡ loaded d)
    pub page_read :
        (d : D) (hi mid lo : ℕ)
        → busy d ≡ 0
        → hi < 2 ^ 8
        → mid < 2 ^ 8
        → lo < 2 ^ 8
        → loaded (transfer (cmd_read_page ∷ hi ∷ mid ∷ lo ∷ []) 0 0 d).1
          ≡ hi * 2 ^ 16 + mid * 2 ^ 8 + lo
    pub cache_read :
        (d : D) (hi lo count : ℕ)
        → busy d ≡ 0
        → hi < 2 ^ 8
        → lo < 2 ^ 8
        → hi * 2 ^ 8 + lo + count ≤ len_page
        → (transfer (cmd_read_cache ∷ hi ∷ lo ∷ []) 1 count d).0
          ≡ image (page (loaded d)) (hi * 2 ^ 8 + lo) count
