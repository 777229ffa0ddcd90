-- ===== src/TestKernel/Console/Terminal.antt =====
-- A terminal that understands the colours, and what a line of the log looks like on it.
use rustsbi_d.Base.{
  ℕ, zero, suc, ◌+◌, ◌-◌, ◌*◌, ◌≡◌, refl, sym, ap, ◌∙◌, ◌≢◌, inl, inr, List, [], ◌∷◌, ◌++◌, map,
  arith, ◌==◌, if◌then◌else◌, Bool-cases, ==_iff, length, replicate,
}
use mathlib.Core.List.{append-nil, append_assoc}
use rustsbi_d.TestKernel.Console.{
  Level, error, warn, info, debug, trace, color_code, escape, right_5, tag, log,
}

pub data Mode : Type 0 where
  plain escaped : Mode
  param : ℕ → Mode

-- `shown` has each byte with the colour that it was shown in.
pub record Term : Type 0 where
  pub mode : Mode
  pub colour : ℕ
  pub shown : List (ℕ × ℕ)

abbrev feed_byte : Mode → ℕ → Term → Term
feed_byte plain c t =
    if c == escape
    then record t { mode = escaped }
    else record t { shown = t.shown ++ ((t.colour, c) ∷ []) }
feed_byte escaped c t = record t { mode = if c == b'[' then param 0 else plain }
feed_byte (param n) c t =
    if c == b'm'
    then record t { mode = plain; colour = n }
    else record t { mode = param (n * 10 + (c - b'0')) }

abbrev pub feed : List ℕ → Term → Term
feed [] t = t
feed (c ∷ cs) t = feed cs (feed_byte t.mode c t)

-- No escape sequence starts in the text.
abbrev pub Plain : List ℕ → Type 0
Plain [] = Unit {0}
Plain (c ∷ cs) = (c ≢ escape) × Plain cs

Plain-append : (xs ys : List ℕ) → Plain xs → Plain ys → Plain (xs ++ ys)
Plain-append [] ys h k = k
Plain-append (x ∷ xs) ys (n, h) k = (n, Plain-append xs ys h k)

Plain-replicate : (n : ℕ) → Plain (replicate n b' ')
Plain-replicate zero = tt
Plain-replicate (suc n) = ((λ e. absurd (omega (arith, e))), Plain-replicate n)

Plain-tag : (name args : List ℕ) → Plain name → Plain args → Plain (tag name args)
Plain-tag name args h k = (
  (λ e. absurd (omega (arith, e))),
  Plain-append (right_5 name) (b']' ∷ b' ' ∷ args)
      (Plain-append (replicate (5 - length name) b' ') name (Plain-replicate (5 - length name)) h)
      ((λ e. absurd (omega (arith, e))), ((λ e. absurd (omega (arith, e))), k)),
)

-- A text in one colour.
abbrev pub in_colour : ℕ → List ℕ → List (ℕ × ℕ)
in_colour n cs = map (λ c. (n, c)) cs

abbrev pub colour_of : Level → ℕ
colour_of error = 31
colour_of warn = 93
colour_of info = 34
colour_of debug = 32
colour_of trace = 90

feed-append : (xs ys : List ℕ) (t : Term) → feed (xs ++ ys) t ≡ feed ys (feed xs t)
feed-append [] ys t = refl
feed-append (x ∷ xs) ys t = feed-append xs ys (feed_byte t.mode x t)

-- A terminal that shows plain text in colour `n`.
abbrev pub showing : ℕ → List (ℕ × ℕ) → Term
showing n l = record { mode = plain; colour = n; shown = l }

feed-Plain :
    (cs : List ℕ) (n : ℕ) (l : List (ℕ × ℕ))
    → Plain cs
    → feed cs (showing n l) ≡ showing n (l ++ in_colour n cs)
feed-Plain [] n l h = ap (showing n) (sym (append-nil l))
feed-Plain (c ∷ cs) n l (away, h) = elim (Bool-cases (c == escape)) [
  | inl e ↦ absurd (away ((==_iff c escape).0 e))
  | inr e ↦ rw e (
      feed-Plain cs n (l ++ ((n, c) ∷ [])) h
      ∙ ap (showing n) (append_assoc l ((n, c) ∷ []) (in_colour n cs)))
]

feed-color_code :
    (level : Level) (rest : List ℕ) (n : ℕ) (l : List (ℕ × ℕ))
    → feed (escape ∷ b'[' ∷ (color_code level ++ (b'm' ∷ rest))) (showing n l)
      ≡ feed rest (showing (colour_of level) l)
feed-color_code error rest n l = refl
feed-color_code warn rest n l = refl
feed-color_code info rest n l = refl
feed-color_code debug rest n l = refl
feed-color_code trace rest n l = refl

-- On a terminal that understands the colours and shows plain text in colour 0, a line of the log shows the tag
-- and the text, both without an escape character, in the level's colour, and then, for the line end and
-- whatever follows, the colour 0 again.
pub feed-log :
    (show : Level → List ℕ) (level : Level) (args : List ℕ) (l : List (ℕ × ℕ))
    → Plain (show level)
    → Plain args
    → feed (log show level args) (showing 0 l)
      ≡ showing 0 ((l ++ in_colour (colour_of level) (tag (show level) args)) ++ ((0, 10) ∷ []))
unfolding log
feed-log show level args l h k =
    let text = tag (show level) args in
    let n = colour_of level in
    let back = escape ∷ b'[' ∷ b'0' ∷ b'm' ∷ 10 ∷ [] in
    feed-color_code level (text ++ back) 0 l
    ∙ feed-append text back (showing n l)
    ∙ ap (feed back) (feed-Plain text n l (Plain-tag (show level) args h k))
